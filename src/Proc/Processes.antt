-- ===== src/Proc/Processes.antt =====
-- proc.cpp: `arp_stats`, `process_stats` and `is_container`. A directory is the names that `readdir`
-- gives; `none` is one that cannot be opened.
use atlas_system_agent.Base.{
  ℕ, ◌+◌, Bool, true, false, not, ◌&&◌, Option, none, some, List, [], ◌∷◌, Text, eqb, if◌then◌else◌,
  is_digit,
}
use atlas_system_agent.Base.Int.{ℤ, pos, negsuc}
use atlas_system_agent.Base.Numbers.Hex.{atoi}
use atlas_system_agent.Metrics.{Double, of_ℕ, metric, Metric, gauge, Tags}

abbrev starts_with_digit : Text → Bool
starts_with_digit [] = false
starts_with_digit (c ∷ _) = is_digit c

unfoldable pub arp_entries : List Text → ℕ
arp_entries [] = 0
arp_entries (line ∷ lines) =
    let more = arp_entries lines in if starts_with_digit line then more + 1 else more

-- No name of a directory is empty, so the assertion holds.
unfoldable pub all_digits : Text → Bool
all_digits [] = true
all_digits (c ∷ s) = is_digit c && all_digits s

abbrev pub Directory : Type 0
Directory = Option (List Text)

unfoldable pub count_names : List Text → ℕ
unfolding all_digits
count_names [] = 0
count_names (name ∷ names) =
    let more = count_names names in if all_digits name then more + 1 else more

unfoldable pub count_tasks : Directory → ℕ
unfolding count_names
count_tasks none = 0
count_tasks (some names) = count_names names

-- The loop over the processes, with the directory of the tasks of each.
unfoldable pub count_processes : (Text → Directory) → List Text → ℕ × ℕ
unfolding all_digits count_tasks
count_processes tasks [] = (0, 0)
count_processes tasks (name ∷ names) =
    let more = count_processes tasks names in
    if all_digits name then (more.0 + 1, more.1 + count_tasks (tasks name)) else more

module _ {D : Type 0} ⦃fp : Double D⦄ where
  -- The first line is the header.
  unfoldable pub arp_stats : Tags → Option (List Text) → List (Metric D)
  unfolding arp_entries
  arp_stats net_tags none = []
  arp_stats net_tags (some []) = metric gauge "net.arpCacheSize" net_tags (of_ℕ 0) ∷ []
  arp_stats net_tags (some (header ∷ lines)) =
      metric gauge "net.arpCacheSize" net_tags (of_ℕ (arp_entries lines)) ∷ []

  unfoldable pub process_stats : (Text → Directory) → Directory → List (Metric D)
  unfolding count_processes
  process_stats tasks none = []
  process_stats tasks (some names) =
      let counts = count_processes tasks names in
      metric gauge "sys.currentProcesses" [] (of_ℕ counts.0)
      ∷ metric gauge "sys.currentThreads" [] (of_ℕ counts.1)
      ∷ []

-- `proc::get_pid_from_sched`: the number behind the first parenthesis, or -1.
unfoldable pub get_pid_from_sched : Text → ℤ
unfolding atoi
get_pid_from_sched [] = negsuc 0
get_pid_from_sched (c ∷ s) = let rest = get_pid_from_sched s in if eqb c b'(' then atoi s else rest

abbrev is_one : ℤ → Bool
is_one (pos n) = eqb n 1
is_one (negsuc n) = false

unfoldable pub is_container : Option (List Text) → Bool
unfolding get_pid_from_sched
is_container (some (line ∷ _)) = not (is_one (get_pid_from_sched line))
is_container _ = false
