-- ===== src/Cgroup/Memory.antt =====
-- cgroup.cpp: `MemoryStatsV2`, `MemoryStatsStdV2` and `NetworkStats`. The contents of the files are read
-- in front of them; -1 stands for a file that cannot be read. The sums stay inside `int64_t`.
pub mod Balance
use atlas_system_agent.Base.{
  ℕ, Bool, true, false, ◌&&◌, Option, none, some, List, [], ◌∷◌, ◌++◌, Text, String, codes,
  if◌then◌else◌, text_eq,
}
use atlas_system_agent.Base.Dict.{find}
use atlas_system_agent.Base.Int.{ℤ, pos, ◌+ℤ◌, ◌-ℤ◌, leb_ℤ, ltb_ℤ}
use atlas_system_agent.Metrics.{Double, of_ℕ, metric, Metric, gauge, monotonic_counter, Tags}

abbrev pub KeyValues : Type 0
KeyValues = List (Text × ℤ)

-- `stats[key]`
abbrev pub value_or_zero : KeyValues → Text → ℤ
value_or_zero stats key = elim (find key stats) [ none ↦ pos 0 | some n ↦ n ]

abbrev pub is_read : ℤ → Bool
is_read n = leb_ℤ (pos 0) n

pub record MemoryFiles : Type 0 where
  pub memory_current : ℤ
  pub memory_max : ℤ
  pub memory_swap_current : ℤ
  pub memory_swap_max : ℤ
  pub memory_events : KeyValues
  pub memory_stat : KeyValues

module _ {D : Type 0} ⦃fp : Double D⦄ where
  abbrev if_read : ℤ → String → List (Metric D)
  if_read n name = if is_read n then metric gauge name [] (fp.of_ℤ n) ∷ [] else []

  unfoldable pub memory_stats_v2 : MemoryFiles → List (Metric D)
  memory_stats_v2 f =
      let mem_fail = value_or_zero f.memory_events (codes "max") in
      if_read f.memory_current "cgroup.mem.used"
      ++ (if_read f.memory_max "cgroup.mem.limit"
          ++ ((if is_read mem_fail
                then metric monotonic_counter "cgroup.mem.failures" [] (fp.of_ℤ mem_fail) ∷ []
                else [])
              ++ (usage "cache" "file"
                  ∷ usage "rss" "anon"
                  ∷ usage "rss_huge" "anon_thp"
                  ∷ usage "mapped_file" "file_mapped"
                  ∷ faults "minor" "pgfault"
                  ∷ faults "major" "pgmajfault"
                  ∷ [])))
    where
      usage : String → String → Metric D
      usage id key =
          metric gauge "cgroup.mem.processUsage" (("id", codes id) ∷ [])
            (fp.of_ℤ (value_or_zero f.memory_stat (codes key)))

      faults : String → String → Metric D
      faults id key =
          metric monotonic_counter "cgroup.mem.pageFaults" (("id", codes id) ∷ [])
            (fp.of_ℤ (value_or_zero f.memory_stat (codes key)))

  unfoldable pub memory_stats_std_v2 : MemoryFiles → List (Metric D)
  memory_stats_std_v2 f =
      let cache = value_or_zero f.memory_stat (codes "file") in
      let free = f.memory_max -ℤ f.memory_current in
      let free_swap = f.memory_swap_max -ℤ f.memory_swap_current in
      let real = is_read f.memory_max && is_read f.memory_current in
      let swap = is_read f.memory_swap_max && is_read f.memory_swap_current in
      (value "mem.cached" cache
        ∷ value "mem.shared" (value_or_zero f.memory_stat (codes "shmem"))
        ∷ [])
      ++ ((if real
            then value "mem.availReal" (free +ℤ cache)
              ∷ value "mem.freeReal" free
              ∷ value "mem.totalReal" f.memory_max
              ∷ []
            else [])
          ++ ((if swap
                then value "mem.availSwap" free_swap ∷ value "mem.totalSwap" f.memory_swap_max ∷ []
                else [])
              ++ (if real && swap
                  then value "mem.totalFree" (free +ℤ free_swap +ℤ cache) ∷ []
                  else [])))
    where
      value : String → ℤ → Metric D
      value name n = metric gauge name [] (fp.of_ℤ n)

  -- `NetworkStats`, on the number of the environment variable, if it is set.
  unfoldable pub network_stats : Option ℤ → List (Metric D)
  network_stats none = []
  network_stats (some n) =
      if ltb_ℤ (pos 0) n
      then metric gauge "cgroup.net.bandwidthBytes" [] (fp.mul (fp.of_ℤ n) (of_ℕ 125000)) ∷ []
      else []
