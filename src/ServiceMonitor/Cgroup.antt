-- ===== src/ServiceMonitor/Cgroup.antt =====
-- service_monitor_utils.cpp, "cgroup-v2 helpers".
use atlas_system_agent.Base.{
  ℕ, ◌+◌, ◌%◌, ◌^◌, Option, none, some, List, [], ◌∷◌, Text, codes, if◌then◌else◌, ◌==◌, text_eq,
}
use atlas_system_agent.Base.Numbers.{stoul, u64}
use atlas_system_agent.StrSplit.{StrSplit, blank, skip_whitespace}
use atlas_system_agent.ServiceMonitor.Host.{Host, ◌⁄◌, without_leading_slash}
use atlas_system_agent.ServiceMonitor.ProcStat.{get_number_fds}

-- The value of a line's tokens if their key is "usage_usec" and a value follows.
abbrev usage_token : List Text → Option Text
usage_token (key ∷ value ∷ _) = if key == codes "usage_usec" then some value else none
usage_token _ = none

-- The first such line decides: its value, or `none` where that is no number.
unfoldable pub parse_cgroup_cpu_stat : StrSplit → List Text → Option ℕ
parse_cgroup_cpu_stat split [] = none
parse_cgroup_cpu_stat split (line ∷ lines) =
    let rest = parse_cgroup_cpu_stat split lines in
    elim (usage_token (split blank skip_whitespace line)) [ none ↦ rest | some value ↦ stoul value ]

unfoldable pub cgroup_path : Text → Text → Text
unfolding ◌⁄◌
cgroup_path cgroup file = codes "/sys/fs/cgroup" ⁄ without_leading_slash cgroup ⁄ file

unfoldable pub get_cgroup_cpu_usage : StrSplit → Host → Text → Option ℕ
unfolding cgroup_path
get_cgroup_cpu_usage split host cgroup =
    elim (host.read_file (cgroup_path cgroup (codes "cpu.stat"))) [
      | none ↦ none
      | some [] ↦ none
      | some (line ∷ lines) ↦ parse_cgroup_cpu_stat split (line ∷ lines)
    ]

unfoldable pub get_cgroup_memory : Host → Text → Option ℕ
unfolding cgroup_path
get_cgroup_memory host cgroup =
    elim (host.read_file (cgroup_path cgroup (codes "memory.current"))) [
      | none ↦ none
      | some [] ↦ none
      | some (line ∷ _) ↦ stoul line
    ]

-- `pids.emplace_back(std::stoul(line))`, into a 32-bit `unsigned int`; one bad line fails them all.
unfoldable pub parse_pids : List Text → Option (List ℕ)
parse_pids [] = some []
parse_pids ([] ∷ lines) = parse_pids lines
parse_pids ((c ∷ s) ∷ lines) = elim (stoul (c ∷ s)) [
  | none ↦ none
  | some n ↦ elim (parse_pids lines) [ none ↦ none | some pids ↦ some ((n % 2 ^ 32) ∷ pids) ]
]

unfoldable pub get_cgroup_pids : Host → Text → Option (List ℕ)
unfolding cgroup_path parse_pids
get_cgroup_pids host cgroup = elim (host.read_file (cgroup_path cgroup (codes "cgroup.procs"))) [
  | none ↦ none
  | some lines ↦ parse_pids lines
]

-- `total += fds.value()` in an `unsigned long`; a process whose descriptors cannot be read is left out.
unfoldable pub add_fds : Host → ℕ → List ℕ → ℕ
add_fds host total [] = total
add_fds host total (pid ∷ pids) =
    add_fds host (elim (get_number_fds host pid) [ none ↦ total | some n ↦ (total + n) % u64 ]) pids

unfoldable pub get_total_fds : Host → Text → Option ℕ
unfolding get_cgroup_pids add_fds
get_total_fds host cgroup = elim (get_cgroup_pids host cgroup) [
  | none ↦ none
  | some pids ↦ some (add_fds host 0 pids)
]
