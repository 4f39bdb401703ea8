-- ===== src/ServiceMonitor/ProcStat.antt =====
-- service_monitor_utils.cpp, "Process (per-PID) helpers": /proc/[pid]/stat and /proc/[pid]/fd.
pub mod RoundTrip
use atlas_system_agent.Base.{
  ℕ, ◌+◌, Bool, true, false, Option, none, some, List, [], ◌∷◌, Text, codes, eqb, leb,
  if◌then◌else◌, length, get_elem?,
}
use atlas_system_agent.Base.Numbers.{stoul, decimal}
use atlas_system_agent.StrSplit.{StrSplit, blank, skip_whitespace}
use atlas_system_agent.ServiceMonitor.Host.{Host, ◌⁄◌}

pub record ProcessTimes : Type 0 where
  pub u_time : ℕ
  pub s_time : ℕ

abbrev pub u_time_index : ℕ
u_time_index = 11

abbrev pub s_time_index : ℕ
s_time_index = 12

abbrev pub rss_index : ℕ
rss_index = 21

-- `get_proc_fields`
unfoldable pub get_proc_fields : Host → ℕ → Option (List Text)
unfolding decimal ◌⁄◌
get_proc_fields host pid = host.read_file (codes "/proc" ⁄ decimal pid ⁄ codes "stat")

-- What follows the last byte `c`: `s.substr(s.rfind(c) + 1)`, or `none` for `npos`.
unfoldable pub after_last : ℕ → Text → Option Text
after_last c [] = none
after_last c (x ∷ s) = elim (after_last c s) [
  | some rest ↦ some rest
  | none ↦ if eqb x c then some s else none
]

module _ (split : StrSplit) where
  unfoldable pub tokenize_post_comm : Text → Option (List Text)
  unfolding after_last
  tokenize_post_comm stat_line = elim (after_last b')' stat_line) [
    | none ↦ none
    | some rest ↦ some (split blank skip_whitespace rest)
  ]

  abbrev number_at : List Text → ℕ → Option ℕ
  number_at tokens i = elim (get_elem? tokens i) [ none ↦ none | some t ↦ stoul t ]

  -- The exception of `pidStats.at(0)` on no lines is caught.
  unfoldable pub parse_process_times : List Text → Option ProcessTimes
  unfolding tokenize_post_comm
  parse_process_times [] = none
  parse_process_times (line ∷ _) = elim (tokenize_post_comm line) [
    | none ↦ none
    | some tokens ↦
        if leb (length tokens) s_time_index then none else elim (number_at tokens u_time_index) [
          | none ↦ none
          | some u ↦ elim (number_at tokens s_time_index) [
            | none ↦ none
            | some s ↦ some (record { u_time = u; s_time = s })
          ]
        ]
  ]

  unfoldable pub parse_rss : List Text → Option ℕ
  unfolding tokenize_post_comm
  parse_rss [] = none
  parse_rss (line ∷ _) = elim (tokenize_post_comm line) [
    | none ↦ none
    | some tokens ↦ if leb (length tokens) rss_index then none else number_at tokens rss_index
  ]

  unfoldable pub get_process_times : Host → ℕ → Option ProcessTimes
  unfolding get_proc_fields
  get_process_times host pid = elim (get_proc_fields host pid) [
    | none ↦ none
    | some lines ↦ parse_process_times lines
  ]

  unfoldable pub get_rss : Host → ℕ → Option ℕ
  unfolding get_proc_fields
  get_rss host pid = elim (get_proc_fields host pid) [ none ↦ none | some lines ↦ parse_rss lines ]

abbrev count_true : List Bool → ℕ
count_true [] = 0
count_true (b ∷ bs) = (if b then 1 else 0) + count_true bs

unfoldable pub get_number_fds : Host → ℕ → Option ℕ
unfolding decimal ◌⁄◌
get_number_fds host pid =
    elim (host.directory_symlinks (codes "/proc" ⁄ decimal pid ⁄ codes "fd")) [
      | none ↦ none
      | some entries ↦ some (count_true entries)
    ]
