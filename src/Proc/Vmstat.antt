-- ===== src/Proc/Vmstat.antt =====
-- proc.cpp: `vmstats`, `uptime_stats` and `loadavg_stats`. A file is the buffers that `fgets` fills;
-- `none` is a file that cannot be opened.
use atlas_system_agent.Base.{
  Option, none, some, List, [], ◌∷◌, ◌++◌, String, Text, codes, if◌then◌else◌, text_eq,
}
use atlas_system_agent.Base.Dict.{find}
use atlas_system_agent.Base.Outcome.{Outcome, ok, err, undefined, ◌>>=◌}
use atlas_system_agent.Metrics.{Double, of_ℕ, metric, Metric, Kind, gauge, monotonic_counter, Tags}
use atlas_system_agent.Stdio.{sscanf_ulongs}
use atlas_system_agent.StrSplit.{StrSplit}
use atlas_system_agent.Util.{starts_with, KeyValues, parse_kv_from_file, read_num_vector_from_file}

-- A line of /proc/stat that is looked for: its format and its meter.
pub record StatField : Type 0 where
  pub label : String
  pub kind : Kind
  pub meter : String
  pub tags : Tags

unfoldable pub stat_field : Text → Option StatField
unfolding starts_with
stat_field line =
    if starts_with line (codes "processes")
    then some (record {
      label = "processes";
      kind = monotonic_counter;
      meter = "vmstat.procs.count";
      tags = [];
    })
    else if starts_with line (codes "procs_running")
    then some (record {
      label = "procs_running";
      kind = gauge;
      meter = "vmstat.procs";
      tags = ("id", codes "running") ∷ [];
    })
    else if starts_with line (codes "procs_blocked")
    then some (record {
      label = "procs_blocked";
      kind = gauge;
      meter = "vmstat.procs";
      tags = ("id", codes "blocked") ∷ [];
    })
    else none

module _ {D : Type 0} ⦃fp : Double D⦄ where
  -- The loop; a number that `sscanf` does not find is read all the same.
  unfoldable pub stat_lines : List Text → Outcome (List (Metric D))
  unfolding stat_field sscanf_ulongs
  stat_lines [] = ok []
  stat_lines (line ∷ lines) = elim (stat_field line) [
    | none ↦ stat_lines lines
    | some f ↦ elim (sscanf_ulongs (codes f.label) 1 line) [
      | [] ↦ err undefined
      | n ∷ _ ↦ stat_lines lines >>= λ more. ok (metric f.kind f.meter f.tags (of_ℕ n) ∷ more)
    ]
  ]

  unfoldable pub set_if_present : KeyValues → String → String → Tags → List (Metric D)
  set_if_present stats key name tags = elim (find (codes key) stats) [
    | none ↦ []
    | some n ↦ metric monotonic_counter name tags (fp.of_ℤ n) ∷ []
  ]

  -- The first line, where all three numbers are read; the file is read also where it was not opened.
  unfoldable pub file_nr : Option (List Text) → Outcome (List (Metric D))
  unfolding sscanf_ulongs
  file_nr none = err undefined
  file_nr (some []) = ok []
  file_nr (some (line ∷ _)) = elim (sscanf_ulongs [] 3 line) [
    | alloc ∷ used ∷ max ∷ _ ↦ ok (
        metric gauge "vmstat.fh.allocated" [] (of_ℕ alloc)
        ∷ metric gauge "vmstat.fh.max" [] (of_ℕ max)
        ∷ [])
    | _ ↦ ok []
  ]

  unfoldable pub vmstats :
      Option (List Text) → Option (List Text) → Option (List Text) → Outcome (List (Metric D))
  unfolding stat_lines set_if_present file_nr parse_kv_from_file
  vmstats none vmstat file_nr_file = ok []
  vmstats (some lines) vmstat file_nr_file =
      let stats = parse_kv_from_file vmstat [] in
      stat_lines lines >>= λ procs. file_nr file_nr_file >>= λ handles. ok (
        procs
        ++ (set_if_present stats "pgpgin" "vmstat.paging" (("id", codes "in") ∷ [])
            ++ (set_if_present stats "pgpgout" "vmstat.paging" (("id", codes "out") ∷ [])
                ++ (set_if_present stats "pswpin" "vmstat.swapping" (("id", codes "in") ∷ [])
                    ++ (set_if_present stats "pswpout" "vmstat.swapping" (("id", codes "out") ∷ [])
                        ++ handles)))))

  -- The first number of the file is read also where there is none.
  unfoldable pub uptime_stats : StrSplit → Option Text → Outcome (List (Metric D))
  unfolding read_num_vector_from_file
  uptime_stats split file = elim (read_num_vector_from_file split file) [
    | [] ↦ err undefined
    | seconds ∷ _ ↦ ok (metric gauge "sys.uptime" [] (fp.of_ℤ seconds) ∷ [])
  ]

  -- The values that `sscanf` assigns for `%lf %lf %lf` are a parameter.
  unfoldable pub parse_load_avg : (Text → List D) → Text → Outcome (List (Metric D))
  parse_load_avg scan_doubles buf = elim (scan_doubles buf) [
    | one ∷ five ∷ fifteen ∷ _ ↦ ok (
        metric gauge "sys.load.1" [] one
        ∷ metric gauge "sys.load.5" [] five
        ∷ metric gauge "sys.load.15" [] fifteen
        ∷ [])
    | _ ↦ err undefined
  ]

  unfoldable pub loadavg_stats : (Text → List D) → Option (List Text) → Outcome (List (Metric D))
  unfolding parse_load_avg
  loadavg_stats scan_doubles (some (line ∷ _)) = parse_load_avg scan_doubles line
  loadavg_stats scan_doubles _ = ok []
