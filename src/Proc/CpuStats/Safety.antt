-- ===== src/Proc/CpuStats/Safety.antt =====
-- `CpuStats` on the lines that `ParseProcStatFile` returns.
use atlas_system_agent.Base.{
  ◌-◌, ◌≡◌, refl, Bool, Option, List, [], ◌∷◌, Text, All, length, arith, drop,
}
use atlas_system_agent.Base.Outcome.{Outcome, ok, err, thrown}
use atlas_system_agent.Base.{text_eq, String}
use atlas_system_agent.Metrics.{Double, Kind, gauge, max_gauge}
use atlas_system_agent.StrSplit.{StrSplit}
use atlas_system_agent.Proc.CpuFields.{CpuStatFields, parse_fields}
use atlas_system_agent.Proc.Stat.{IsCpuLine, parse_proc_stat_file, parse_proc_stat_file-IsCpuLine}
use atlas_system_agent.Proc.CpuStats.{
  Ran, CoreState, CpuState, update_aggregate, core_line, core_lines, update_core_utilization,
  cpu_stats, then_run, when, sixty_seconds, five_seconds, every_second,
}

-- Eleven fields are enough: the constructor returns or throws.
abbrev ReturnsOrThrows : {A : Type 0} → Outcome A → Type 0
ReturnsOrThrows (ok _) = Unit
ReturnsOrThrows (err e) = e ≡ thrown

parse_fields_total : (line : List Text) → IsCpuLine line → ReturnsOrThrows (parse_fields line)
unfolding parse_fields
parse_fields_total [] h = absurd h
parse_fields_total (k ∷ a ∷ b ∷ c ∷ d ∷ e ∷ f ∷ g ∷ h ∷ i ∷ j ∷ []) (_, n) = ground arith
parse_fields_total _ (_, n) = absurd (omega arith)

All-drop : (lines : List (List Text)) → All IsCpuLine lines → All IsCpuLine (drop 1 lines)
All-drop [] h = tt
All-drop (line ∷ lines) h = h.1

update_aggregate_returns :
    (D : Type 0) ⦃fp : Double D⦄ (kind : Kind) (name : String) (line : List Text)
    (s : Option CpuStatFields)
    → IsCpuLine line
    → (update_aggregate {D = D} kind name line s).outcome ≡ ok tt
unfolding update_aggregate
update_aggregate_returns D kind name line s h = let p = parse_fields_total line h in ground arith

module _ {D : Type 0} ⦃fp : Double D⦄ where
  core_line_total :
      (s : CoreState D) (line : List Text)
      → IsCpuLine line
      → ReturnsOrThrows (core_line s line).outcome
  unfolding core_line
  core_line_total s [] h = absurd h
  core_line_total s (key ∷ fs) h = let p = parse_fields_total (key ∷ fs) h in ground arith

  core_lines_total :
      (s : CoreState D) (lines : List (List Text))
      → All IsCpuLine lines
      → ReturnsOrThrows (core_lines s lines).outcome
  unfolding core_lines
  core_lines_total s [] h = tt
  core_lines_total s (line ∷ lines) (h, hs) =
      let one = core_line_total s line h in
      let rest = core_lines_total (core_line s line).state lines hs in ground arith

  update_core_returns :
      (s : CoreState D) (lines : List (List Text)) (sixty : Bool)
      → All IsCpuLine lines
      → (update_core_utilization s lines sixty).outcome ≡ ok tt
  unfolding update_core_utilization
  update_core_returns s lines sixty h =
      let c = core_lines_total s (drop 1 lines) (All-drop lines h) in ground arith

  abbrev Returns : (CpuState D → Ran (CpuState D) D) → Type 0
  Returns f = (s : CpuState D) → (f s).outcome ≡ ok tt

  then_run-Returns :
      (f g : CpuState D → Ran (CpuState D) D) → Returns f → Returns g → Returns (then_run f g)
  then_run-Returns f g h k s = let first = h s in let second = k (f s).state in ground arith

  when-Returns : (b : Bool) (f : CpuState D → Ran (CpuState D) D) → Returns f → Returns (when b f)
  when-Returns b f h s = let run = h s in ground arith

  cpu_stats-Returns :
      (five sixty : Bool) (lines : List (List Text))
      → All IsCpuLine lines
      → Returns (cpu_stats five sixty lines)
  unfolding cpu_stats
  cpu_stats-Returns five sixty [] h s = refl
  cpu_stats-Returns five sixty (aggregate ∷ cores) h s =
      let minute = sixty_seconds aggregate (length (aggregate ∷ cores) - 1) in
      let interval = five_seconds (aggregate ∷ cores) sixty in
      let m =
        when-Returns sixty minute (λ t.
          update_aggregate_returns D gauge "sys.cpu.utilization" aggregate t.utilization h.0) in
      let i =
        when-Returns five interval (λ t. update_core_returns t.core (aggregate ∷ cores) sixty h) in
      then_run-Returns (then_run (when sixty minute) (when five interval)) (every_second aggregate)
        (then_run-Returns (when sixty minute) (when five interval) m i)
        (λ t. update_aggregate_returns D max_gauge "sys.cpu.peakUtilization" aggregate t.peak h.0) s

  -- Whatever the file /proc/stat holds, `CpuStats` returns: it lets no exception out and reads no
  -- field out of bounds, since every line that `ParseProcStatFile` passes on has its eleven fields.
  pub cpu_stats-parse_returns :
      (split : StrSplit) (content : Option (List Text)) (five sixty : Bool) (s : CpuState D)
      → (cpu_stats five sixty (parse_proc_stat_file split content) s).outcome ≡ ok tt
  cpu_stats-parse_returns split content five sixty s =
      cpu_stats-Returns five sixty _ (parse_proc_stat_file-IsCpuLine split content) s
