-- ===== src/Pressure/Totals.antt =====
-- pressure_stall.cpp, cgroup.cpp: the counters hold the totals of the kernel's pressure files.
use atlas_system_agent.Base.{
  ℕ, ◌<◌, ◌≡◌, refl, Bool, true, false, List, [], ◌∷◌, ◌++◌, Text, String, codes, length, ltb,
  if◌then◌else◌, arith,
}
use atlas_system_agent.Base.Numbers.{decimal, u64}
use atlas_system_agent.Base.Numbers.Decimal.{strtoul-decimal}
use atlas_system_agent.Base.Outcome.{ok}
use atlas_system_agent.Metrics.{Double, of_ℕ, metric, Metric, monotonic_counter}
use atlas_system_agent.Pressure.{
  Lines, stall_usecs, stall_metric, stall_metrics, cgroup_pressure_stall, collect,
}

-- A line of a pressure file: its kind, three averages, and the total.
pub record Stall : Type 0 where
  pub kind : Text
  pub avg10 : Text
  pub avg60 : Text
  pub avg300 : Text
  pub total : ℕ

unfoldable pub fields : Stall → List Text
fields s = s.kind ∷ s.avg10 ∷ s.avg60 ∷ s.avg300 ∷ (codes "total=" ++ decimal s.total) ∷ []

-- A file: the line of some and the line of full, whose totals fit 64 bits.
pub record File : Type 0 where
  pub some_line : Stall
  pub full_line : Stall
  pub some_fits : some_line.total < u64
  pub full_fits : full_line.total < u64

unfoldable pub lines : File → Lines
unfolding fields
lines f = fields f.some_line ∷ fields f.full_line ∷ []

stall_usecs-fields :
    (s : Stall) (before after : Lines)
    → s.total < u64
    → stall_usecs (before ++ fields s ∷ after) (length before) ≡ ok s.total
unfolding stall_usecs fields
stall_usecs-fields s [] after h =
    let long : ltb (length (codes "total=" ++ decimal s.total)) 6 ≡ false = ground arith in
    rw (strtoul-decimal s.total h, long) refl
stall_usecs-fields s (b ∷ before) after h = stall_usecs-fields s before after h

module _ (D : Type 0) ⦃fp : Double D⦄ where
  abbrev pub stalled : String → Text → ℕ → Metric D
  stalled name id total =
      metric monotonic_counter name (("id", id) ∷ []) (fp.div (of_ℕ total) (of_ℕ 1000000))

  -- The metrics of a file.
  abbrev pub of_file : Bool → Text → File → List (Metric D)
  of_file full id f =
      stalled "sys.pressure.some" id f.some_line.total
      ∷ (if full then stalled "sys.pressure.full" id f.full_line.total ∷ [] else [])

  stall_metrics-lines :
      (full : Bool) (id : Text) (f : File)
      → stall_metrics full id (lines f) ≡ ok (of_file full id f)
  unfolding stall_metrics stall_metric lines
  stall_metrics-lines true id f =
      rw
        (
          stall_usecs-fields f.some_line [] (fields f.full_line ∷ []) f.some_fits,
          stall_usecs-fields f.full_line (fields f.some_line ∷ []) [] f.full_fits,
          stall_metric,
        )
        refl
  stall_metrics-lines false id f =
      rw (stall_usecs-fields f.some_line [] (fields f.full_line ∷ []) f.some_fits, stall_metric)
        refl

  -- From the kernel's cpu, io and memory files of a cgroup, its six totals become counters in
  -- seconds: some and full of each.
  pub cgroup_pressure_stall_lem :
      (cpu io memory : File)
      → cgroup_pressure_stall (lines cpu) (lines io) (lines memory)
        ≡ ok (
            of_file true (codes "cpu") cpu
            ++ (of_file true (codes "io") io ++ of_file true (codes "memory") memory))
  unfolding cgroup_pressure_stall
  cgroup_pressure_stall_lem cpu io memory =
      rw
        (
          stall_metrics-lines true (codes "cpu") cpu,
          stall_metrics-lines true (codes "io") io,
          stall_metrics-lines true (codes "memory") memory,
        )
        refl

  -- From the kernel's cpu, io and memory files of the machine, the totals become counters in seconds,
  -- all but the full one of the cpu.
  pub collect_lem :
      (cpu io memory : File)
      → collect true (lines cpu) (lines io) (lines memory)
        ≡ ok (
            of_file false (codes "cpu") cpu
            ++ (of_file true (codes "io") io ++ of_file true (codes "memory") memory))
  unfolding collect
  collect_lem cpu io memory =
      rw
        (
          stall_metrics-lines false (codes "cpu") cpu,
          stall_metrics-lines true (codes "io") io,
          stall_metrics-lines true (codes "memory") memory,
        )
        refl
