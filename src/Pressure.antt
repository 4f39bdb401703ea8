-- ===== src/Pressure.antt =====
-- lib/collectors/pressure_stall/src/pressure_stall.cpp and `CGroup::PressureStall` of
-- lib/collectors/cgroup/src/cgroup.cpp. Both functions are `noexcept`.
pub mod Totals
use atlas_system_agent.Base.{
  ℕ, Bool, true, false, Option, none, some, List, [], ◌∷◌, ◌++◌, Text, String, codes, ltb, eqb,
  length, get_elem?, drop, if◌then◌else◌,
}
use atlas_system_agent.Base.Numbers.{strtoul}
use atlas_system_agent.Base.Outcome.{Outcome, ok, err, terminated, undefined, ◌>>=◌}
use atlas_system_agent.Metrics.{Double, of_ℕ, metric, Metric, monotonic_counter}

-- The fields of the lines of a file, from `read_lines_fields`.
abbrev pub Lines : Type 0
Lines = List (List Text)

-- `operator[]` of a vector
abbrev index {ℓ} : {A : Type ℓ} → List A → ℕ → Outcome A
index xs i = elim (get_elem? xs i) [ none ↦ err undefined | some x ↦ ok x ]

-- `lines[i][4].substr(6)`, as a number.
unfoldable pub stall_usecs : Lines → ℕ → Outcome ℕ
unfolding strtoul
stall_usecs lines i = do
  fields ← index lines i
  field ← index fields 4
  if ltb (length field) 6 then err terminated else ok (strtoul (drop 6 field))

module _ {D : Type 0} ⦃fp : Double D⦄ where
  unfoldable pub stall_metric : String → Text → ℕ → Lines → Outcome (List (Metric D))
  unfolding stall_usecs
  stall_metric name id i lines = do
    usecs ← stall_usecs lines i
    ok (metric monotonic_counter name (("id", id) ∷ []) (fp.div (of_ℕ usecs) (of_ℕ 1000000)) ∷ [])

  -- The counters of a file, if it has two lines: with `full` or without it.
  unfoldable pub stall_metrics : Bool → Text → Lines → Outcome (List (Metric D))
  unfolding stall_metric
  stall_metrics full id lines =
      if eqb (length lines) 2
      then (do
        some_stalled ← stall_metric "sys.pressure.some" id 0 lines
        full_stalled ← if full then stall_metric "sys.pressure.full" id 1 lines else ok []
        ok (some_stalled ++ full_stalled))
      else ok []

  -- `PressureStall::collect`, on the files cpu, io and memory, if the directory exists.
  unfoldable pub collect : Bool → Lines → Lines → Lines → Outcome (List (Metric D))
  unfolding stall_metrics
  collect false cpu io memory = ok []
  collect true cpu io memory = do
    c ← stall_metrics false (codes "cpu") cpu
    i ← stall_metrics true (codes "io") io
    m ← stall_metrics true (codes "memory") memory
    ok (c ++ (i ++ m))

  -- `CGroup::PressureStall`, on the files cpu.pressure, io.pressure and memory.pressure.
  unfoldable pub cgroup_pressure_stall : Lines → Lines → Lines → Outcome (List (Metric D))
  unfolding stall_metrics
  cgroup_pressure_stall cpu io memory = do
    c ← stall_metrics true (codes "cpu") cpu
    i ← stall_metrics true (codes "io") io
    m ← stall_metrics true (codes "memory") memory
    ok (c ++ (i ++ m))
