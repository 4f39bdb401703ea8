-- ===== src/Proc/CpuFields.antt =====
-- lib/collectors/proc/src/proc_cpu.h: the fields of a "cpu" line of /proc/stat and the percentages of
-- an interval. The arithmetic is that of `uint64_t`.
pub mod Bounds
use atlas_system_agent.Base.{
  ℕ, ◌+◌, ◌-◌, ◌%◌, Option, none, some, List, [], ◌∷◌, Text, codes, String, ltb, if◌then◌else◌,
}
use atlas_system_agent.Base.Int.{pos}
use atlas_system_agent.Base.Numbers.{u64, from_chars_u64}
use atlas_system_agent.Base.Outcome.{Outcome, ok, err, thrown, undefined, ◌>>=◌}
use atlas_system_agent.Metrics.{Double, of_ℕ, Kind, Metric, metric}

pub record CpuStatFields : Type 0 where
  pub user : ℕ
  pub nice : ℕ
  pub system : ℕ
  pub idle : ℕ
  pub iowait : ℕ
  pub irq : ℕ
  pub softirq : ℕ
  pub steal : ℕ
  pub guest : ℕ
  pub guest_nice : ℕ

-- `from_chars` of the first field, and the fields behind it; an index past the end is undefined.
abbrev next_value : List Text → Outcome (ℕ × List Text)
next_value [] = err undefined
next_value (f ∷ fs) = elim (from_chars_u64 f) [ none ↦ err thrown | some n ↦ ok (n, fs) ]

-- The constructor, which reads `fields[1]` to `fields[10]`.
unfoldable pub parse_fields : List Text → Outcome CpuStatFields
parse_fields [] = err undefined
parse_fields (_ ∷ fs) = do
  (user, fs) ← next_value fs
  (nice, fs) ← next_value fs
  (system, fs) ← next_value fs
  (idle, fs) ← next_value fs
  (iowait, fs) ← next_value fs
  (irq, fs) ← next_value fs
  (softirq, fs) ← next_value fs
  (steal, fs) ← next_value fs
  (guest, fs) ← next_value fs
  (guest_nice, _) ← next_value fs
  ok (record {
    user = user;
    nice = nice;
    system = system;
    idle = idle;
    iowait = iowait;
    irq = irq;
    softirq = softirq;
    steal = steal;
    guest = guest;
    guest_nice = guest_nice;
  })

abbrev pub add64 : ℕ → ℕ → ℕ
add64 a b = (a + b) % u64

abbrev pub sub64 : ℕ → ℕ → ℕ
sub64 a b = (a + u64 - b) % u64

-- The differences that `ComputeGaugeValues` takes of two readings.
pub record Deltas : Type 0 where
  pub user : ℕ
  pub system : ℕ
  pub stolen : ℕ
  pub nice : ℕ
  pub idle : ℕ
  pub interrupt : ℕ
  pub wait : ℕ
  pub total : ℕ

unfoldable pub deltas : CpuStatFields → CpuStatFields → Deltas
deltas prev current =
    let user = sub64 current.user prev.user in
    let system = sub64 current.system prev.system in
    let stolen = sub64 current.steal prev.steal in
    let nice = sub64 current.nice prev.nice in
    let idle = sub64 current.idle prev.idle in
    let interrupt = sub64 (add64 current.irq current.softirq) (add64 prev.irq prev.softirq) in
    let wait = if ltb prev.iowait current.iowait then current.iowait - prev.iowait else 0 in
    record {
      user = user;
      system = system;
      stolen = stolen;
      nice = nice;
      idle = idle;
      interrupt = interrupt;
      wait = wait;
      total =
          add64 (add64 (add64 (add64 (add64 (add64 user nice) system) idle) wait) interrupt) stolen;
    }

pub record CpuGaugeValues (D : Type 0) : Type 0 where
  pub user : D
  pub system : D
  pub stolen : D
  pub nice : D
  pub wait : D
  pub interrupt : D

module _ {D : Type 0} ⦃fp : Double D⦄ where
  -- `100.0 * delta / delta_total`
  abbrev pub percent : ℕ → ℕ → D
  percent delta total = fp.div (fp.mul (of_ℕ 100) (of_ℕ delta)) (of_ℕ total)

  abbrev pub gauge_values : Deltas → CpuGaugeValues D
  gauge_values d =
      if ltb 0 d.total
      then record {
        user = percent d.user d.total;
        system = percent d.system d.total;
        stolen = percent d.stolen d.total;
        nice = percent d.nice d.total;
        wait = percent d.wait d.total;
        interrupt = percent d.interrupt d.total;
      }
      else record {
        user = of_ℕ 0;
        system = of_ℕ 0;
        stolen = of_ℕ 0;
        nice = of_ℕ 0;
        wait = of_ℕ 0;
        interrupt = of_ℕ 0;
      }

  unfoldable pub compute_gauge_values : CpuStatFields → CpuStatFields → CpuGaugeValues D
  unfolding deltas
  compute_gauge_values prev current = gauge_values (deltas prev current)

  -- `CpuGaugesTemplate::update`, on gauges or on max gauges.
  unfoldable pub update_gauges : Kind → String → CpuGaugeValues D → List (Metric D)
  update_gauges kind name vals =
      metric kind name (("id", codes "user") ∷ []) vals.user
      ∷ metric kind name (("id", codes "system") ∷ []) vals.system
      ∷ metric kind name (("id", codes "stolen") ∷ []) vals.stolen
      ∷ metric kind name (("id", codes "nice") ∷ []) vals.nice
      ∷ metric kind name (("id", codes "wait") ∷ []) vals.wait
      ∷ metric kind name (("id", codes "interrupt") ∷ []) vals.interrupt
      ∷ []
