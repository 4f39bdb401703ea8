-- ===== src/Cgroup/IoMetrics.antt =====
-- cgroup.cpp: `UpdateIOMetrics`, with its `static` map of the previous readings as a state.
pub mod Deltas
use atlas_system_agent.Base.{
  ℕ, Bool, true, false, ◌&&◌, Option, none, some, List, [], ◌∷◌, ◌++◌, String, Text, codes,
  if◌then◌else◌, text_eq,
}
use atlas_system_agent.Base.Dict.{find, assign}
use atlas_system_agent.Base.Outcome.{Outcome, ok, err, thrown, ◌>>=◌}
use atlas_system_agent.Metrics.{Double, of_ℕ, counter, distribution_summary, Tags, Metric, metric}
use atlas_system_agent.Cgroup.IoStat.{IoStats}
use atlas_system_agent.Cgroup.IoMax.{IoThrottle}

-- Four values by operation: bytes and operations read and written.
pub record IoValues (D : Type 0) : Type 0 where
  pub r_bytes : D
  pub w_bytes : D
  pub r_ios : D
  pub w_ios : D

-- `std::optional::value`
abbrev value : {A : Type 0} → Option A → Outcome A
value none = err thrown
value (some a) = ok a

module _ {D : Type 0} where
  -- The calls of `value()` on a reading and on a throttle.
  unfoldable pub stat_values : IoStats D → Outcome (IoValues D)
  stat_values s = do
    rb ← value s.r_bytes
    ro ← value s.r_operations
    wb ← value s.w_bytes
    wo ← value s.w_operations
    ok (record { r_bytes = rb; w_bytes = wb; r_ios = ro; w_ios = wo })

  unfoldable pub throttle_values : IoThrottle D → Outcome (IoValues D)
  throttle_values t = do
    rb ← value t.r_bps
    wb ← value t.w_bps
    ro ← value t.r_iops
    wo ← value t.w_iops
    ok (record { r_bytes = rb; w_bytes = wb; r_ios = ro; w_ios = wo })

abbrev dev_id : Text → Text → Tags
dev_id device id = ("dev", device) ∷ ("id", id) ∷ []

abbrev dev_count : Text → Text → Tags
dev_count device id = ("dev", device) ∷ ("id", id) ∷ ("statistic", codes "count") ∷ []

-- What a call published and how it ended.
abbrev pub Published : Type 0 → Type 0
Published D = List (Metric D) × Outcome (Unit {0})

module _ {D : Type 0} ⦃fp : Double D⦄ where
  abbrev pub io_deltas : IoValues D → IoValues D → IoValues D
  io_deltas prev current = record {
    r_bytes = fp.sub current.r_bytes prev.r_bytes;
    w_bytes = fp.sub current.w_bytes prev.w_bytes;
    r_ios = fp.sub current.r_ios prev.r_ios;
    w_ios = fp.sub current.w_ios prev.w_ios;
  }

  -- `(delta / (limit * INTERVAL_SECONDS)) * PERCENT_MULTIPLIER`, where the limit is above 0
  unfoldable pub throttle_utilization : Text → D → D → String → Text → List (Metric D)
  throttle_utilization device delta limit name operation =
      if fp.lt (of_ℕ 0) limit
      then metric distribution_summary name (dev_id device operation)
          (fp.mul (fp.div delta (fp.mul limit (of_ℕ 5))) (of_ℕ 100))
        ∷ []
      else []

  abbrev pub io_counters : Text → IoValues D → List (Metric D)
  io_counters device d =
      metric counter "disk.io.bytes" (dev_id device (codes "read")) d.r_bytes
      ∷ metric counter "disk.io.bytes" (dev_id device (codes "write")) d.w_bytes
      ∷ metric counter "disk.io.ops" (dev_count device (codes "read")) d.r_ios
      ∷ metric counter "disk.io.ops" (dev_count device (codes "write")) d.w_ios
      ∷ []

  abbrev pub io_throttles : Text → IoValues D → IoValues D → List (Metric D)
  io_throttles device d t =
      throttle_utilization device d.r_bytes t.r_bytes "cgroup.disk.io.throttleActivityBytes"
        (codes "read")
      ++ (throttle_utilization device d.w_bytes t.w_bytes "cgroup.disk.io.throttleActivityBytes"
            (codes "write")
          ++ (throttle_utilization device d.r_ios t.r_ios
                "cgroup.disk.io.throttleActivityOperations" (codes "read")
              ++ throttle_utilization device d.w_ios t.w_ios
                  "cgroup.disk.io.throttleActivityOperations" (codes "write")))

  abbrev with_throttle : Text → IoValues D → Option (IoThrottle D) → Published D
  with_throttle device d none = (io_counters device d, ok tt)
  with_throttle device d (some t) = elim (throttle_values t) [
    | err e ↦ (io_counters device d, err e)
    | ok limits ↦ (io_counters device d ++ io_throttles device d limits, ok tt)
  ]

  -- One round of the loop: nothing is published on a device's first reading.
  unfoldable pub device_metrics :
      Option (IoThrottle D) → Option (IoStats D) → IoStats D → Published D
  unfolding stat_values throttle_values throttle_utilization
  device_metrics throttle previous current = elim (stat_values current) [
    | err e ↦ ([], err e)
    | ok now ↦ elim previous [
      | none ↦ ([], ok tt)
      | some prev ↦ elim (stat_values prev) [
        | err e ↦ ([], err e)
        | ok old ↦ with_throttle current.device_name (io_deltas old now) throttle
      ]
    ]
  ]

  -- The loop over the devices, in the order of the map. An exception leaves it.
  unfoldable pub update_io_metrics :
      List (Text × IoStats D)
      → List (Text × IoThrottle D)
      → List (Text × IoStats D)
      → List (Text × IoStats D) × Published D
  update_io_metrics [] throttles previous = (previous, ([], ok tt))
  update_io_metrics ((key, current) ∷ stats) throttles previous =
      let own = device_metrics (find key throttles) (find key previous) current in
      let rest = update_io_metrics stats throttles (assign key current previous) in
      elim own.1 [ err e ↦ (previous, own) | ok _ ↦ (rest.0, (own.0 ++ rest.1.0, rest.1.1)) ]
