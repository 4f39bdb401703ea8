-- ===== src/CpuRateTracker.antt =====
-- lib/collectors/service_monitor/src/cpu_rate_tracker.h: the class template and its `update`.
-- A `steady_clock::time_point` is its count of nanoseconds.
pub mod Pairs
use atlas_system_agent.Base.{
  ℕ, ◌-◌, Bool, true, false, ◌&&◌, Option, none, some, leb, if◌then◌else◌, Eq, ◌==◌,
}
use atlas_system_agent.Base.Int.{ℤ, pos, ◌-ℤ◌, ltb_ℤ, div_trunc}
use atlas_system_agent.Metrics.{Double, of_ℕ}

pub record CpuRateTracker (I : Type 0) : Type 0 where
  pub id : I
  pub counter_us : ℕ
  pub at : ℤ
  pub is_valid : Bool

-- The member initialisers; `id` is `Identity{}`.
abbrev pub fresh : {I : Type 0} → I → CpuRateTracker I
fresh id = record { id = id; counter_us = 0; at = pos 0; is_valid = false }

-- `duration_cast<microseconds>(now - then).count()`
unfoldable pub wall_us : ℤ → ℤ → ℤ
wall_us now then_at = div_trunc (now -ℤ then_at) 1000

module _ {I D : Type 0} ⦃e : Eq I⦄ ⦃fp : Double D⦄ where
  unfoldable pub percentage : CpuRateTracker I → I → ℕ → ℤ → Option D
  percentage t id counter_us now =
      if t.is_valid && (id == t.id && leb t.counter_us counter_us)
      then (let wall = wall_us now t.at in
          if ltb_ℤ (pos 0) wall
          then some (fp.div (fp.mul (of_ℕ 100) (of_ℕ (counter_us - t.counter_us))) (fp.of_ℤ wall))
          else none)
      else none

  unfoldable pub update : CpuRateTracker I → I → ℕ → ℤ → CpuRateTracker I × Option D
  unfolding percentage
  update t id counter_us now =
      let pct = percentage t id counter_us now in
      (record { id = id; counter_us = counter_us; at = now; is_valid = true }, pct)
