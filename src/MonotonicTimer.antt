-- ===== src/MonotonicTimer.antt =====
-- lib/monotonic_timer/src/monotonic_timer.cpp: the class and its `update`. `absl::Duration` is a
-- parameter. The counts are `int64_t` values that stay inside that type.
pub mod Telescope
use atlas_system_agent.Base.{
  ℕ, Bool, true, false, List, [], ◌∷◌, Option, none, some, if◌then◌else◌, String, codes,
}
use atlas_system_agent.Base.Int.{ℤ, pos, ◌-ℤ◌, ltb_ℤ}
use atlas_system_agent.Metrics.{Double, Metric, metric, counter, Tags}

-- What the timer uses of `absl::Duration`.
pub record Durations (D : Type 0) : Type 1 where
  pub Duration : Type 0
  pub minus : Duration → Duration → Duration
  pub to_double_seconds : Duration → D

pub record MonotonicTimer (T : Type 0) : Type 0 where
  pub prev_time : T
  pub prev_count : ℤ

module _ {D : Type 0} ⦃fp : Double D⦄ (ds : Durations D) where
  open ds use {Duration, minus, to_double_seconds}

  -- The seconds and the count that one `update` adds to the two counters, if it adds any.
  unfoldable pub increments : MonotonicTimer Duration → Duration → ℤ → Option (D × ℤ)
  increments t monotonic_time monotonic_count =
      if ltb_ℤ (pos 0) t.prev_count
      then (let delta_count = monotonic_count -ℤ t.prev_count in
          if ltb_ℤ (pos 0) delta_count
          then (let seconds = to_double_seconds (minus monotonic_time t.prev_time) in
              if fp.le (fp.of_ℤ (pos 0)) seconds then some (seconds, delta_count) else none)
          else none)
      else none

  -- `update`: the new state, and the `Increment` calls on the counters "totalTime" and "count".
  unfoldable pub update :
      String
      → Tags
      → MonotonicTimer Duration
      → Duration
      → ℤ
      → MonotonicTimer Duration × List (Metric D)
  unfolding increments
  update name tags t monotonic_time monotonic_count = (
    record { prev_time = monotonic_time; prev_count = monotonic_count },
    elim (increments t monotonic_time monotonic_count) [
      | none ↦ []
      | some (seconds, delta_count) ↦
          metric counter name (("statistic", codes "totalTime") ∷ tags) seconds
          ∷ metric counter name (("statistic", codes "count") ∷ tags) (fp.of_ℤ delta_count)
          ∷ []
    ],
  )
