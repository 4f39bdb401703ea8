-- ===== src/Tests/Services.antt =====
-- Inputs for the service monitor, its CPU tracker and the monotonic timer.
use atlas_system_agent.Base.{ℕ, ◌≡◌, refl, Option, none, some, List, [], ◌∷◌, nat_eq}
use atlas_system_agent.Base.Int.{ℤ, pos, ◌-ℤ◌, ◌*ℤ◌, div_trunc}
use atlas_system_agent.Metrics.{whole}
use atlas_system_agent.CpuRateTracker.{fresh, update, wall_us}
use atlas_system_agent.CpuRateTracker.Pairs.{Sample, Chain, run, run-fresh-Chain}
use atlas_system_agent.MonotonicTimer.{Durations, MonotonicTimer}

abbrev at_ns : ℕ → ℕ → ℕ → Sample ℕ
at_ns id us ns = record { id = id; counter_us = us; now = pos ns }

-- The first sample, an interval of 50%, a restart, and a sample with no elapsed time.
tracker_run :
    run {D = ℤ}
      (fresh 0)
      (at_ns 7 100 0 ∷ at_ns 7 600 1_000_000 ∷ at_ns 8 50 2_000_000 ∷ at_ns 8 70 2_000_000 ∷ [])
    ≡ none ∷ some (pos 50) ∷ none ∷ none ∷ []
unfolding run update wall_us ◌-ℤ◌ ◌*ℤ◌ div_trunc
tracker_run = refl

run-fresh-Chain_example :
    (ps : List (Option ℤ)) × (run (fresh 0) (at_ns 7 100 0 ∷ at_ns 7 600 1_000_000 ∷ [])
      ≡ none ∷ ps)
    × Chain (at_ns 7 100 0) (at_ns 7 600 1_000_000 ∷ []) ps
run-fresh-Chain_example = run-fresh-Chain 0 (at_ns 7 100 0) (at_ns 7 600 1_000_000 ∷ [])

-- Durations as whole seconds.
abbrev seconds : Durations ℤ
seconds = record { Duration = ℤ; minus = ◌-ℤ◌; to_double_seconds = λ d. d }

abbrev started : MonotonicTimer ℤ
started = record { prev_time = pos 10; prev_count = pos 4 }
