-- ===== src/CpuRateTracker/Pairs.antt =====
-- A tracker remembers one sample: over any run of `update` the percentages are those of the pairs of
-- neighbouring samples.
use atlas_system_agent.Base.{
  ℕ, ◌-◌, ◌<◌, ◌≤◌, ◌≡◌, refl, sym, leb, leb→le, inl, inr, true, false, Option, none, some, List,
  [], ◌∷◌, arith, Eq, ◌==◌, ◌≢◌, Bool-cases,
}
use atlas_system_agent.Base.Int.{ℤ, pos, ltb_ℤ}
use atlas_system_agent.Metrics.{Double, of_ℕ}
use atlas_system_agent.CpuRateTracker.{CpuRateTracker, fresh, wall_us, percentage, update}

-- One successful read of the counter.
pub record Sample (I : Type 0) : Type 0 where
  pub id : I
  pub counter_us : ℕ
  pub now : ℤ

abbrev pub holding : {I : Type 0} → Sample I → CpuRateTracker I
holding s = record { id = s.id; counter_us = s.counter_us; at = s.now; is_valid = true }

module _ {I D : Type 0} ⦃e : Eq I⦄ ⦃fp : Double D⦄ where
  -- The rate over the interval between two samples, and when there is one.
  pub data Closes (s t : Sample I) : Option D → Type 0 where
    rate :
        s.id ≡ t.id
        → s.counter_us ≤ t.counter_us
        → ltb_ℤ (pos 0) (wall_us t.now s.now) ≡ true
        → Closes s t (
            some (
              fp.div
                (fp.mul (of_ℕ 100) (of_ℕ (t.counter_us - s.counter_us)))
                (fp.of_ℤ (wall_us t.now s.now))))
    restarted : s.id ≢ t.id → Closes s t none
    went_back : t.counter_us < s.counter_us → Closes s t none
    no_time : ltb_ℤ (pos 0) (wall_us t.now s.now) ≡ false → Closes s t none

  pub data Chain : Sample I → List (Sample I) → List (Option D) → Type 0 where
    stop : {s : Sample I} → Chain s [] []
    more :
        {s t : Sample I} {ts : List (Sample I)} {p : Option D} {ps : List (Option D)}
        → Closes s t p
        → Chain t ts ps
        → Chain s (t ∷ ts) (p ∷ ps)

  -- One `update` for each sample, with the percentages that they return.
  unfoldable pub run : CpuRateTracker I → List (Sample I) → List (Option D)
  run t [] = []
  run t (s ∷ ss) = let r = update t s.id s.counter_us s.now in r.1 ∷ run r.0 ss

  percentage-Closes : (s t : Sample I) → Closes s t (percentage (holding s) t.id t.counter_us t.now)
  unfolding percentage
  percentage-Closes s t = elim (Bool-cases (t.id == s.id)) [
    | inr other ↦ rw other (restarted (λ p. cc (other, (e.beq_iff t.id s.id).1 (sym p))))
    | inl same ↦ elim (Bool-cases (leb s.counter_us t.counter_us)) [
      | inr less ↦ rw (same, less) (went_back (ground arith))
      | inl risen ↦ elim (Bool-cases (ltb_ℤ (pos 0) (wall_us t.now s.now))) [
        | inr none_passed ↦ rw (same, risen, none_passed) (no_time none_passed)
        | inl passed ↦
            rw (same, risen, passed)
              (rate (sym ((e.beq_iff t.id s.id).0 same)) (leb→le _ _ risen) passed)
      ]
    ]
  ]

  run-Chain : (s : Sample I) (ts : List (Sample I)) → Chain s ts (run (holding s) ts)
  unfolding run update
  run-Chain s [] = stop
  run-Chain s (t ∷ ts) = more (percentage-Closes s t) (run-Chain t ts)

  -- Over any run from the initial state the first sample reports nothing, and each later one reports
  -- exactly the rate of the interval from the sample before it, whatever came earlier.
  pub run-fresh-Chain :
      (id : I) (s : Sample I) (ts : List (Sample I))
      → (ps : List (Option D)) × (run (fresh id) (s ∷ ts) ≡ none ∷ ps) × Chain s ts ps
  unfolding run update percentage
  run-fresh-Chain id s ts = (run (holding s) ts, refl, run-Chain s ts)
