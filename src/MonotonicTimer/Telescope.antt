-- ===== src/MonotonicTimer/Telescope.antt =====
-- The count that a timer adds over a run of readings.
use atlas_system_agent.Base.{◌≡◌, ◌∙◌, String, true, List, [], ◌∷◌, none, some, arith}
use atlas_system_agent.Base.Int.{ℤ, pos, ◌+ℤ◌, ◌-ℤ◌, ◌≤ℤ◌, int_laws}
use atlas_system_agent.Metrics.{Double, Tags}
use atlas_system_agent.MonotonicTimer.{Durations, MonotonicTimer, increments, update}

regroup : (a c x : ℤ) → a +ℤ (c -ℤ a +ℤ x) ≡ c +ℤ x
regroup a c x = omega int_laws

module _ {D : Type 0} ⦃fp : Double D⦄ (ds : Durations D) (name : String) (tags : Tags) where
  open ds use {Duration, minus, to_double_seconds}

  -- The counts that `update` adds along a list of readings.
  pub counted : MonotonicTimer Duration → List (Duration × ℤ) → ℤ
  counted t [] = pos 0
  counted t ((time, count) ∷ rs) =
      let rest = counted (update ds name tags t time count).0 rs in
      elim (increments ds t time count) [ none ↦ rest | some (_, delta) ↦ delta +ℤ rest ]

  pub last_count : ℤ → List (Duration × ℤ) → ℤ
  last_count c [] = c
  last_count c ((_, count) ∷ rs) = last_count count rs

  -- Readings whose counts never fall and whose elapsed times are not negative.
  abbrev pub Rises : Duration → ℤ → List (Duration × ℤ) → Type 0
  Rises t c [] = Unit
  Rises t c ((time, count) ∷ rs) =
      (c ≤ℤ count)
      × (fp.le (fp.of_ℤ (pos 0)) (to_double_seconds (minus time t)) ≡ true)
      × Rises time count rs

  step_count :
      (t : MonotonicTimer Duration) (time : Duration) (count rest : ℤ)
      → pos 1 ≤ℤ t.prev_count
      → t.prev_count ≤ℤ count
      → fp.le (fp.of_ℤ (pos 0)) (to_double_seconds (minus time t.prev_time)) ≡ true
      → (elim (increments ds t time count) [ none ↦ rest | some (_, delta) ↦ delta +ℤ rest ])
        ≡ (count -ℤ t.prev_count) +ℤ rest
  unfolding increments ◌-ℤ◌ ◌+ℤ◌
  step_count t time count rest p r e = ground arith

  -- From a positive first count, the added counts sum to the last reading less the first.
  pub counted_telescopes :
      (t : MonotonicTimer Duration) (rs : List (Duration × ℤ))
      → pos 1 ≤ℤ t.prev_count
      → Rises t.prev_time t.prev_count rs
      → t.prev_count +ℤ counted t rs ≡ last_count t.prev_count rs
  unfolding counted last_count update
  counted_telescopes t [] p r = omega int_laws
  counted_telescopes t ((time, count) ∷ rs) p (up, later, r) =
      let next : MonotonicTimer Duration = record { prev_time = time; prev_count = count } in
      let ih : count +ℤ counted next rs ≡ last_count count rs =
        counted_telescopes next rs (omega arith) r in
      rw (step_count t time count (counted next rs) p up later)
        (regroup t.prev_count count (counted next rs) ∙ ih)
