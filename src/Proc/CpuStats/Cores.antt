-- ===== src/Proc/CpuStats/Cores.antt =====
-- What `UpdateCoreUtilization` keeps of each core, and the maximum that it publishes.
use atlas_system_agent.Base.{
  ◌≡◌, ◌∙◌, ◌⊎◌, codes, refl, true, false, Option, some, List, [], ◌∷◌, Text, arith, inl, inr,
  Bool-cases, ◌==◌, if◌then◌else◌, text_eq,
}
use atlas_system_agent.Base.Dict.{find, find-assign, find-emplace}
use atlas_system_agent.Base.Outcome.{Outcome, ok, err}
use atlas_system_agent.Metrics.{Double, of_ℕ, max_gauge}
use atlas_system_agent.Proc.CpuFields.{CpuStatFields, parse_fields}
use atlas_system_agent.Proc.CpuStats.{
  CoreState, Ran, core_usage, core_line, core_lines, max_usage, publish_max, statistic,
}

-- The last reading of core `t` in the lines, or else the one before them.
abbrev pub last_reading : Text → List (List Text) → Option CpuStatFields → Option CpuStatFields
last_reading t [] old = old
last_reading t ([] ∷ lines) old = last_reading t lines old
last_reading t ((key ∷ fs) ∷ lines) old = last_reading t lines (
    if key == t
    then elim (parse_fields (key ∷ fs)) [ ok current ↦ some current | err _ ↦ old ]
    else old)

module _ {D : Type 0} ⦃fp : Double D⦄ where
  core_line_reading :
      (s : CoreState D) (key : Text) (fs : List Text) (t : Text)
      → (core_line s (key ∷ fs)).outcome ≡ ok tt
      → find t (core_line s (key ∷ fs)).state.previous_cpu_stats
        ≡ last_reading t ((key ∷ fs) ∷ []) (find t s.previous_cpu_stats)
  unfolding core_line core_usage
  core_line_reading s key fs t done = read (parse_fields (key ∷ fs)) refl
    where
      read :
          (p : Outcome CpuStatFields)
          → parse_fields (key ∷ fs) ≡ p
          → find t (core_line s (key ∷ fs)).state.previous_cpu_stats
            ≡ last_reading t ((key ∷ fs) ∷ []) (find t s.previous_cpu_stats)
      read (err e) eq = ground arith
      read (ok current) eq = ground (
        arith,
        text_eq.beq_iff key t,
        find-assign key t current s.previous_cpu_stats,
        find-emplace key t current s.previous_cpu_stats,
      )

  -- If no line throws, the state holds for every core the last reading of it, old or new: no reading
  -- is lost, and a core that the file no longer lists keeps its reading.
  pub core_lines_reading :
      (s : CoreState D) (lines : List (List Text)) (t : Text)
      → (core_lines s lines).outcome ≡ ok tt
      → find t (core_lines s lines).state.previous_cpu_stats
        ≡ last_reading t lines (find t s.previous_cpu_stats)
  unfolding core_lines
  core_lines_reading s [] t done = refl
  core_lines_reading s ([] ∷ lines) t done = unfold core_line in cc
  core_lines_reading s ((key ∷ fs) ∷ lines) t done =
      let one = core_line s (key ∷ fs) in
      let first = core_line_reading s key fs t in
      let later = core_lines_reading one.state lines t in ground arith

-- Comparisons of `double`: what compares as greater is a number, and at a number `<` is total.
pub record IsOrdered (D : Type 0) ⦃fp : Double D⦄ : Type 1 where
  pub IsNumber : D → Type 0
  pub whole_number : IsNumber (of_ℕ 0)
  pub greater_number : (a b : D) → fp.lt a b ≡ true → IsNumber b
  pub lt_irrefl : (a : D) → fp.lt a a ≡ false
  pub not_lt_trans :
      (a b c : D) → IsNumber b → fp.lt a b ≡ false → fp.lt b c ≡ false → fp.lt a c ≡ false
  pub lt_asym : (a b : D) → fp.lt a b ≡ true → fp.lt b a ≡ false

module _ {D : Type 0} ⦃fp : Double D⦄ (laws : IsOrdered D) where
  open laws use {IsNumber, whole_number, greater_number, lt_irrefl, not_lt_trans, lt_asym}

  abbrev pub NotBelow : D → List (Text × D) → Type 0
  NotBelow top [] = Unit
  NotBelow top ((_, u) ∷ us) = (fp.lt top u ≡ false) × NotBelow top us

  -- Is it the usage of one of the cores?
  abbrev pub IsUsage : D → List (Text × D) → Type 0
  IsUsage top [] = ⊥
  IsUsage top ((_, u) ∷ us) = (top ≡ u) ⊎ IsUsage top us

  max_usage_step :
      (best : D) (k : Text) (u : D) (us : List (Text × D))
      → max_usage best ((k, u) ∷ us) ≡ max_usage (if fp.lt best u then u else best) us
  unfolding max_usage
  max_usage_step best k u us = refl

  max_usage_end : (best : D) → max_usage best [] ≡ best
  unfolding max_usage
  max_usage_end best = refl

  max_usage_bound :
      (best : D) (us : List (Text × D)) (top : D)
      → top ≡ max_usage best us
      → IsNumber best
      → (fp.lt top best ≡ false) × NotBelow top us
  max_usage_bound best [] top e n = (rw (e, max_usage_end) (lt_irrefl best), tt)
  max_usage_bound best ((k, u) ∷ us) top e n = elim (Bool-cases (fp.lt best u)) [
    | inl more ↦
        let num = greater_number best u more in
        let e' : top ≡ max_usage u us = e ∙ rw (max_usage_step, more) refl in
        let (up, rest) = max_usage_bound u us top e' num in
        (not_lt_trans _ u best num up (lt_asym best u more), (up, rest))
    | inr less ↦
        let e' : top ≡ max_usage best us = e ∙ rw (max_usage_step, less) refl in
        let (up, rest) = max_usage_bound best us top e' n in
        (up, (not_lt_trans _ best u n up less, rest))
  ]

  max_usage_is :
      (best : D) (us : List (Text × D)) (top : D)
      → top ≡ max_usage best us
      → (top ≡ best) ⊎ IsUsage top us
  max_usage_is best [] top e = inl (e ∙ max_usage_end best)
  max_usage_is best ((k, u) ∷ us) top e = elim (Bool-cases (fp.lt best u)) [
    | inl more ↦ inr (max_usage_is u us top (e ∙ rw (max_usage_step, more) refl))
    | inr less ↦ elim (max_usage_is best us top (e ∙ rw (max_usage_step, less) refl)) [
      | inl start ↦ inl start
      | inr of_core ↦ inr (inr of_core)
    ]
  ]

  -- What the publication does with the usages of the cores: without any it does nothing; else it
  -- publishes one gauge, a twelfth of the greatest of them and 0, forgets them and keeps the readings.
  abbrev pub Published : List (Text × D) → CoreState D → Ran (CoreState D) D → Type 0
  Published [] s r = r ≡ record { state = s; metrics = []; outcome = ok tt }
  Published (u ∷ us) s r =
      (top : D) × (fp.lt top (of_ℕ 0) ≡ false)
      × NotBelow top (u ∷ us)
      × ((top ≡ of_ℕ 0) ⊎ IsUsage top (u ∷ us))
      × (r ≡ record {
        state = record s { previous_core_usages = [] };
        metrics = statistic max_gauge (codes "max") (fp.div top (of_ℕ 12)) ∷ [];
        outcome = ok tt;
      })

  -- By the order laws of `double`: where any core has a usage, the publication sets one gauge to a
  -- twelfth of a number that is 0 or the usage of a core, and that is not below 0 nor below the usage of
  -- any core, also if a usage is no number; then the usages are forgotten and the previous readings
  -- stay. Without any usage nothing is published and nothing changes.
  pub publish_max-Published : (s : CoreState D) → Published s.previous_core_usages s (publish_max s)
  unfolding publish_max
  publish_max-Published s = of_usages s.previous_core_usages refl
    where
      of_usages :
          (us : List (Text × D)) → s.previous_core_usages ≡ us → Published us s (publish_max s)
      of_usages [] e = simp (publish_max, e)
      of_usages (u ∷ us) e =
          let (not_negative, above) =
            max_usage_bound (of_ℕ 0) (u ∷ us) (max_usage (of_ℕ 0) (u ∷ us)) refl whole_number in
          (
            max_usage (of_ℕ 0) (u ∷ us),
            not_negative,
            above,
            max_usage_is (of_ℕ 0) (u ∷ us) _ refl,
            simp (publish_max, e),
          )
