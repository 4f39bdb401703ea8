-- ===== src/Cgroup/IoMetrics/Deltas.antt =====
-- The readings that `UpdateIOMetrics` compares, and that it never throws on parsed ones.
use atlas_system_agent.Base.{
  ◌≡◌, refl, ap, ◌∙◌, subst, Bool, true, false, Option, none, some, List, [], ◌∷◌, Text,
  if◌then◌else◌, ◌==◌, text_eq, arith, Bool-cases, inl, inr, eqb, ltb, length,
}
use atlas_system_agent.Base.Dict.{find, assign, emplace, find-assign}
use atlas_system_agent.Base.Outcome.{Outcome, ok, err}
use atlas_system_agent.Metrics.{Double}
use atlas_system_agent.Cgroup.Fields.{ParseDouble}
use atlas_system_agent.Cgroup.IoStat.{
  IoStats, is_complete, parse_io_line, collect_io_lines, parse_io_lines,
}
use atlas_system_agent.Cgroup.IoMax.{IoThrottle, is_valid_throttle}
use atlas_system_agent.Cgroup.IoMetrics.{device_metrics, update_io_metrics}

-- Every value of a map passes a test.
abbrev pub Values : {V : Type 0} → (V → Bool) → List (Text × V) → Type 0
Values p [] = Unit
Values p ((_, v) ∷ m) = (p v ≡ true) × Values p m

-- The last reading of device `t` among the given ones, or else the old one.
abbrev pub newest :
    {D : Type 0} → Text → List (Text × IoStats D) → Option (IoStats D) → Option (IoStats D)
newest t [] old = old
newest t ((key, current) ∷ stats) old = newest t stats (if key == t then some current else old)

module _ {V : Type 0} (p : V → Bool) where
  Values-find :
      (k : Text) (m : List (Text × V)) {v : V} → Values p m → find k m ≡ some v → p v ≡ true
  unfolding find
  Values-find k [] h e = cc
  Values-find k ((j, w) ∷ m) h e = elim (Bool-cases (j == k)) [
    | inl same ↦ ground arith
    | inr other ↦ Values-find k m h.1 (ground arith)
  ]

  Values-assign :
      (k : Text) (v : V) (m : List (Text × V)) → p v ≡ true → Values p m → Values p (assign k v m)
  unfolding assign
  Values-assign k v [] pv h = (pv, tt)
  Values-assign k v ((j, w) ∷ m) pv h = elim (Bool-cases (j == k)) [
    | inl same ↦ rw same (pv, h.1)
    | inr other ↦ rw other (h.0, Values-assign k v m pv h.1)
  ]

  pub Values-emplace :
      (k : Text) (v : V) (m : List (Text × V)) → p v ≡ true → Values p m → Values p (emplace k v m)
  unfolding emplace
  Values-emplace k v [] pv h = (pv, tt)
  Values-emplace k v ((j, w) ∷ m) pv h = elim (Bool-cases (j == k)) [
    | inl same ↦ rw same h
    | inr other ↦ rw other (h.0, Values-emplace k v m pv h.1)
  ]

module _ {D : Type 0} ⦃fp : Double D⦄ where
  device_metrics_returns :
      (t : Option (IoThrottle D)) (prev : Option (IoStats D)) (current : IoStats D)
      → ((x : IoThrottle D) → t ≡ some x → is_valid_throttle x ≡ true)
      → ((x : IoStats D) → prev ≡ some x → is_complete x ≡ true)
      → is_complete current ≡ true
      → (device_metrics t prev current).1 ≡ ok tt
  unfolding device_metrics is_complete is_valid_throttle
  device_metrics_returns none none current ht hp hc = ground arith
  device_metrics_returns none (some prev) current ht hp hc = let p = hp prev refl in ground arith
  device_metrics_returns (some t) none current ht hp hc = ground arith
  device_metrics_returns (some t) (some prev) current ht hp hc =
      let p = hp prev refl in let q = ht t refl in ground arith

  -- With complete readings and valid throttles `UpdateIOMetrics` does not throw. Afterwards the map
  -- holds, for each device, the reading that it was given, or else the one it had; its readings are
  -- complete again.
  pub update_io_metrics_returns :
      (stats : List (Text × IoStats D)) (throttles : List (Text × IoThrottle D))
      (previous : List (Text × IoStats D))
      → Values is_complete stats
      → Values is_valid_throttle throttles
      → Values is_complete previous
      → ((update_io_metrics stats throttles previous).1.1 ≡ ok tt)
        × Values is_complete (update_io_metrics stats throttles previous).0
        × ((t : Text)
            → find t (update_io_metrics stats throttles previous).0
              ≡ newest t stats (find t previous))
  unfolding update_io_metrics
  update_io_metrics_returns [] throttles previous hs ht hp = (refl, hp, λ t. refl)
  update_io_metrics_returns ((key, current) ∷ stats) throttles previous hs ht hp =
      let returns =
        device_metrics_returns (find key throttles) (find key previous) current
          (λ x e. Values-find is_valid_throttle key throttles ht e)
          (λ x e. Values-find is_complete key previous hp e) hs.0 in
      let (later, kept, found) =
        update_io_metrics_returns stats throttles (assign key current previous) hs.1 ht
          (Values-assign is_complete key current previous hs.0 hp) in
      rw (returns, update_io_metrics)
        (later, kept, λ t. found t ∙ ap (newest t stats) (find-assign key t current previous))

module _ {D : Type 0} ⦃fp : Double D⦄ (parse_double : ParseDouble D) where
  parse_io_line_complete :
      (dev_map : List (Text × Text)) (fields : List Text) {s : IoStats D}
      → parse_io_line parse_double dev_map fields ≡ ok (some s)
      → is_complete s ≡ true
  unfolding parse_io_line
  parse_io_line_complete dev_map [] e = cc
  parse_io_line_complete dev_map (key ∷ fields) e = ground arith

  collect_io_lines_complete :
      (dev_map : List (Text × Text)) (lines : List (List Text)) (acc : List (Text × IoStats D))
      {m : List (Text × IoStats D)}
      → Values is_complete acc
      → collect_io_lines parse_double dev_map lines acc ≡ ok (some m)
      → Values is_complete m
  unfolding collect_io_lines
  collect_io_lines_complete dev_map [] acc h e = subst (Values is_complete) (ground arith) h
  collect_io_lines_complete dev_map (fields ∷ lines) acc {m = m} h e =
      at_line (λ acc' h' e'. collect_io_lines_complete dev_map lines acc' {m = m} h' e')
    where
      Rest : Type 0
      Rest =
          (acc' : List (Text × IoStats D))
          → Values is_complete acc'
          → collect_io_lines parse_double dev_map lines acc' ≡ ok (some m)
          → Values is_complete m

      with_result :
          (r : Outcome (Option (IoStats D)))
          → parse_io_line parse_double dev_map fields ≡ r
          → eqb (length fields) 1 ≡ false
          → ltb (length fields) 7 ≡ false
          → Rest
          → Values is_complete m
      with_result (err x) eq single short ih = absurd (ground arith)
      with_result (ok none) eq single short ih = absurd (ground arith)
      with_result (ok (some s)) eq single short ih =
          ih (emplace s.major_minor s acc)
            (Values-emplace is_complete s.major_minor s acc
              (parse_io_line_complete dev_map fields eq) h)
            (ground arith)

      at_line : Rest → Values is_complete m
      at_line ih = elim (Bool-cases (eqb (length fields) 1)) [
        | inl single ↦ ih acc h (ground arith)
        | inr several ↦ elim (Bool-cases (ltb (length fields) 7)) [
          | inl short ↦ absurd (ground arith)
          | inr long ↦ with_result (parse_io_line parse_double dev_map fields) refl several long ih
        ]
      ]

  -- Every reading that `ParseIOLines` returns has all six statistics.
  pub parse_io_lines_complete :
      (dev_map : List (Text × Text)) (lines : List (List Text)) {m : List (Text × IoStats D)}
      → parse_io_lines parse_double dev_map lines ≡ ok m
      → Values is_complete m
  unfolding parse_io_lines
  parse_io_lines_complete dev_map lines {m = m} e =
      of_result (collect_io_lines parse_double dev_map lines []) refl
    where
      of_result :
          (r : Outcome (Option (List (Text × IoStats D))))
          → collect_io_lines parse_double dev_map lines [] ≡ r
          → Values is_complete m
      of_result (err x) eq = absurd (ground arith)
      of_result (ok none) eq =
          let same : [] ≡ m = ground arith in subst (Values is_complete) same tt
      of_result (ok (some n)) eq =
          let same : n ≡ m = ground arith in
          subst (Values is_complete) same (collect_io_lines_complete dev_map lines [] tt eq)
