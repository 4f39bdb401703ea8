-- ===== src/Cgroup/IoMax/Exact.antt =====
-- A parsed line of io.max holds exactly the limits that the line gives.
use atlas_system_agent.Base.{
  ◌≡◌, refl, sym, ◌∙◌, ap, true, Option, none, some, List, [], ◌∷◌, ◌++◌, append_assoc, append-nil,
  Text, codes, if◌then◌else◌, ◌==◌, text_eq, arith,
}
use atlas_system_agent.Base.Int.{negsuc}
use atlas_system_agent.Base.Outcome.{Outcome, ok, err, ◌>>=◌, bind-eq-ok}
use atlas_system_agent.Metrics.{Double}
use atlas_system_agent.Cgroup.Fields.{split_equals, ParseDouble, to_list}
use atlas_system_agent.Cgroup.IoMax.{
  IoThrottle, set_limit, is_valid_throttle, limit_value, parse_limit, parse_limits, no_limits,
  parse_io_throttle_line,
}
use atlas_system_agent.Cgroup.IoMax.Keys.{Limit, rbps, key_of, limit_of, set_limit-to_list}

module _ {D : Type 0} ⦃fp : Double D⦄ (parse_double : ParseDouble D) where
  -- The limits that the fields give to a key, in order; "max" gives -1.
  abbrev pub given : Limit → Text → List D
  given k field = elim (split_equals field) [
    | none ↦ []
    | some (key, text) ↦
        if key == key_of k
        then (if text == codes "max" then fp.of_ℤ (negsuc 0) ∷ [] else to_list (parse_double text))
        else []
  ]

  abbrev pub all_given : Limit → List Text → List D
  all_given k [] = []
  all_given k (field ∷ fields) = given k field ++ all_given k fields

  limit_value-given :
      (k : Limit) (key text : Text) (v : D)
      → limit_value parse_double text ≡ ok v
      → (if key == key_of k then v ∷ [] else []) ≡ (
          if key == key_of k
          then (if text == codes "max"
              then fp.of_ℤ (negsuc 0) ∷ []
              else to_list (parse_double text))
          else [])
  limit_value-given k key text v e = ground arith

  parse_limit-given :
      (s : IoThrottle D) (field : Text) {t : IoThrottle D} (k : Limit)
      → parse_limit parse_double s field ≡ ok t
      → to_list (limit_of k t) ≡ to_list (limit_of k s) ++ given k field
  unfolding parse_limit
  parse_limit-given s field {t} k e = split_on (split_equals field) refl
    where
      split_on :
          (p : Option (Text × Text))
          → split_equals field ≡ p
          → to_list (limit_of k t) ≡ to_list (limit_of k s) ++ given k field
      split_on none eq = ground arith
      split_on (some (key, text)) eq =
          let bound : (limit_value parse_double text >>= set_limit s key) ≡ ok t = ground arith in
          let (v, read, done) =
            bind-eq-ok (limit_value parse_double text) (set_limit s key) bound in
          set_limit-to_list s key v k done
          ∙ ap (◌++◌ (to_list (limit_of k s)))
              (limit_value-given k key text v read ∙ rw (eq, given) refl)

  parse_limits-given :
      (s : IoThrottle D) (fields : List Text) {t : IoThrottle D} (k : Limit)
      → parse_limits parse_double s fields ≡ ok t
      → to_list (limit_of k t) ≡ to_list (limit_of k s) ++ all_given k fields
  unfolding parse_limits
  parse_limits-given s [] k e = ground (arith, append-nil (to_list (limit_of k s)))
  parse_limits-given s (field ∷ fields) k e =
      let (u, one, rest) =
        bind-eq-ok (parse_limit parse_double s field) (λ t. parse_limits parse_double t fields) e in
      parse_limits-given u fields k rest
      ∙ ap (λ l. l ++ all_given k fields) (parse_limit-given s field k one)
      ∙ append_assoc (to_list (limit_of k s)) (given k field) (all_given k fields)

valid_some :
    {D : Type 0} (s : IoThrottle D) (k : Limit)
    → is_valid_throttle s ≡ true
    → (v : D) × (limit_of k s ≡ some v)
unfolding is_valid_throttle
valid_some s rbps e = ground arith
valid_some s _ e = ground arith

no_limits_empty :
    {D : Type 0} (device : Text) (k : Limit) → to_list {A = D} (limit_of k (no_limits device)) ≡ []
no_limits_empty device rbps = refl
no_limits_empty device _ = refl

-- A line of io.max is accepted only if it gives each of the four limits exactly once, in whatever
-- order, and the result holds these limits, with -1 for "max".
pub parse_io_throttle_line_exact :
    {D : Type 0} ⦃fp : Double D⦄ (parse_double : ParseDouble D) (device : Text) (fields : List Text)
    {s : IoThrottle D} (k : Limit)
    → parse_io_throttle_line parse_double (device ∷ fields) ≡ ok (some s)
    → (v : D) × (limit_of k s ≡ some v) × (all_given parse_double k fields ≡ v ∷ [])
unfolding parse_io_throttle_line
parse_io_throttle_line_exact {D} parse_double device fields {s} k e =
    read (parse_limits parse_double (no_limits device) fields) refl
  where
    read :
        (r : Outcome (IoThrottle D))
        → parse_limits parse_double (no_limits device) fields ≡ r
        → (v : D) × (limit_of k s ≡ some v) × (all_given parse_double k fields ≡ v ∷ [])
    read (err x) eq = absurd (ground arith)
    read (ok t) eq =
        let same : t ≡ s = ground arith in
        let complete : is_valid_throttle s ≡ true = ground arith in
        let (v, held) = valid_some s k complete in
        let listed = parse_limits-given parse_double (no_limits device) fields k eq in
        (
          v,
          held,
          sym (listed ∙ ap (λ l. l ++ all_given parse_double k fields) (no_limits_empty device k))
              ∙ ap (λ x. to_list (limit_of k x)) same
              ∙ ap to_list held,
        )
