-- ===== src/Cgroup/IoStat/Exact.antt =====
-- A parsed line of io.stat holds exactly the values that the line gives.
use atlas_system_agent.Base.{
  ◌≡◌, refl, sym, ◌∙◌, ap, true, false, Option, none, some, List, [], ◌∷◌, ◌++◌, append_assoc,
  append-nil, Text, if◌then◌else◌, ◌==◌, text_eq, arith, inl, inr, Bool-cases,
}
use atlas_system_agent.Base.Outcome.{Outcome, ok, err, bind-eq-ok}
use atlas_system_agent.Metrics.{Double}
use atlas_system_agent.Cgroup.Fields.{split_equals, ParseDouble, to_list}
use atlas_system_agent.Cgroup.IoStat.{
  IoStats, is_known_key, set_stat, is_complete, parse_stat, parse_stats, no_stats, parse_io_line,
}
use atlas_system_agent.Cgroup.IoStat.Keys.{Stat, rbytes, key_of, stat_of, set_stat-to_list}

unknown_key : (key : Text) (k : Stat) → is_known_key key ≡ false → (key == key_of k) ≡ false
unfolding is_known_key
unknown_key key rbytes e = ground arith
unknown_key key _ e = ground arith

module _ {D : Type 0} ⦃fp : Double D⦄ (parse_double : ParseDouble D) where
  -- The values that the fields give to a key, in order.
  abbrev pub given : Stat → Text → List D
  given k field = elim (split_equals field) [
    | none ↦ []
    | some (key, text) ↦ if key == key_of k then to_list (parse_double text) else []
  ]

  abbrev pub all_given : Stat → List Text → List D
  all_given k [] = []
  all_given k (field ∷ fields) = given k field ++ all_given k fields

  parse_stat-given :
      (s : IoStats D) (field : Text) {t : IoStats D} (k : Stat)
      → parse_stat parse_double s field ≡ ok t
      → to_list (stat_of k t) ≡ to_list (stat_of k s) ++ given k field
  unfolding parse_stat
  parse_stat-given s field {t} k e = split_on (split_equals field) refl
    where
      split_on :
          (p : Option (Text × Text))
          → split_equals field ≡ p
          → to_list (stat_of k t) ≡ to_list (stat_of k s) ++ given k field
      split_on none eq = ground arith
      split_on (some (key, text)) eq = elim (Bool-cases (is_known_key key)) [
        | inr unknown ↦
            ground (arith, unknown_key key k unknown, append-nil (to_list (stat_of k s)))
        | inl known ↦ value_on known (parse_double text) refl
      ]
        where
          value_on :
              is_known_key key ≡ true
              → (v : Option D) → parse_double text ≡ v
              → to_list (stat_of k t) ≡ to_list (stat_of k s) ++ given k field
          value_on known none pv = ground arith
          value_on known (some v) pv =
              let done : set_stat s key v ≡ ok t = ground arith in
              let step = set_stat-to_list s key v k done in
              step ∙ ap (◌++◌ (to_list (stat_of k s))) (ground arith)

  parse_stats-given :
      (s : IoStats D) (fields : List Text) {t : IoStats D} (k : Stat)
      → parse_stats parse_double s fields ≡ ok t
      → to_list (stat_of k t) ≡ to_list (stat_of k s) ++ all_given k fields
  unfolding parse_stats
  parse_stats-given s [] k e = ground (arith, append-nil (to_list (stat_of k s)))
  parse_stats-given s (field ∷ fields) k e =
      let (u, one, rest) =
        bind-eq-ok (parse_stat parse_double s field) (λ t. parse_stats parse_double t fields) e in
      parse_stats-given u fields k rest
      ∙ ap (λ l. l ++ all_given k fields) (parse_stat-given s field k one)
      ∙ append_assoc (to_list (stat_of k s)) (given k field) (all_given k fields)

  no_stats_empty :
      (dev_map : List (Text × Text)) (dev : Text) (k : Stat)
      → to_list (stat_of k (no_stats parse_double dev_map dev)) ≡ []
  no_stats_empty dev_map dev rbytes = refl
  no_stats_empty dev_map dev _ = refl

  complete_some :
      (s : IoStats D) (k : Stat) → is_complete s ≡ true → (v : D) × (stat_of k s ≡ some v)
  unfolding is_complete
  complete_some s rbytes e = ground arith
  complete_some s _ e = ground arith

  -- A line of io.stat is accepted only if it gives each of the six statistics exactly once, in
  -- whatever order and with whatever other keys between them, and the result holds these values.
  pub parse_io_line_exact :
      (dev_map : List (Text × Text)) (dev : Text) (fields : List Text) {s : IoStats D} (k : Stat)
      → parse_io_line parse_double dev_map (dev ∷ fields) ≡ ok (some s)
      → (v : D) × (stat_of k s ≡ some v) × (all_given k fields ≡ v ∷ [])
  unfolding parse_io_line
  parse_io_line_exact dev_map dev fields {s} k e =
      read (parse_stats parse_double (no_stats parse_double dev_map dev) fields) refl
    where
      read :
          (r : Outcome (IoStats D))
          → parse_stats parse_double (no_stats parse_double dev_map dev) fields ≡ r
          → (v : D) × (stat_of k s ≡ some v) × (all_given k fields ≡ v ∷ [])
      read (err x) eq = absurd (ground arith)
      read (ok t) eq =
          let same : t ≡ s = ground arith in
          let complete : is_complete s ≡ true = ground arith in
          let (v, held) = complete_some s k complete in
          let listed = parse_stats-given (no_stats parse_double dev_map dev) fields k eq in
          (
            v,
            held,
            sym (listed ∙ ap (λ l. l ++ all_given k fields) (no_stats_empty dev_map dev k))
                ∙ ap (λ x. to_list (stat_of k x)) same
                ∙ ap to_list held,
          )
