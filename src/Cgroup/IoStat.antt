-- ===== src/Cgroup/IoStat.antt =====
-- cgroup.cpp: `ParseIOLine` and `ParseIOLines`.
pub mod Keys
pub mod Exact
use atlas_system_agent.Base.{
  ℕ, Bool, true, false, not, ◌&&◌, ◌||◌, Option, none, some, List, [], ◌∷◌, Text, codes, eqb, ltb,
  if◌then◌else◌, length, ◌==◌, text_eq,
}
use atlas_system_agent.Base.Dict.{find, emplace}
use atlas_system_agent.Base.Outcome.{Outcome, ok, err, thrown, undefined, ◌>>=◌}
use atlas_system_agent.Metrics.{Double, of_ℕ}
use atlas_system_agent.Cgroup.Fields.{split_equals, ParseDouble, is_none}

pub record IoStats (D : Type 0) : Type 0 where
  pub device_name : Text
  pub major_minor : Text
  pub r_bytes : Option D
  pub w_bytes : Option D
  pub r_operations : Option D
  pub w_operations : Option D
  pub d_bytes : Option D
  pub d_operations : Option D

unfoldable pub is_known_key : Text → Bool
is_known_key key =
    key == codes "rbytes"
    || (key == codes "wbytes"
        || (key == codes "rios"
            || (key == codes "wios" || (key == codes "dbytes" || key == codes "dios"))))

module _ {D : Type 0} where
  -- The ladder of assignments; its last branch is a duplicate, since the key is known.
  unfoldable pub set_stat : IoStats D → Text → D → Outcome (IoStats D)
  set_stat s key value =
      if key == codes "rbytes" && is_none s.r_bytes
      then ok (record s { r_bytes = some value })
      else if key == codes "wbytes" && is_none s.w_bytes
      then ok (record s { w_bytes = some value })
      else if key == codes "rios" && is_none s.r_operations
      then ok (record s { r_operations = some value })
      else if key == codes "wios" && is_none s.w_operations
      then ok (record s { w_operations = some value })
      else if key == codes "dbytes" && is_none s.d_bytes
      then ok (record s { d_bytes = some value })
      else if key == codes "dios" && is_none s.d_operations
      then ok (record s { d_operations = some value })
      else err thrown

  unfoldable pub is_complete : IoStats D → Bool
  is_complete s =
      not (is_none s.r_bytes)
      && (not (is_none s.w_bytes)
          && (not (is_none s.r_operations)
              && (not (is_none s.w_operations)
                  && (not (is_none s.d_bytes) && not (is_none s.d_operations)))))

module _ {D : Type 0} ⦃fp : Double D⦄ (parse_double : ParseDouble D) where
  -- The value of a known key: a number that is not negative.
  abbrev pub stat_value : Text → Outcome D
  stat_value text = elim (parse_double text) [
    | none ↦ err thrown
    | some v ↦ if fp.lt v (of_ℕ 0) then err thrown else ok v
  ]

  -- One round of the loop over the key=value pairs.
  unfoldable pub parse_stat : IoStats D → Text → Outcome (IoStats D)
  parse_stat s field = elim (split_equals field) [
    | none ↦ err thrown
    | some (key, text) ↦
        if not (is_known_key key) then ok s else (stat_value text >>= set_stat s key)
  ]

  unfoldable pub parse_stats : IoStats D → List Text → Outcome (IoStats D)
  parse_stats s [] = ok s
  parse_stats s (field ∷ fields) = parse_stat s field >>= λ t. parse_stats t fields

  abbrev pub no_stats : List (Text × Text) → Text → IoStats D
  no_stats dev_map key = record {
    device_name = elim (find key dev_map) [ none ↦ codes "unknown" | some name ↦ name ];
    major_minor = key;
    r_bytes = none;
    w_bytes = none;
    r_operations = none;
    w_operations = none;
    d_bytes = none;
    d_operations = none;
  }

  -- The exceptions are caught; the callers pass at least seven fields.
  unfoldable pub parse_io_line : List (Text × Text) → List Text → Outcome (Option (IoStats D))
  unfolding parse_stats
  parse_io_line dev_map [] = err undefined
  parse_io_line dev_map (key ∷ fields) = elim (parse_stats (no_stats dev_map key) fields) [
    | err e ↦ ok none
    | ok s ↦ ok (if is_complete s then some s else none)
  ]

  -- The loop; `none` stands for both ways to the empty result.
  unfoldable pub collect_io_lines :
      List (Text × Text)
      → List (List Text)
      → List (Text × IoStats D)
      → Outcome (Option (List (Text × IoStats D)))
  collect_io_lines dev_map [] acc = ok (some acc)
  collect_io_lines dev_map (fields ∷ lines) acc =
      let skipped = collect_io_lines dev_map lines acc in
      let parsed : Outcome (Option (List (Text × IoStats D))) =
        parse_io_line dev_map fields >>= λ r. elim r [
          | none ↦ ok none
          | some s ↦ collect_io_lines dev_map lines (emplace s.major_minor s acc)
        ] in
      if eqb (length fields) 1 then skipped else if ltb (length fields) 7 then ok none else parsed

  unfoldable pub parse_io_lines :
      List (Text × Text) → List (List Text) → Outcome (List (Text × IoStats D))
  unfolding collect_io_lines
  parse_io_lines dev_map lines =
      collect_io_lines dev_map lines [] >>= λ r. ok (elim r [ none ↦ [] | some m ↦ m ])
