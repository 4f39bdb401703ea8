-- ===== src/Cgroup/IoMax.antt =====
-- cgroup.cpp: `ParseIOThrottleLine` and `ParseIOThrottleLines`.
pub mod Keys
pub mod Exact
use atlas_system_agent.Base.{
  ℕ, Bool, true, false, not, ◌&&◌, Option, none, some, List, [], ◌∷◌, Text, codes, eqb,
  if◌then◌else◌, length, ◌==◌, text_eq,
}
use atlas_system_agent.Base.Dict.{emplace}
use atlas_system_agent.Base.Int.{negsuc}
use atlas_system_agent.Base.Outcome.{Outcome, ok, err, thrown, undefined, ◌>>=◌}
use atlas_system_agent.Metrics.{Double, of_ℕ}
use atlas_system_agent.Cgroup.Fields.{split_equals, ParseDouble, is_none}

pub record IoThrottle (D : Type 0) : Type 0 where
  pub device : Text
  pub r_bps : Option D
  pub w_bps : Option D
  pub r_iops : Option D
  pub w_iops : Option D

module _ {D : Type 0} where
  unfoldable pub set_limit : IoThrottle D → Text → D → Outcome (IoThrottle D)
  set_limit s key value =
      if key == codes "rbps" && is_none s.r_bps
      then ok (record s { r_bps = some value })
      else if key == codes "wbps" && is_none s.w_bps
      then ok (record s { w_bps = some value })
      else if key == codes "riops" && is_none s.r_iops
      then ok (record s { r_iops = some value })
      else if key == codes "wiops" && is_none s.w_iops
      then ok (record s { w_iops = some value })
      else err thrown

  unfoldable pub is_valid_throttle : IoThrottle D → Bool
  is_valid_throttle s =
      not (is_none s.r_bps)
      && (not (is_none s.w_bps) && (not (is_none s.r_iops) && not (is_none s.w_iops)))

module _ {D : Type 0} ⦃fp : Double D⦄ (parse_double : ParseDouble D) where
  -- "max" is -1; any other value is a number that is not negative.
  abbrev pub limit_value : Text → Outcome D
  limit_value text =
      if text == codes "max" then ok (fp.of_ℤ (negsuc 0)) else elim (parse_double text) [
        | none ↦ err thrown
        | some v ↦ if fp.lt v (of_ℕ 0) then err thrown else ok v
      ]

  unfoldable pub parse_limit : IoThrottle D → Text → Outcome (IoThrottle D)
  parse_limit s field = elim (split_equals field) [
    | none ↦ err thrown
    | some (key, text) ↦ limit_value text >>= set_limit s key
  ]

  unfoldable pub parse_limits : IoThrottle D → List Text → Outcome (IoThrottle D)
  parse_limits s [] = ok s
  parse_limits s (field ∷ fields) = parse_limit s field >>= λ t. parse_limits t fields

abbrev pub no_limits : {D : Type 0} → Text → IoThrottle D
no_limits device = record {
  device = device;
  r_bps = none;
  w_bps = none;
  r_iops = none;
  w_iops = none;
}

module _ {D : Type 0} ⦃fp : Double D⦄ (parse_double : ParseDouble D) where
  -- The exceptions are caught; the callers pass five fields.
  unfoldable pub parse_io_throttle_line : List Text → Outcome (Option (IoThrottle D))
  unfolding parse_limits
  parse_io_throttle_line [] = err undefined
  parse_io_throttle_line (device ∷ fields) =
      elim (parse_limits parse_double (no_limits device) fields) [
        | err e ↦ ok none
        | ok s ↦ ok (if is_valid_throttle s then some s else none)
      ]

  -- The loop; `none` stands for both ways to the empty result.
  unfoldable pub collect_throttles :
      List (List Text) → List (Text × IoThrottle D) → Outcome (Option (List (Text × IoThrottle D)))
  collect_throttles [] acc = ok (some acc)
  collect_throttles (fields ∷ lines) acc =
      let parsed : Outcome (Option (List (Text × IoThrottle D))) =
        parse_io_throttle_line fields >>= λ r. elim r [
          | none ↦ ok none
          | some s ↦ collect_throttles lines (emplace s.device s acc)
        ] in
      if not (eqb (length fields) 5) then ok none else parsed

  unfoldable pub parse_io_throttle_lines : List (List Text) → Outcome (List (Text × IoThrottle D))
  unfolding collect_throttles
  parse_io_throttle_lines lines =
      collect_throttles lines [] >>= λ r. ok (elim r [ none ↦ [] | some m ↦ m ])
