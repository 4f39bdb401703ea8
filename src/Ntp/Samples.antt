-- ===== src/Ntp/Samples.antt =====
-- ntp.cpp: which source `chrony_stats` believes, and when it ends the process.
use atlas_system_agent.Base.{
  ◌≡◌, refl, Bool, true, false, Option, none, some, List, [], ◌∷◌, Text, if◌then◌else◌,
}
use atlas_system_agent.Base.Int.{ℤ}
use atlas_system_agent.Base.Outcome.{ok, err, terminated}
use atlas_system_agent.StrSplit.{StrSplit}
use atlas_system_agent.Ntp.{
  Clock, Parsed, number, invalid_argument, out_of_range, parse_last_rx, last_rx_field,
  sample_sources,
}

-- What a source of the current server says, if it has the fields.
abbrev says : Option Text → Option Parsed
says none = none
says (some field) = some (parse_last_rx field)

module _ (D : Type 0) (clock : Clock D) (split : StrSplit) where
  open clock use {Time, seconds_before}

  -- Some source of the current server has a number that does not fit `long long`.
  unfoldable pub any_out_of_range : Text → List (Text × Time) → Bool
  any_out_of_range server [] = false
  any_out_of_range server ((source, now) ∷ sources) =
      let rest = any_out_of_range server sources in
      elim (says (last_rx_field clock split server source)) [ some out_of_range ↦ true | _ ↦ rest ]

  -- The time that the last source of the current server with a number gives, or the earlier time.
  unfoldable pub latest : Text → List (Text × Time) → Time → Time
  latest server [] t = t
  latest server ((source, now) ∷ sources) t =
      elim (says (last_rx_field clock split server source)) [
        | some (number n) ↦ latest server sources (seconds_before now n)
        | _ ↦ latest server sources t
      ]

  -- The loop ends the process exactly where a source of the current server has a number out of the
  -- range of `long long`; else the last source of that server with a number gives the time.
  pub sample_sources_lem :
      (server : Text) (sources : List (Text × Time)) (t : Time)
      → sample_sources clock split server sources t
        ≡ (if any_out_of_range server sources then err terminated else ok (latest server sources t))
  unfolding sample_sources any_out_of_range latest
  sample_sources_lem server [] t = refl
  sample_sources_lem server ((source, now) ∷ sources) t =
      step (last_rx_field clock split server source) refl (sample_sources_lem server sources t)
        (λ n. sample_sources_lem server sources (seconds_before now n))
    where
      here : Time → Type 0
      here t' = sample_sources clock split server sources t' ≡ (
          if any_out_of_range server sources then err terminated else ok (latest server sources t'))

      goal : Type 0
      goal = sample_sources clock split server ((source, now) ∷ sources) t ≡ (
          if any_out_of_range server ((source, now) ∷ sources)
          then err terminated
          else ok (latest server ((source, now) ∷ sources) t))

      parse :
          (field : Text) (p : Parsed)
          → last_rx_field clock split server source ≡ some field
          → parse_last_rx field ≡ p
          → here t
          → ((n : ℤ) → here (seconds_before now n))
          → goal
      parse field (number n) f e same back =
          rw (f, e, sample_sources, any_out_of_range, latest) (back n)
      parse field invalid_argument f e same back =
          rw (f, e, sample_sources, any_out_of_range, latest) same
      parse field out_of_range f e same back =
          rw (f, e, sample_sources, any_out_of_range, latest) refl

      step :
          (f : Option Text)
          → last_rx_field clock split server source ≡ f
          → here t
          → ((n : ℤ) → here (seconds_before now n))
          → goal
      step none f same back = rw (f, sample_sources, any_out_of_range, latest) same
      step (some field) f same back = parse field (parse_last_rx field) f refl same back
