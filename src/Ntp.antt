-- ===== src/Ntp.antt =====
-- lib/collectors/ntp/src/ntp.cpp: `chrony_stats` and `ntp_stats`. The split of a line, the clock and
-- the arithmetic of `absl::Time` are parameters.
pub mod Samples
use atlas_system_agent.Base.{
  ℕ, Bool, true, false, Option, none, some, List, [], ◌∷◌, Text, String, ltb, length, get_elem?,
  if◌then◌else◌, text_beq, eqb,
}
use atlas_system_agent.Base.Int.{ℤ, pos}
use atlas_system_agent.Base.Numbers.{stoll, scan_number, read_signed, skip_space}
use atlas_system_agent.Base.Outcome.{Outcome, ok, err, terminated, ◌>>=◌}
use atlas_system_agent.Metrics.{Double, of_ℕ, metric, Metric, gauge}
use atlas_system_agent.StrSplit.{StrSplit, allow_empty}

-- What the collector uses of the clock: a time that lies a number of seconds back, and an age.
pub record Clock (D : Type 0) : Type 1 where
  pub Time : Type 0
  pub seconds_before : Time → ℤ → Time
  pub age : Time → Time → D

abbrev pub comma : ℕ → Bool
comma c = eqb c b','

-- `std::stoll`, with the exception that it throws.
pub data Parsed : Type 0 where
  number : ℤ → Parsed
  invalid_argument out_of_range : Parsed

unfoldable pub parse_last_rx : Text → Parsed
unfolding stoll read_signed skip_space
parse_last_rx s = elim (scan_number s) [
  | none ↦ invalid_argument
  | some _ ↦ elim (stoll s) [ none ↦ out_of_range | some n ↦ number n ]
]

module _ {D : Type 0} (clock : Clock D) (split : StrSplit) where
  open clock use {Time, seconds_before, age}

  -- What a source says: is it the current server, and its field of the last sample.
  unfoldable pub last_rx_field : Text → Text → Option Text
  last_rx_field current_server source =
      let fields = split comma allow_empty source in
      if ltb (length fields) 7 then none else elim (get_elem? fields 2) [
        | none ↦ none
        | some server ↦ if text_beq server current_server then get_elem? fields 6 else none
      ]

  -- The loop over the sources, each with the clock's reading at its turn. Only `invalid_argument` is
  -- caught; the function is `noexcept`.
  unfoldable pub sample_sources : Text → List (Text × Time) → Time → Outcome Time
  unfolding last_rx_field parse_last_rx
  sample_sources current_server [] t = ok t
  sample_sources current_server ((source, now) ∷ sources) t =
      let rest = sample_sources current_server sources in
      elim (last_rx_field current_server source) [
        | none ↦ rest t
        | some field ↦ elim (parse_last_rx field) [
          | number last_rx ↦ rest (seconds_before now last_rx)
          | invalid_argument ↦ rest t
          | out_of_range ↦ err terminated
        ]
      ]

  -- The new `lastSampleTime_`, and the gauge.
  unfoldable pub chrony_stats :
      ⦃fp : Double D⦄ → Text → List (Text × Time) → Time → Time → Outcome (Time × List (Metric D))
  unfolding sample_sources
  chrony_stats tracking sources now t =
      let current_server : Text = elim (get_elem? (split comma allow_empty tracking) 1) [
        | none ↦ []
        | some s ↦ s
      ] in
      sample_sources current_server sources t >>= λ last.
      ok (last, metric gauge "sys.time.lastSampleAge" [] (age now last) ∷ [])

-- What `ntp_adjtime` answers: an error, `TIME_ERROR`, or a synchronized clock; and its `esterror`.
pub data Adjtime : Type 0 where
  failed unsynchronized : Adjtime
  synchronized : ℤ → Adjtime

unfoldable pub ntp_stats : {D : Type 0} ⦃fp : Double D⦄ → Adjtime → List (Metric D)
ntp_stats failed = []
ntp_stats unsynchronized = metric gauge "sys.time.unsynchronized" [] (of_ℕ 1) ∷ []
ntp_stats ⦃fp⦄ (synchronized esterror) =
    metric gauge "sys.time.unsynchronized" [] (of_ℕ 0)
    ∷ metric gauge "sys.time.estimatedError" [] (fp.div (fp.of_ℤ esterror) (of_ℕ 1000000))
    ∷ []
