-- ===== src/PerfMetrics/Range/Ends.antt =====
-- lib/collectors/perf_metrics/src/perf_metrics.h: the loop of `parse_range` ends.
use atlas_system_agent.Base.{
  ℕ, zero, suc, ◌≤◌, ◌<◌, ◌≢◌, ◌≡◌, Bool, Option, none, some, List, [], ◌∷◌, Text, length, arith,
  Option-cases, if_cases, inl, inr, refl,
}
use atlas_system_agent.Base.Outcome.{Outcome, ok, err}
use atlas_system_agent.Base.Int.{ℤ, pos, negsuc}
use atlas_system_agent.Base.Numbers.{signed, scan_number}
use atlas_system_agent.Stdio.{after_number}
use atlas_system_agent.Stdio.Lengths.{length-after_number}
use atlas_system_agent.PerfMetrics.Range.{
  parse_range, parse_range_rounds, fits_int, range_round, cpu_round, behind_first, first_byte,
}

-- A round without a separator does not go on.
no_separator :
    (start : Option ℕ) (cpu : ℤ) (result filled : List Bool) (next : Option ℕ)
    → cpu_round start cpu none result ≢ ok (next, filled)
unfolding cpu_round range_round
no_separator start (pos n) result filled next = ground arith
no_separator start (negsuc zero) result filled next = ground arith
no_separator start (negsuc (suc n)) result filled next = ground arith

-- A round that goes on takes its separator off the text.
separator_taken :
    (t : Text) (start : Option ℕ) (cpu : ℤ) (result filled : List Bool) (next : Option ℕ)
    → cpu_round start cpu (first_byte t) result ≡ ok (next, filled)
    → length (behind_first t) < length t
separator_taken [] start cpu result filled next e =
    absurd (no_separator start cpu result filled next e)
separator_taken (c ∷ t) start cpu result filled next e = omega arith

after_round :
    (round : Outcome (Option ℕ × List Bool))
    (more : Option ℕ → List Bool → Option (Outcome (List Bool)))
    → ((next : Option ℕ) (filled : List Bool) → round ≡ ok (next, filled) → more next filled ≢ none)
    → (elim round as (λ _. Option (Outcome (List Bool))) [
      | err e ↦ some (err e)
      | ok (next, filled) ↦ more next filled
    ])
      ≢ none
after_round (err e) more h = ground arith
after_round (ok (next, filled)) more h = h next filled refl

parse_range_rounds-ends :
    (fuel : ℕ) (s : Text) (start : Option ℕ) (result : List Bool)
    → length s < fuel
    → parse_range_rounds fuel s start result ≢ none
unfolding parse_range_rounds
parse_range_rounds-ends zero s start result h = absurd (omega arith)
parse_range_rounds-ends (suc fuel) s start result h = elim (Option-cases (scan_number s)) [
  | inl e ↦ rw (e, parse_range_rounds) (λ c. absurd (cc))
  | inr ((minus, n), e) ↦
      let round = cpu_round start (signed minus n) (first_byte (after_number s)) result in
      rw (e, parse_range_rounds)
        (if_cases (λ r. r ≢ none) (fits_int minus n) _ _
          (λ _. after_round round _ (λ next filled r.
            parse_range_rounds-ends fuel (behind_first (after_number s)) next filled (
              shorter (after_number s)
                (separator_taken (after_number s) start (signed minus n) result filled next r)
                (length-after_number s))))
          (λ _ c. absurd (cc)))
]
  where
    shorter :
        (t : Text)
        → length (behind_first t) < length t
        → length t ≤ length s
        → length (behind_first t) < fuel
    shorter t less le = omega arith

-- The loop ends on every file: it returns, throws, or reads a value that does not exist.
pub parse_range-ends : (file : Option Text) (result : List Bool) → parse_range file result ≢ none
unfolding parse_range
parse_range-ends none result = ground arith
parse_range-ends (some s) result =
    parse_range_rounds-ends (suc (length s)) s none result (omega arith)
