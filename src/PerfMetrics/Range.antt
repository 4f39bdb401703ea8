-- ===== src/PerfMetrics/Range.antt =====
-- lib/collectors/perf_metrics/src/perf_metrics.h: `parse_range`, on the bytes of the file; `none` is a
-- null pointer.
pub mod Ends
pub mod Vector
pub mod Rounds
pub mod Printed
use atlas_system_agent.Base.{
  ℕ, zero, suc, ◌+◌, ◌-◌, ◌^◌, Bool, true, false, Option, none, some, List, [], ◌∷◌, Text, ltb, leb,
  eqb, if◌then◌else◌, length, set,
}
use atlas_system_agent.Base.Int.{ℤ, pos, negsuc}
use atlas_system_agent.Base.Numbers.{scan_number, signed, read_signed, skip_space}
use atlas_system_agent.Base.Outcome.{Outcome, ok, err, thrown, undefined}
use atlas_system_agent.PerfMetrics.{resize}
use atlas_system_agent.Stdio.{after_number}

-- `for (i = start; i <= cpu; ++i) result->at(i) = true`, in `n` rounds.
unfoldable pub set_from : ℕ → ℕ → List Bool → List Bool
set_from zero start result = result
set_from (suc n) start result = set_from n (suc start) (set result start true)

-- The body of a round for a CPU that is not negative. The separator is `none` where fscanf did not
-- read one; the test of it then reads a variable without a value.
unfoldable pub range_round : Option ℕ → ℕ → Option ℕ → List Bool → Outcome (Option ℕ × List Bool)
unfolding set_from
range_round start cpu none result = err undefined
range_round start cpu (some sep) result =
    let resized = resize false (cpu + 1) result in
    let filled : List Bool = elim start [
      | none ↦ resized
      | some from ↦ set_from (cpu + 1 - from) from resized
    ] in
    if eqb sep b'-' then ok (some cpu, filled) else ok (none, set filled cpu true)

-- -1 empties the vector, and `at(-1)` throws; a smaller number is a size that no vector has.
unfoldable pub cpu_round : Option ℕ → ℤ → Option ℕ → List Bool → Outcome (Option ℕ × List Bool)
unfolding range_round
cpu_round start (pos cpu) sep result = range_round start cpu sep result
cpu_round start (negsuc zero) none result = err undefined
cpu_round start (negsuc zero) (some sep) result = if eqb sep b'-' then ok (none, []) else err thrown
cpu_round start (negsuc (suc n)) sep result = err thrown

-- Does `cpu + 1` fit an `int`, and the number too?
abbrev pub fits_int : Bool → ℕ → Bool
fits_int minus n = if minus then leb n (2 ^ 31) else ltb n (2 ^ 31 - 1)

abbrev pub first_byte : Text → Option ℕ
first_byte [] = none
first_byte (c ∷ s) = some c

abbrev pub behind_first : Text → Text
behind_first [] = []
behind_first (c ∷ s) = s

-- The loop; `none` means that the fuel ran out. A number that does not fit an `int` is undefined.
unfoldable pub parse_range_rounds : ℕ → Text → Option ℕ → List Bool → Option (Outcome (List Bool))
unfolding cpu_round after_number skip_space read_signed
parse_range_rounds zero s start result = none
parse_range_rounds (suc fuel) s start result = elim (scan_number s) [
  | none ↦ some (ok result)
  | some (minus, n) ↦
      let rest = after_number s in
      let round = cpu_round start (signed minus n) (first_byte rest) result in
      let more : Option (Outcome (List Bool)) = elim round [
        | err e ↦ some (err e)
        | ok (next, filled) ↦ parse_range_rounds fuel (behind_first rest) next filled
      ] in
      if fits_int minus n then more else some (err undefined)
]

unfoldable pub parse_range : Option Text → List Bool → Option (Outcome (List Bool))
unfolding parse_range_rounds
parse_range none result = some (ok result)
parse_range (some s) result = parse_range_rounds (suc (length s)) s none result
