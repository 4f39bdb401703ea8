-- ===== src/Stdio.antt =====
-- The conversions of `sscanf` and `fscanf` that the collectors use. A conversion that fails leaves its
-- variable as it was, and ends the call.
pub mod Decimal
pub mod Padded
pub mod Lengths
use atlas_system_agent.Base.{
  ℕ, zero, suc, ◌-◌, ◌%◌, Bool, true, false, ◌||◌, Option, none, some, List, [], ◌∷◌, Text, eqb,
  ltb, if◌then◌else◌, is_digit, is_space,
}
use atlas_system_agent.Base.Int.{ℤ}
use atlas_system_agent.Base.Numbers.{u64, scan_number, read_signed, skip_space}
use atlas_system_agent.Util.{to_int64, token}

abbrev pub after_sign : Text → Text
after_sign [] = []
after_sign (c ∷ s) = if eqb c b'-' || eqb c b'+' then s else c ∷ s

unfoldable pub skip_digits : Text → Text
skip_digits [] = []
skip_digits (c ∷ s) = let rest = skip_digits s in if is_digit c then rest else c ∷ s

-- What a conversion of a number leaves, also where it fails: the spaces and the sign are gone.
unfoldable pub after_number : Text → Text
unfolding skip_space skip_digits
after_number s = skip_digits (after_sign (skip_space s))

-- `%lu`: a number out of range becomes the largest one.
abbrev pub to_uint64 : Bool → ℕ → ℕ
to_uint64 minus n = if ltb n u64 then (if minus then (u64 - n) % u64 else n) else u64 - 1

-- `n` conversions of the kind of `%ld`, up to the first failure, and the rest of the stream.
unfoldable pub scan_longs : ℕ → Text → List ℤ × Text
unfolding after_number skip_space read_signed
scan_longs zero s = ([], s)
scan_longs (suc n) s =
    let more = scan_longs n (after_number s) in
    elim (scan_number s) [
      | none ↦ ([], after_number s)
      | some (minus, v) ↦ (to_int64 minus v ∷ more.0, more.1)
    ]

-- `n` conversions of the kind of `%lu`, up to the first failure.
unfoldable pub scan_ulongs : ℕ → Text → List ℕ
unfolding after_number skip_space read_signed
scan_ulongs zero s = []
scan_ulongs (suc n) s =
    let more = scan_ulongs n (after_number s) in
    elim (scan_number s) [ none ↦ [] | some (minus, v) ↦ to_uint64 minus v ∷ more ]

-- The bytes of a format without conversions and blanks; `none` where the text has another byte.
unfoldable pub scan_literal : Text → Text → Option Text
scan_literal [] s = some s
scan_literal (p ∷ literal) [] = none
scan_literal (p ∷ literal) (c ∷ s) =
    let rest = scan_literal literal s in if eqb p c then rest else none

-- `sscanf(s, "literal %lu %lu ...", ...)` with `n` conversions: the values that it assigns.
unfoldable pub sscanf_ulongs : Text → ℕ → Text → List ℕ
unfolding scan_literal scan_ulongs
sscanf_ulongs literal n s = elim (scan_literal literal s) [
  | none ↦ []
  | some rest ↦ scan_ulongs n rest
]

-- `%s`: the token behind the spaces and the rest; `none` at the end of the stream.
unfoldable pub scan_token : Text → Option (Text × Text)
unfolding token skip_space
scan_token s =
    let (t, rest) = token (skip_space s) in elim t [ [] ↦ none | c ∷ u ↦ some (c ∷ u, rest) ]
