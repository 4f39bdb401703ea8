-- ===== src/Base/Numbers.antt =====
-- The number parsers of the C and C++ standard libraries that the collectors call, and decimal text.
pub mod Decimal
pub mod Hex
use atlas_system_agent.Base.Int.{ℤ, pos, negsuc, sub_ℕ}
use atlas_system_agent.Base.Tests.{leb, ltb, eqb, if◌then◌else◌}
use atlas_system_agent.Base.Texts.{Text, is_digit, is_space}
use Prim.Native.Nat.{ℕ, zero, suc, ◌+◌, ◌-◌, ◌*◌, ◌/◌, ◌%◌, ◌^◌}
use mathlib.Core.Bool.{Bool, true, false}
use mathlib.Core.List.{List, [], ◌∷◌, ◌++◌}
use mathlib.Core.Option.{Option, none, some}

abbrev pub u64 : ℕ
u64 = 2 ^ 64

unfoldable pub skip_space : Text → Text
skip_space [] = []
skip_space (c ∷ s) = let rest = skip_space s in if is_space c then rest else c ∷ s

-- The value of the digits up to the first other byte, read onto `acc`.
unfoldable pub digits_onto : ℕ → Text → ℕ
digits_onto acc [] = acc
digits_onto acc (c ∷ s) =
    let rest = digits_onto (acc * 10 + (c - 48)) s in if is_digit c then rest else acc

-- `none` where the text does not begin with a digit.
unfoldable pub read_digits : Text → Option ℕ
unfolding digits_onto
read_digits [] = none
read_digits (c ∷ s) = if is_digit c then some (digits_onto (c - 48) s) else none

-- An optional sign, and the digits: is it negative, and the magnitude.
unfoldable pub read_signed : Text → Option (Bool × ℕ)
unfolding read_digits
read_signed [] = none
read_signed (c ∷ s) =
    if eqb c b'-'
    then elim (read_digits s) [ none ↦ none | some n ↦ some (true, n) ]
    else elim (read_digits (if eqb c b'+' then s else c ∷ s)) [
      | none ↦ none
      | some n ↦ some (false, n)
    ]

abbrev pub scan_number : Text → Option (Bool × ℕ)
scan_number s = read_signed (skip_space s)

abbrev wrap_negative : Bool → ℕ → ℕ
wrap_negative minus n = if minus then (u64 - n) % u64 else n

-- `std::stoul(s)` and `std::stoull(s)`, with a 64-bit `unsigned long`; `none` is an exception.
unfoldable pub stoul : Text → Option ℕ
unfolding read_signed skip_space
stoul s = elim (scan_number s) [
  | none ↦ none
  | some (minus, n) ↦ if ltb n u64 then some (wrap_negative minus n) else none
]

-- `std::strtoul(s, nullptr, 10)`
unfoldable pub strtoul : Text → ℕ
unfolding read_signed skip_space
strtoul s = elim (scan_number s) [
  | none ↦ 0
  | some (minus, n) ↦ if ltb n u64 then wrap_negative minus n else u64 - 1
]

abbrev pub signed : Bool → ℕ → ℤ
signed minus n = if minus then sub_ℕ 0 n else pos n

-- The signed value, if it fits a type with `bits` bits.
abbrev in_range : ℕ → Bool → ℕ → Option ℤ
in_range bits minus n =
    if leb n (if minus then 2 ^ (bits - 1) else 2 ^ (bits - 1) - 1)
    then some (signed minus n)
    else none

-- `std::stoi(s)`; `none` is an exception.
unfoldable pub stoi : Text → Option ℤ
unfolding read_signed skip_space
stoi s = elim (scan_number s) [ none ↦ none | some (minus, n) ↦ in_range 32 minus n ]

-- `std::stoll(s)`; `none` is an exception.
unfoldable pub stoll : Text → Option ℤ
unfolding read_signed skip_space
stoll s = elim (scan_number s) [ none ↦ none | some (minus, n) ↦ in_range 64 minus n ]

-- `std::from_chars` into a `uint64_t`: no space and no sign; `none` is an error code.
unfoldable pub from_chars_u64 : Text → Option ℕ
unfolding read_digits
from_chars_u64 s = elim (read_digits s) [
  | none ↦ none
  | some n ↦ if ltb n u64 then some n else none
]

-- `std::to_string`; `n + 1` rounds are more than it has digits.
unfoldable pub decimal_fuel : ℕ → ℕ → Text
decimal_fuel zero n = []
decimal_fuel (suc f) n =
    let front = decimal_fuel f (n / 10) in
    if ltb n 10 then (48 + n) ∷ [] else front ++ (48 + n % 10) ∷ []

unfoldable pub decimal : ℕ → Text
unfolding decimal_fuel
decimal n = decimal_fuel (n + 1) n
