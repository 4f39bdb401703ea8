-- ===== src/Base/Numbers/Hex.antt =====
-- `std::strtol(s, nullptr, 16)`, `std::atoi`, and the conversion of a `long` to an `int`.
use atlas_system_agent.Base.Int.{ℤ, pos, negsuc, sub_ℕ}
use atlas_system_agent.Base.Tests.{leb, ltb, eqb, if◌then◌else◌}
use atlas_system_agent.Base.Texts.{Text, is_digit}
use atlas_system_agent.Base.Numbers.{skip_space, read_signed, scan_number}
use Prim.Native.Nat.{ℕ, ◌+◌, ◌-◌, ◌*◌, ◌%◌, ◌^◌}
use mathlib.Core.Bool.{Bool, true, false, ◌&&◌, ◌||◌}
use mathlib.Core.List.{[], ◌∷◌}
use mathlib.Core.Option.{Option, none, some}

-- The value of a hexadecimal digit.
unfoldable pub hex_digit : ℕ → Option ℕ
hex_digit c =
    if is_digit c
    then some (c - 48)
    else if leb b'a' c && leb c b'f'
    then some (c - 87)
    else if leb b'A' c && leb c b'F'
    then some (c - 55)
    else none

unfoldable pub hex_onto : ℕ → Text → ℕ
unfolding hex_digit
hex_onto acc [] = acc
hex_onto acc (c ∷ s) = elim (hex_digit c) [ none ↦ acc | some d ↦ hex_onto (acc * 16 + d) s ]

-- The digits behind an optional `0x`, which counts only in front of a digit.
unfoldable pub hex_magnitude : Text → ℕ
unfolding hex_onto
hex_magnitude (z ∷ x ∷ d ∷ s) = elim (hex_digit d) [
  | none ↦ hex_onto 0 (z ∷ x ∷ d ∷ s)
  | some _ ↦
      if eqb z b'0' && (eqb x b'x' || eqb x b'X')
      then hex_onto 0 (d ∷ s)
      else hex_onto 0 (z ∷ x ∷ d ∷ s)
]
hex_magnitude s = hex_onto 0 s

-- The nearest `long`.
abbrev pub clamp_long : Bool → ℕ → ℤ
clamp_long minus n =
    if minus
    then sub_ℕ 0 (if leb n (2 ^ 63) then n else 2 ^ 63)
    else pos (if ltb n (2 ^ 63) then n else 2 ^ 63 - 1)

unfoldable pub strtol_hex : Text → ℤ
unfolding hex_magnitude skip_space
strtol_hex s = elim (skip_space s) [
  | [] ↦ pos 0
  | c ∷ rest ↦
      if eqb c b'-'
      then clamp_long true (hex_magnitude rest)
      else clamp_long false (hex_magnitude (if eqb c b'+' then rest else c ∷ rest))
]

-- `static_cast<int>` of a `long`: the low 32 bits, as a signed number.
abbrev low_bits_signed : ℕ → ℤ
low_bits_signed r = if ltb r (2 ^ 31) then pos r else sub_ℕ r (2 ^ 32)

unfoldable pub to_int : ℤ → ℤ
to_int (pos n) = low_bits_signed (n % 2 ^ 32)
to_int (negsuc n) = low_bits_signed (2 ^ 32 - 1 - n % 2 ^ 32)

-- `std::atoi`, as `strtol` in base ten.
unfoldable pub atoi : Text → ℤ
unfolding read_signed skip_space to_int
atoi s = elim (scan_number s) [ none ↦ pos 0 | some (minus, n) ↦ to_int (clamp_long minus n) ]
