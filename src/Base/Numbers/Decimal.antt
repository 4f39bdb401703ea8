-- ===== src/Base/Numbers/Decimal.antt =====
-- The parsers read back what `std::to_string` prints.
use atlas_system_agent.Base.Tests.{ltb, Bool-cases, ltb→lt}
use atlas_system_agent.Base.Texts.{Text, is_digit}
use atlas_system_agent.Base.Lists.{All, All-append}
use atlas_system_agent.Base.Numbers.{
  u64, skip_space, digits_onto, read_digits, read_signed, scan_number, stoul, strtoul, decimal_fuel,
  decimal,
}
use Prim.Native.Nat.{ℕ, zero, suc, ◌+◌, ◌-◌, ◌*◌, ◌/◌, ◌%◌, ◌<◌}
use mathlib.Core.Path.{◌≡◌, ap, ◌∙◌, refl}
use mathlib.Core.Bool.{true, false}
use mathlib.Core.List.{[], ◌∷◌, ◌++◌}
use mathlib.Core.Logic.{inl, inr}
use mathlib.Core.Option.{some}
use native.Mathlib.Omega.{arith}

abbrev pub AllDigits : Text → Type 0
AllDigits = All λ c. is_digit c ≡ true

digits_onto-concat :
    (t : Text) (acc x : ℕ)
    → AllDigits t
    → is_digit x ≡ true
    → digits_onto acc (t ++ x ∷ []) ≡ digits_onto acc t * 10 + (x - 48)
unfolding digits_onto
digits_onto-concat [] acc x h d = rw d
digits_onto-concat (c ∷ t) acc x h d = rw h.0 (digits_onto-concat t (acc * 10 + (c - 48)) x h.1 d)

read_digits-concat :
    (t : Text) (n x : ℕ)
    → AllDigits t
    → is_digit x ≡ true
    → read_digits t ≡ some n
    → read_digits (t ++ x ∷ []) ≡ some (n * 10 + (x - 48))
unfolding read_digits
read_digits-concat [] n x h d e = cc
read_digits-concat (c ∷ t) n x h d e =
    let first : digits_onto (c - 48) t ≡ n = ground arith in
    rw h.0 (ap some (rw (← first) (digits_onto-concat t (c - 48) x h.1 d)))

digit_lem : (d : ℕ) → d < 10 → is_digit (48 + d) ≡ true
digit_lem d h = ground arith

read_digits_one : (d : ℕ) → d < 10 → read_digits ((48 + d) ∷ []) ≡ some d
unfolding read_digits
read_digits_one d h = rw (digit_lem d h) (ap some (omega arith))

regroup_digit :
    (t : Text) (n : ℕ)
    → read_digits t ≡ some (n / 10 * 10 + (48 + n % 10 - 48))
    → read_digits t ≡ some n
regroup_digit t n e = e ∙ ap some (omega arith)

-- Enough rounds print digits that read back as the number.
decimal_fuel_lem :
    (f n : ℕ) → n < f → AllDigits (decimal_fuel f n) × (read_digits (decimal_fuel f n) ≡ some n)
unfolding decimal_fuel
decimal_fuel_lem zero n h = absurd (omega arith)
decimal_fuel_lem (suc f) n h = elim (Bool-cases (ltb n 10)) [
  | inl small ↦
      rw small ((digit_lem n (ltb→lt n 10 small), tt), read_digits_one n (ltb→lt n 10 small))
  | inr large ↦ rw large (
      let (digits, value) = decimal_fuel_lem f (n / 10) (ground arith) in
      let last = digit_lem (n % 10) (omega arith) in
      (
        All-append (λ c. is_digit c ≡ true) (decimal_fuel f (n / 10)) _ digits (last, tt),
        regroup_digit _ n (read_digits-concat _ _ _ digits last value),
      ))
]

scan_number_digits :
    (t : Text) (n : ℕ) → AllDigits t → read_digits t ≡ some n → scan_number t ≡ some (false, n)
unfolding skip_space read_signed read_digits
scan_number_digits [] n h e = cc
scan_number_digits (c ∷ t) n h e = ground arith

-- `stoul` reads back a printed number that fits 64 bits.
pub stoul-decimal : (n : ℕ) → n < u64 → stoul (decimal n) ≡ some n
unfolding stoul decimal
stoul-decimal n h =
    let (digits, value) = decimal_fuel_lem (n + 1) n (omega arith) in
    rw (scan_number_digits _ n digits value, stoul) (ground arith)

-- `strtoul` reads back a printed number that fits 64 bits.
pub strtoul-decimal : (n : ℕ) → n < u64 → strtoul (decimal n) ≡ n
unfolding strtoul decimal
strtoul-decimal n h =
    let (digits, value) = decimal_fuel_lem (n + 1) n (omega arith) in
    rw (scan_number_digits _ n digits value, strtoul) (ground arith)

digits_onto-stop :
    (t : Text) (acc c : ℕ) (s : Text)
    → AllDigits t
    → is_digit c ≡ false
    → digits_onto acc (t ++ c ∷ s) ≡ digits_onto acc t
unfolding digits_onto
digits_onto-stop [] acc c s h e = rw e refl
digits_onto-stop (x ∷ t) acc c s h e = rw h.0 (digits_onto-stop t (acc * 10 + (x - 48)) c s h.1 e)

read_digits-stop :
    (t : Text) (n c : ℕ) (s : Text)
    → AllDigits t
    → is_digit c ≡ false
    → read_digits t ≡ some n
    → read_digits (t ++ c ∷ s) ≡ some n
unfolding read_digits
read_digits-stop [] n c s h e r = cc
read_digits-stop (x ∷ t) n c s h e r =
    let same = digits_onto-stop t (x - 48) c s h.1 e in
    let first : digits_onto (x - 48) t ≡ n = ground arith in rw h.0 (ap some (same ∙ first))

scan_number_stop :
    (t : Text) (n c : ℕ) (s : Text)
    → AllDigits t
    → is_digit c ≡ false
    → read_digits t ≡ some n
    → scan_number (32 ∷ t ++ c ∷ s) ≡ some (false, n)
unfolding skip_space read_signed
scan_number_stop t n c s h e r = go t h r (read_digits-stop t n c s h e r)
  where
    go :
        (t : Text)
        → AllDigits t
        → read_digits t ≡ some n
        → read_digits (t ++ c ∷ s) ≡ some n
        → scan_number (32 ∷ t ++ c ∷ s) ≡ some (false, n)
    go [] h r v = cc
    go (x ∷ t) h r v = ground arith

-- A printed number behind a blank and in front of another byte is read back.
pub scan_number-decimal :
    (n c : ℕ) (s : Text)
    → is_digit c ≡ false
    → scan_number (32 ∷ decimal n ++ c ∷ s) ≡ some (false, n)
unfolding decimal
scan_number-decimal n c s e =
    let (digits, value) = decimal_fuel_lem (n + 1) n (omega arith) in
    scan_number_stop (decimal n) n c s digits e value

-- A printed number is a digit and more digits.
pub decimal_cons :
    (n : ℕ) → (x : ℕ) × (t : Text) × (decimal n ≡ x ∷ t) × (is_digit x ≡ true) × AllDigits t
unfolding decimal read_digits
decimal_cons n =
    let (digits, value) = decimal_fuel_lem (n + 1) n (omega arith) in
    go (decimal_fuel (n + 1) n) digits value
  where
    go :
        (d : Text)
        → AllDigits d
        → read_digits d ≡ some n
        → (x : ℕ) × (t : Text) × (d ≡ x ∷ t) × (is_digit x ≡ true) × AllDigits t
    go [] h v = absurd (ground arith)
    go (x ∷ t) h v = (x, t, refl, h.0, h.1)
