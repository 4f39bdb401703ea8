-- ===== src/Stdio/Lengths.antt =====
-- The conversions of `scanf` never give bytes back.
use atlas_system_agent.Base.{
  ℕ, zero, suc, ◌+◌, ◌≤◌, ◌<◌, ◌≡◌, refl, some, [], ◌∷◌, Text, length, arith,
}
use atlas_system_agent.Base.Numbers.{skip_space}
use atlas_system_agent.Util.{token}
use atlas_system_agent.Stdio.{skip_digits, after_sign, after_number, scan_longs, scan_token}

pub length-skip_space : (s : Text) → length (skip_space s) ≤ length s
unfolding skip_space
length-skip_space [] = omega arith
length-skip_space (c ∷ s) = ground (arith, length-skip_space s)

pub length-skip_digits : (s : Text) → length (skip_digits s) ≤ length s
unfolding skip_digits
length-skip_digits [] = omega arith
length-skip_digits (c ∷ s) = ground (arith, length-skip_digits s)

pub length-after_number : (s : Text) → length (after_number s) ≤ length s
unfolding after_number
length-after_number s = behind (skip_space s) (length-skip_space s)
  where
    behind : (t : Text) → length t ≤ length s → length (skip_digits (after_sign t)) ≤ length s
    behind [] h = ground (arith, length-skip_digits [])
    behind (c ∷ t) h = ground (arith, length-skip_digits t, length-skip_digits (c ∷ t))

pub length-scan_longs : (n : ℕ) (s : Text) → length (scan_longs n s).1 ≤ length s
unfolding scan_longs
length-scan_longs zero s = omega arith
length-scan_longs (suc n) s =
    ground (arith, length-after_number s, length-scan_longs n (after_number s))

pub length-token : (s : Text) → length (token s).0 + length (token s).1 ≡ length s
unfolding token
length-token [] = refl
length-token (c ∷ s) = ground (arith, length-token s)

-- A token takes a byte.
pub length-scan_token :
    (s : Text) {t rest : Text} → scan_token s ≡ some (t, rest) → length rest < length s
unfolding scan_token
length-scan_token s {t} {rest} e = taken (token (skip_space s)).0 refl
  where
    taken : (u : Text) → (token (skip_space s)).0 ≡ u → length rest < length s
    taken u h = ground (arith, length-token (skip_space s), length-skip_space s)
