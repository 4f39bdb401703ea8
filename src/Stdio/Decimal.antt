-- ===== src/Stdio/Decimal.antt =====
-- The conversions of `scanf` read back printed numbers.
use atlas_system_agent.Base.{
  ℕ, zero, suc, ◌^◌, ◌<◌, ◌≡◌, refl, sym, ap, ◌∙◌, true, false, some, List, [], ◌∷◌, ◌++◌, Text,
  ltb, is_digit, length, take, eqb_refl, All, arith,
}
use atlas_system_agent.Base.Int.{pos}
use atlas_system_agent.Base.Numbers.{u64, decimal, scan_number, skip_space}
use atlas_system_agent.Base.Numbers.Decimal.{AllDigits, decimal_cons, scan_number-decimal}
use atlas_system_agent.Stdio.{skip_digits, after_number, scan_longs, scan_ulongs, scan_literal}

skip_digits-stop :
    (t : Text) (c : ℕ) (s : Text)
    → AllDigits t
    → is_digit c ≡ false
    → skip_digits (t ++ c ∷ s) ≡ c ∷ s
unfolding skip_digits
skip_digits-stop [] c s h e = rw e refl
skip_digits-stop (x ∷ t) c s h e = rw h.0 (skip_digits-stop t c s h.1 e)

-- What a printed number behind a blank leaves.
pub after_number-decimal :
    (n c : ℕ) (s : Text) → is_digit c ≡ false → after_number (32 ∷ decimal n ++ c ∷ s) ≡ c ∷ s
unfolding after_number skip_space
after_number-decimal n c s e =
    let (x, t, printed, digit, digits) = decimal_cons n in
    rw printed (first x t digit (skip_digits-stop (x ∷ t) c s (digit, digits) e))
  where
    first :
        (x : ℕ) (t : Text)
        → is_digit x ≡ true
        → skip_digits (x ∷ t ++ c ∷ s) ≡ c ∷ s
        → after_number (32 ∷ x ∷ t ++ c ∷ s) ≡ c ∷ s
    first x t d h = ground arith

-- Numbers, each behind a blank.
abbrev pub spaced : List ℕ → Text → Text
spaced [] s = s
spaced (n ∷ ns) s = 32 ∷ decimal n ++ spaced ns s

spaced-stop :
    (ns : List ℕ) (c : ℕ) (s : Text)
    → is_digit c ≡ false
    → (x : ℕ) × (t : Text) × (spaced ns (c ∷ s) ≡ x ∷ t) × (is_digit x ≡ false)
spaced-stop [] c s e = (c, s, refl, e)
spaced-stop (n ∷ ns) c s e = (32, decimal n ++ spaced ns (c ∷ s), refl, refl)

pub scan_longs_step :
    (k n : ℕ) (s rest : Text)
    → scan_number s ≡ some (false, n)
    → after_number s ≡ rest
    → n < 2 ^ 63
    → scan_longs (suc k) s ≡ (pos n ∷ (scan_longs k rest).0, (scan_longs k rest).1)
unfolding scan_longs
scan_longs_step k n s rest e f fit =
    let small : ltb n (2 ^ 63) ≡ true = ground arith in rw (e, f, scan_longs) (rw small refl)

scan_ulongs_step :
    (k n : ℕ) (s rest : Text)
    → scan_number s ≡ some (false, n)
    → after_number s ≡ rest
    → n < u64
    → scan_ulongs (suc k) s ≡ n ∷ scan_ulongs k rest
unfolding scan_ulongs
scan_ulongs_step k n s rest e f fit =
    let small : ltb n u64 ≡ true = ground arith in rw (e, f, scan_ulongs) (rw small refl)

-- The conversions of `%lu` read the first `length ns` numbers, whatever follows them.
pub scan_ulongs-spaced :
    (ns : List ℕ) (c : ℕ) (s : Text)
    → is_digit c ≡ false
    → All (λ n. n < u64) ns
    → scan_ulongs (length ns) (spaced ns (c ∷ s)) ≡ ns
unfolding scan_ulongs
scan_ulongs-spaced [] c s e fits = refl
scan_ulongs-spaced (n ∷ ns) c s e (fit, fits) =
    let (x, t, next, stop) = spaced-stop ns c s e in
    let read = ap (λ u. scan_number (32 ∷ decimal n ++ u)) next ∙ scan_number-decimal n x t stop in
    let left =
      ap (λ u. after_number (32 ∷ decimal n ++ u)) next
      ∙ after_number-decimal n x t stop
      ∙ sym next in
    scan_ulongs_step (length ns) n (spaced (n ∷ ns) (c ∷ s)) (spaced ns (c ∷ s)) read left fit
    ∙ ap (λ r. n ∷ r) (scan_ulongs-spaced ns c s e fits)

-- A further blank in front makes no difference.
pub scan_ulongs-blank : (k : ℕ) (s : Text) → scan_ulongs k (32 ∷ s) ≡ scan_ulongs k s
unfolding scan_ulongs after_number skip_space
scan_ulongs-blank zero s = refl
scan_ulongs-blank (suc k) s = refl

-- A format's bytes are found in front of the rest.
pub scan_literal-append : (p rest : Text) → scan_literal p (p ++ rest) ≡ some rest
unfolding scan_literal
scan_literal-append [] rest = refl
scan_literal-append (c ∷ p) rest = rw (eqb_refl c, scan_literal-append p rest) refl

-- Of a line of numbers, `k` conversions read the first `k`, or all.
pub scan_ulongs-line :
    (k : ℕ) (ns : List ℕ) → All (λ n. n < u64) ns → scan_ulongs k (spaced ns (10 ∷ [])) ≡ take k ns
unfolding scan_ulongs
scan_ulongs-line zero ns fits = refl
scan_ulongs-line (suc k) [] fits = refl
scan_ulongs-line (suc k) (n ∷ ns) (fit, fits) =
    let (x, t, next, stop) = spaced-stop ns 10 [] refl in
    let read = ap (λ u. scan_number (32 ∷ decimal n ++ u)) next ∙ scan_number-decimal n x t stop in
    let left =
      ap (λ u. after_number (32 ∷ decimal n ++ u)) next
      ∙ after_number-decimal n x t stop
      ∙ sym next in
    scan_ulongs_step k n (spaced (n ∷ ns) (10 ∷ [])) (spaced ns (10 ∷ [])) read left fit
    ∙ ap (λ r. n ∷ r) (scan_ulongs-line k ns fits)
