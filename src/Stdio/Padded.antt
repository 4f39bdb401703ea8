-- ===== src/Stdio/Padded.antt =====
-- The conversions of `scanf` read back numbers in columns, with runs of blanks between them.
use atlas_system_agent.Base.{
  ℕ, zero, suc, ◌^◌, ◌≤◌, ◌<◌, ◌≡◌, refl, sym, ap, ◌∙◌, false, List, [], ◌∷◌, ◌++◌, map, Text,
  is_digit, length, length-append, replicate, All, arith,
}
use atlas_system_agent.Base.Int.{pos}
use atlas_system_agent.Base.Numbers.{decimal, scan_number, skip_space}
use atlas_system_agent.Base.Numbers.Decimal.{scan_number-decimal}
use atlas_system_agent.Stdio.{after_number, scan_longs}
use atlas_system_agent.Stdio.Decimal.{after_number-decimal, scan_longs_step}

-- Numbers, each behind a blank, and further blanks in front of it as the first list says.
unfoldable pub padded : List ℕ → List ℕ → Text → Text
padded bs [] s = s
padded [] (n ∷ ns) s = 32 ∷ decimal n ++ padded [] ns s
padded (b ∷ bs) (n ∷ ns) s = replicate b 32 ++ (32 ∷ decimal n ++ padded bs ns s)

blanks-head : (b : ℕ) (s : Text) → (t : Text) × (replicate b 32 ++ (32 ∷ s) ≡ 32 ∷ t)
blanks-head zero s = (s, refl)
blanks-head (suc b) s = (replicate b 32 ++ (32 ∷ s), refl)

pub padded-head :
    (bs : List ℕ) (n : ℕ) (ns : List ℕ) (s : Text) → (t : Text) × (padded bs (n ∷ ns) s ≡ 32 ∷ t)
unfolding padded
padded-head [] n ns s = (decimal n ++ padded [] ns s, refl)
padded-head (b ∷ bs) n ns s = blanks-head b (decimal n ++ padded bs ns s)

-- No digit stands behind a number.
padded-stop :
    (bs ns : List ℕ) (x : ℕ) (t s : Text)
    → s ≡ x ∷ t
    → is_digit x ≡ false
    → (y : ℕ) × (u : Text) × (padded bs ns s ≡ y ∷ u) × (is_digit y ≡ false)
unfolding padded
padded-stop bs [] x t s e stop = (x, t, e, stop)
padded-stop bs (n ∷ ns) x t s e stop = let (u, head) = padded-head bs n ns s in (32, u, head, refl)

scan_longs-number :
    (k n x : ℕ) (t rest : Text)
    → rest ≡ x ∷ t
    → is_digit x ≡ false
    → n < 2 ^ 63
    → scan_longs (suc k) (32 ∷ decimal n ++ rest)
      ≡ (pos n ∷ (scan_longs k rest).0, (scan_longs k rest).1)
scan_longs-number k n x t rest next stop fit =
    let read = ap (λ u. scan_number (32 ∷ decimal n ++ u)) next ∙ scan_number-decimal n x t stop in
    let left =
      ap (λ u. after_number (32 ∷ decimal n ++ u)) next
      ∙ after_number-decimal n x t stop
      ∙ sym next in
    scan_longs_step k n (32 ∷ decimal n ++ rest) rest read left fit

scan_longs-blanks :
    (k b : ℕ) (s : Text) → scan_longs (suc k) (replicate b 32 ++ s) ≡ scan_longs (suc k) s
unfolding scan_longs after_number skip_space
scan_longs-blanks k zero s = refl
scan_longs-blanks k (suc b) s = scan_longs-blanks k b s

-- The conversions of `%ld` read the numbers and stop in front of what follows them.
pub scan_longs-padded :
    (bs ns : List ℕ) (x : ℕ) (t s : Text)
    → s ≡ x ∷ t
    → is_digit x ≡ false
    → All (λ n. n < 2 ^ 63) ns
    → scan_longs (length ns) (padded bs ns s) ≡ (map pos ns, s)
unfolding padded scan_longs
scan_longs-padded bs [] x t s e stop fits = refl
scan_longs-padded [] (n ∷ ns) x t s e stop (fit, fits) =
    let (y, u, next, end) = padded-stop [] ns x t s e stop in
    scan_longs-number (length ns) n y u (padded [] ns s) next end fit
    ∙ ap (λ r. (pos n ∷ r.0, r.1)) (scan_longs-padded [] ns x t s e stop fits)
scan_longs-padded (b ∷ bs) (n ∷ ns) x t s e stop (fit, fits) =
    let (y, u, next, end) = padded-stop bs ns x t s e stop in
    scan_longs-blanks (length ns) b (32 ∷ decimal n ++ padded bs ns s)
    ∙ scan_longs-number (length ns) n y u (padded bs ns s) next end fit
    ∙ ap (λ r. (pos n ∷ r.0, r.1)) (scan_longs-padded bs ns x t s e stop fits)

pub length-padded : (bs ns : List ℕ) (s : Text) → length s ≤ length (padded bs ns s)
unfolding padded
length-padded bs [] s = omega arith
length-padded [] (n ∷ ns) s =
    omega (arith, length-append {0} (decimal n) (padded [] ns s), length-padded [] ns s)
length-padded (b ∷ bs) (n ∷ ns) s = omega (
  arith,
  length-append {0} (replicate b 32) (32 ∷ decimal n ++ padded bs ns s),
  length-append {0} (decimal n) (padded bs ns s),
  length-padded bs ns s,
)
