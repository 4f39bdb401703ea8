-- ===== src/PerfMetrics/Range/Rounds.antt =====
-- lib/collectors/perf_metrics/src/perf_metrics.h: the rounds of `parse_range` on one printed range.
use atlas_system_agent.Base.{
  ℕ, zero, suc, ◌+◌, ◌-◌, ◌^◌, ◌≤◌, ◌<◌, ◌≡◌, refl, ap, sym, ◌∙◌, Bool, true, false, none, some,
  Option, List, [], ◌∷◌, ◌++◌, Text, length, replicate, arith, eqb, if◌then◌else◌, is_digit, set,
  ltb, append_assoc, length-append, if_cases, eqb_iff,
}
use atlas_system_agent.Base.Numbers.{decimal, scan_number, skip_space}
use atlas_system_agent.Base.Numbers.Decimal.{scan_number-decimal}
use atlas_system_agent.Base.Outcome.{ok}
use atlas_system_agent.PerfMetrics.{resize}
use atlas_system_agent.PerfMetrics.Range.{parse_range_rounds, cpu_round, range_round, set_from}
use atlas_system_agent.PerfMetrics.Range.Vector.{
  length-replicate, replicate_add, resize_more, set_middle, set_from_lem, set_last,
}
use atlas_system_agent.Stdio.{after_number}
use atlas_system_agent.Stdio.Decimal.{after_number-decimal}

-- The first and the last CPU of a range.
abbrev pub Span : Type 0
Span = ℕ × ℕ

-- "3" or "5-7", with a comma in front of the next, or the end of the line.
abbrev pub print_span : Span → Text → Text
print_span (a, b) rest =
    if eqb a b then decimal a ++ rest else decimal a ++ (b'-' ∷ decimal b ++ rest)

scan_first :
    (n c : ℕ) (s : Text) → is_digit c ≡ false → scan_number (decimal n ++ c ∷ s) ≡ some (false, n)
unfolding skip_space
scan_first n c s d = scan_number-decimal n c s d

after_first : (n c : ℕ) (s : Text) → is_digit c ≡ false → after_number (decimal n ++ c ∷ s) ≡ c ∷ s
unfolding after_number skip_space
after_first n c s d = after_number-decimal n c s d

-- A round on a printed number.
round_decimal :
    (fuel n c : ℕ) (s : Text) (start next : Option ℕ) (result filled : List Bool)
    → is_digit c ≡ false
    → n < 2 ^ 31 - 1
    → range_round start n (some c) result ≡ ok (next, filled)
    → parse_range_rounds (suc fuel) (decimal n ++ c ∷ s) start result
      ≡ parse_range_rounds fuel s next filled
unfolding parse_range_rounds cpu_round
round_decimal fuel n c s start next result filled d fit e =
    let small : ltb n (2 ^ 31 - 1) ≡ true = ground arith in
    rw (scan_first n c s d, after_first n c s d, parse_range_rounds)
      (rw (small, e, cpu_round) (rw (after_first n c s d) refl))

module _ (r : List Bool) (a b : ℕ) (from_le : length r ≤ a) (le : a ≤ b) where
  -- What is in front of the range.
  abbrev pub front : List Bool
  front = r ++ replicate (a - length r) false

  length-front : length front ≡ a
  length-front = omega (
    arith,
    length-append r (replicate (a - length r) false),
    length-replicate (a - length r) false,
  )

  -- The vector is made larger up to `c`.
  larger : (c : ℕ) → a ≤ c → resize false (c + 1) r ≡ front ++ replicate (suc c - a) false
  larger c h =
      let e : suc c - length r ≡ (a - length r) + (suc c - a) = omega arith in
      resize_more (c + 1) (suc c - length r) r (omega arith)
      ∙ ap (λ k. r ++ replicate k false) e
      ∙ ap (λ k. r ++ k) (replicate_add (a - length r) (suc c - a) false)
      ∙ sym (append_assoc r (replicate (a - length r) false) (replicate (suc c - a) false))

  larger_again :
      resize false (b + 1) (front ++ replicate (suc a - a) false)
      ≡ front ++ replicate (suc b - a) false
  larger_again =
      let e : suc b - a ≡ (suc a - a) + (b - a) = omega arith in
      let l : length (front ++ replicate (suc a - a) false) + (b - a) ≡ b + 1 = omega (
        arith,
        length-append front (replicate (suc a - a) false),
        length-front,
        length-replicate (suc a - a) false,
      ) in
      resize_more (b + 1) (b - a) (front ++ replicate (suc a - a) false) l
      ∙ append_assoc front (replicate (suc a - a) false) (replicate (b - a) false)
      ∙ ap (λ k. front ++ k)
          (sym (replicate_add (suc a - a) (b - a) false) ∙ ap (λ k. replicate k false) (sym e))

  -- The last CPU is set, once more.
  set_again : set (front ++ replicate (suc b - a) true) b true ≡ front ++ replicate (suc b - a) true
  set_again =
      let n : suc b - a ≡ suc (b - a) = omega arith in
      let k : b ≡ length front + (b - a) = omega (arith, length-front) in
      ap (λ m. set (front ++ replicate m true) b true) n
      ∙ ap (λ m. set (front ++ replicate (suc (b - a)) true) m true) k
      ∙ set_last (b - a) front
      ∙ ap (λ m. front ++ replicate m true) (sym n)

  filled :
      set_from (b + 1 - a) a (front ++ replicate (suc b - a) false)
      ≡ front ++ replicate (suc b - a) true
  filled =
      let e : b + 1 - a ≡ suc b - a = omega arith in
      ap (λ k. set_from k a (front ++ replicate (suc b - a) false)) e
      ∙ ap (λ k. set_from (suc b - a) k (front ++ replicate (suc b - a) false)) (sym length-front)
      ∙ set_from_lem (suc b - a) front

  -- A single CPU.
  single_round :
      (c : ℕ)
      → eqb c b'-' ≡ false
      → a ≡ b
      → range_round none a (some c) r ≡ ok (none, front ++ replicate (suc b - a) true)
  unfolding range_round
  single_round c other same =
      let n : suc b - a ≡ 1 = omega arith in
      let k : b ≡ length front = omega (arith, length-front) in
      rw (other, range_round)
        (ap (λ k. ok (none, set (resize false (k + 1) r) k true)) same
          ∙ ap (λ v. ok (none, set v b true)) (larger b le)
          ∙ ap (λ m. ok (none, set (front ++ replicate m false) b true)) n
          ∙ ap (λ k. ok (none, set (front ++ false ∷ []) k true)) k
          ∙ ap (λ v. ok (none, v)) (set_middle front [] false true)
          ∙ ap (λ m. ok (none, front ++ replicate m true)) (sym n))

  first_round : range_round none a (some b'-') r ≡ ok (some a, front ++ replicate (suc a - a) false)
  unfolding range_round
  first_round = ap (λ v. ok (some a, v)) (larger a (omega arith))

  last_round :
      (c : ℕ)
      → eqb c b'-' ≡ false
      → range_round (some a) b (some c) (front ++ replicate (suc a - a) false)
        ≡ ok (none, front ++ replicate (suc b - a) true)
  unfolding range_round
  last_round c other =
      rw (other, range_round)
        (ap (λ v. ok (none, set v b true)) (ap (set_from (b + 1 - a) a) larger_again ∙ filled)
          ∙ ap (λ v. ok (none, v)) set_again)

  -- The vector behind the range.
  abbrev pub behind : List Bool
  behind = front ++ replicate (suc b - a) true

  pub length-behind : length behind ≡ suc b
  length-behind = omega (
    arith,
    length-append front (replicate (suc b - a) true),
    length-front,
    length-replicate (suc b - a) true,
  )

  -- The text is read to the end of the range.
  abbrev pub Reads : ℕ → Text → Text → Type 0
  Reads fuel text rest =
      (left : ℕ) × (length rest < left)
      × (parse_range_rounds fuel text none r ≡ parse_range_rounds left rest none behind)

  module _ (c : ℕ) (rest : Text) (d : is_digit c ≡ false) (other : eqb c b'-' ≡ false) where
    single_span :
        (fuel : ℕ)
        → b < 2 ^ 31 - 1
        → eqb a b ≡ true
        → length (decimal a ++ c ∷ rest) < fuel
        → Reads fuel (decimal a ++ c ∷ rest) rest
    single_span zero fit one h = absurd (omega arith)
    single_span (suc fuel) fit one h =
        let same = (eqb_iff a b).0 one in
        (
          fuel,
          omega (arith, length-append (decimal a) (c ∷ rest)),
          round_decimal fuel a c rest none none r behind d (omega arith)
              (single_round c other same),
        )

    wide_span :
        (fuel : ℕ)
        → b < 2 ^ 31 - 1
        → length (decimal a ++ (b'-' ∷ decimal b ++ c ∷ rest)) < fuel
        → Reads fuel (decimal a ++ (b'-' ∷ decimal b ++ c ∷ rest)) rest
    wide_span zero fit h = absurd (omega arith)
    wide_span (suc zero) fit h =
        absurd (omega (arith, length-append (decimal a) (b'-' ∷ decimal b ++ c ∷ rest)))
    wide_span (suc (suc fuel)) fit h = (
      fuel,
      omega (
        arith,
        length-append (decimal a) (b'-' ∷ decimal b ++ c ∷ rest),
        length-append (decimal b) (c ∷ rest),
      ),
      round_decimal (suc fuel) a b'-' (decimal b ++ c ∷ rest) none (some a) r _ refl (omega arith)
            first_round
          ∙ round_decimal fuel b c rest (some a) none _ behind d fit (last_round c other),
    )

    pub print_span-Reads :
        (fuel : ℕ)
        → b < 2 ^ 31 - 1
        → length (print_span (a, b) (c ∷ rest)) < fuel
        → Reads fuel (print_span (a, b) (c ∷ rest)) rest
    print_span-Reads fuel fit =
        if_cases (λ text. length text < fuel → Reads fuel text rest) (eqb a b) _ _
          (λ one. single_span fuel fit one) (λ _. wide_span fuel fit)
