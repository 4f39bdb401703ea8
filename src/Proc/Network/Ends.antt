-- ===== src/Proc/Network/Ends.antt =====
-- proc.cpp: the loop of `network_stats` ends on every file.
use atlas_system_agent.Base.{
  ℕ, zero, suc, ◌≤◌, ◌<◌, ◌≡◌, refl, Bool, true, false, Option, none, some, List, [], ◌∷◌, ◌++◌,
  Text, if◌then◌else◌, length, arith, Bool-cases, inl, inr,
}
use atlas_system_agent.Base.Outcome.{Outcome, ok, err, undefined, ◌>>=◌}
use atlas_system_agent.Metrics.{Double, Metric, Tags}
use atlas_system_agent.Stdio.{scan_token, scan_longs}
use atlas_system_agent.Stdio.Lengths.{length-scan_longs, length-scan_token}
use atlas_system_agent.Proc.Network.{
  Stream, stream, scanned, discard, discard_line, handle_line, network_lines, network_stats,
}

-- The rounds that a stream may still take.
abbrev rounds : Stream → ℕ
rounds s = if s.at_end then 0 else suc (length s.rest)

rounds-scanned : (rest : Text) → rounds (scanned rest) ≤ suc (length rest)
rounds-scanned [] = omega arith
rounds-scanned (c ∷ s) = omega arith

rounds-scanned_less : (rest : Text) (n : ℕ) → length rest < n → rounds (scanned rest) ≤ n
rounds-scanned_less [] n h = omega arith
rounds-scanned_less (c ∷ s) n h = omega arith

rounds_open : (s : Stream) → s.at_end ≡ false → rounds s ≡ suc (length s.rest)
rounds_open s e = rw e refl

rounds-discard : (s : Text) → rounds (discard s) ≤ suc (length s)
unfolding discard
rounds-discard [] = omega arith
rounds-discard (c ∷ s) = ground (arith, rounds-discard s)

abbrev both :
    {A : Type 0} → Outcome (List A) → Outcome (List A) → Stream → Outcome (List A × Stream)
both first second left = first >>= λ received. second >>= λ more. ok (received ++ more, left)

-- What is left where a line is read is what its second call leaves.
read-left :
    {A : Type 0} (fits : Bool) (first second : Outcome (List A)) (left : Stream) {ms : List A}
    {t : Stream}
    → (if fits then both first second left else err undefined) ≡ ok (ms, t)
    → t ≡ left
read-left true (ok x) (ok y) left e = ground arith
read-left _ _ _ left e = ground arith

length-discard : (s : Text) → length (discard s).rest ≤ length s
unfolding discard
length-discard [] = omega arith
length-discard (c ∷ s) = ground (arith, length-discard s)

module _ {D : Type 0} ⦃fp : Double D⦄ (net_tags : Tags) where
  -- A line that is read leaves fewer rounds.
  handle_line-rounds :
      (s : Stream) {ms : List (Metric D)} {t : Stream}
      → handle_line net_tags s ≡ ok (ms, t)
      → rounds t ≤ length s.rest
  unfolding handle_line
  handle_line-rounds s {ms} {t} e = split_on (scan_token s.rest) refl
    where
      split_on : (p : Option (Text × Text)) → scan_token s.rest ≡ p → rounds t ≤ length s.rest
      split_on none h = let ended : t ≡ scanned [] = ground arith in rw ended (omega arith)
      split_on (some (token, rest)) h =
          let rest1 = (scan_longs 8 rest).1 in
          let left = read-left _ _ _ (scanned (scan_longs 8 rest1).1) (rw (h, handle_line) at e) in
          rw left (
            rounds-scanned_less (scan_longs 8 rest1).1 (length s.rest) (
              omega (
                arith,
                length-scan_longs 8 rest,
                length-scan_longs 8 rest1,
                length-scan_token s.rest h,
              )))

  pub network_lines_next :
      (fuel : ℕ) (s : Stream) {ms : List (Metric D)} {t : Stream} {r : Outcome (List (Metric D))}
      → s.at_end ≡ false
      → handle_line net_tags s ≡ ok (ms, t)
      → network_lines net_tags fuel t ≡ some r
      → network_lines net_tags (suc fuel) s ≡ some (r >>= λ more. ok (ms ++ more))
  unfolding network_lines
  network_lines_next fuel s more read ended = rw (more, read, ended) refl

  network_lines_end :
      (fuel : ℕ) (s : Stream)
      → rounds s < fuel
      → (r : Outcome (List (Metric D))) × (network_lines net_tags fuel s ≡ some r)
  unfolding network_lines
  network_lines_end zero s h = absurd (omega arith)
  network_lines_end (suc fuel) s h = elim (Bool-cases s.at_end) [
    | inl ended ↦ (ok [], rw ended refl)
    | inr more ↦ one more (network_lines_end fuel) (handle_line net_tags s) refl
  ]
    where
      one :
          s.at_end ≡ false
          → ((t : Stream)
              → rounds t < fuel
              → (r : Outcome (List (Metric D))) × (network_lines net_tags fuel t ≡ some r))
          → (o : Outcome (List (Metric D) × Stream)) → handle_line net_tags s ≡ o
          → (r : Outcome (List (Metric D))) × (network_lines net_tags (suc fuel) s ≡ some r)
      one more ends (err e) read = (err e, rw (more, read) refl)
      one more ends (ok (ms, t)) read =
          let fewer : rounds t < fuel =
            omega (arith, handle_line-rounds s read, rounds_open s more) in
          let (r, ended) = ends t fewer in
          ((r >>= λ rest. ok (ms ++ rest)), network_lines_next fuel s more read ended)

  -- Whatever the file holds, the loop ends: a round that does not end it takes a byte, so it makes at
  -- most two rounds more than the file has bytes.
  pub network_stats_ends :
      (content : Option Text)
      → (r : Outcome (List (Metric D))) × (network_stats net_tags content ≡ some r)
  unfolding network_stats discard_line
  network_stats_ends none = (ok [], refl)
  network_stats_ends (some content) =
      network_lines_end (suc (suc (length content)))
        (discard_line (discard_line (stream content false)))
        (omega (arith, rounds-discard (discard content).rest, length-discard content))
