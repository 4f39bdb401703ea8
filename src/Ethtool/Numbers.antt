-- ===== src/Ethtool/Numbers.antt =====
-- ethtool.cpp: which numbers `ethtool_stats` sends, and when it ends the process.
use atlas_system_agent.Base.{
  ◌≡◌, refl, sym, ap, ◌∙◌, ◌⊎◌, inl, inr, Bool, true, false, ◌||◌, Option, none, some, List, [],
  ◌∷◌, ◌++◌, Text, codes, if◌then◌else◌, get_elem?, All, arith, Bool-cases, eqb_iff,
}
use atlas_system_agent.Base.Outcome.{Outcome, ok, err, terminated, ◌>>=◌}
use atlas_system_agent.Metrics.{Double, Metric, Tags}
use atlas_system_agent.Ntp.{Parsed, number, invalid_argument, out_of_range}
use atlas_system_agent.StrSplit.{StrSplit, IsStrSplit, allow_empty}
use atlas_system_agent.Util.Prefix.{is_prefix}
use atlas_system_agent.Ethtool.{
  contains, colon, parse_number, Stat, stat_of, stat_metric, update_metric, ethtool_stats,
}

-- The text up to the first colon, or all of it.
unfoldable pub upto_colon : Text → Text
upto_colon [] = []
upto_colon (c ∷ s) = let rest = upto_colon s in if colon c then [] else c ∷ rest

-- The text between the first colon and the next one, or the end.
unfoldable pub behind_colon : Text → Text
unfolding upto_colon
behind_colon [] = []
behind_colon (c ∷ s) = let rest = behind_colon s in if colon c then upto_colon s else rest

abbrev has_colon : Text → Bool
has_colon [] = false
has_colon (c ∷ s) = colon c || has_colon s

-- A text has a colon behind a part without one, or it has none.
abbrev Cut : Text → Type 0
Cut s =
    ((t : Text) × (rest : Text) × (s ≡ t ++ b':' ∷ rest)
      × All (λ c. colon c ≡ false) t
      × (upto_colon s ≡ t)
      × (behind_colon s ≡ upto_colon rest))
    ⊎ (All (λ c. colon c ≡ false) s × (upto_colon s ≡ s) × (has_colon s ≡ false))

cut : (s : Text) → Cut s
unfolding upto_colon behind_colon
cut [] = inr (tt, refl, refl)
cut (c ∷ s) = elim (Bool-cases (colon c)) [
  | inl h ↦ inl ([], s, rw ((eqb_iff c b':').0 h) refl, tt, rw h refl, rw h refl)
  | inr h ↦ elim (cut s) [
    | inl (t, rest, e, clean, up, behind) ↦
        inl (c ∷ t, rest, ap (λ u. c ∷ u) e, (h, clean), rw (h, up) refl, rw h behind)
    | inr (clean, up, no_colon) ↦ inr ((h, clean), rw (h, up) refl, rw (h, no_colon) refl)
  ]
]

module _ (split : StrSplit) (laws : IsStrSplit split) where
  -- The first piece is the text up to the first colon.
  split-head : (s : Text) → (more : List Text) × (split colon allow_empty s ≡ upto_colon s ∷ more)
  split-head s = elim (cut s) [
    | inl (t, rest, e, clean, up, behind) ↦ (
      split colon allow_empty rest,
      ap (split colon allow_empty) e
          ∙ laws.first_piece colon allow_empty t b':' rest clean refl
          ∙ ap (λ u. u ∷ split colon allow_empty rest) (sym up),
    )
    | inr (clean, up, no_colon) ↦
        ([], laws.last_piece colon allow_empty s clean ∙ ap (λ u. u ∷ []) (sym up))
  ]

  -- The second piece is the text behind the first colon.
  split-second :
      (s : Text)
      → has_colon s ≡ true
      → get_elem? (split colon allow_empty s) 1 ≡ some (behind_colon s)
  split-second s h = elim (cut s) [
    | inr (clean, up, no_colon) ↦ absurd (ground arith)
    | inl (t, rest, e, clean, up, behind) ↦
        let (more, pieces) = split-head rest in
        ap (λ u. get_elem? (split colon allow_empty u) 1) e
        ∙ ap (λ l. get_elem? l 1)
            (laws.first_piece colon allow_empty t b':' rest clean refl ∙ ap (λ l. t ∷ l) pieces)
        ∙ ap some (sym behind)
  ]

is_prefix-has_colon : (p s : Text) → is_prefix p s ≡ true → has_colon p ≡ true → has_colon s ≡ true
is_prefix-has_colon [] s h e = absurd (ground arith)
is_prefix-has_colon (x ∷ p) [] h e = absurd (ground arith)
is_prefix-has_colon (x ∷ p) (c ∷ s) h e = ground (arith, is_prefix-has_colon p s)

contains-has_colon :
    (needle s : Text) → contains needle s ≡ true → has_colon needle ≡ true → has_colon s ≡ true
contains-has_colon needle [] h e = is_prefix-has_colon needle [] h e
contains-has_colon needle (c ∷ s) h e =
    ground (arith, is_prefix-has_colon needle (c ∷ s), contains-has_colon needle s)

stat_of-has_colon : (line : Text) {s : Stat} → stat_of line ≡ some s → has_colon line ≡ true
unfolding stat_of
stat_of-has_colon line e = ground (
  arith,
  contains-has_colon (codes "bw_in_allowance_exceeded:") line,
  contains-has_colon (codes "bw_out_allowance_exceeded:") line,
  contains-has_colon (codes "conntrack_allowance_exceeded:") line,
  contains-has_colon (codes "conntrack_allowance_available:") line,
  contains-has_colon (codes "linklocal_allowance_exceeded:") line,
  contains-has_colon (codes "pps_allowance_exceeded:") line,
)

-- What a line says, if it has a statistic that is looked for.
abbrev says : Text → Option Stat → Option (Stat × Parsed)
says line none = none
says line (some s) = some (s, parse_number (behind_colon line))

-- Some statistic that is looked for has a number that does not fit `long long`.
unfoldable pub any_out_of_range : List Text → Bool
any_out_of_range [] = false
any_out_of_range (line ∷ lines) =
    let rest = any_out_of_range lines in
    elim (says line (stat_of line)) [ some (s, out_of_range) ↦ true | _ ↦ rest ]

module _ {D : Type 0} ⦃fp : Double D⦄ (net_tags : Tags) (iface : Text) where
  -- The statistics with a number, in order.
  unfoldable pub sent : List Text → List (Metric D)
  sent [] = []
  sent (line ∷ lines) = elim (says line (stat_of line)) [
    | some (s, number n) ↦ stat_metric net_tags iface s n ∷ sent lines
    | _ ↦ sent lines
  ]

  abbrev outcome : List Text → Outcome (List (Metric D))
  outcome lines = if any_out_of_range lines then err terminated else ok (sent lines)

  abbrev of_number : Stat → Parsed → Outcome (List (Metric D))
  of_number s (number n) = ok (stat_metric net_tags iface s n ∷ [])
  of_number s invalid_argument = ok []
  of_number s out_of_range = err terminated

  update_metric-of_number :
      (split : StrSplit) (s : Stat) (line field : Text) (p : Parsed)
      → get_elem? (split colon allow_empty line) 1 ≡ some field
      → parse_number field ≡ p
      → update_metric net_tags iface split s line ≡ of_number s p
  unfolding update_metric
  update_metric-of_number split s line field (number n) f q = rw (f, update_metric) (rw q refl)
  update_metric-of_number split s line field _ f q = rw (f, update_metric) (rw q refl)

  ethtool_stats_next :
      (split : StrSplit) (s : Stat) (line : Text) (lines : List Text)
      (m : Outcome (List (Metric D)))
      → stat_of line ≡ some s
      → update_metric net_tags iface split s line ≡ m
      → ethtool_stats net_tags iface split lines ≡ outcome lines
      → ethtool_stats net_tags iface split (line ∷ lines)
        ≡ (m >>= λ ms. outcome lines >>= λ more. ok (ms ++ more))
  unfolding ethtool_stats
  ethtool_stats_next split s line lines m e u ih = rw (e, ethtool_stats) (rw (u, ih) refl)

  outcome_next :
      (s : Stat) (line : Text) (lines : List Text) (p : Parsed)
      → stat_of line ≡ some s
      → parse_number (behind_colon line) ≡ p
      → (of_number s p >>= λ ms. outcome lines >>= λ more. ok (ms ++ more)) ≡ outcome (line ∷ lines)
  unfolding any_out_of_range sent
  outcome_next s line lines (number n) e q =
      rw (e, any_out_of_range, sent) (rw q (prepend (any_out_of_range lines)))
    where
      prepend :
          (b : Bool)
          → ((if b then err terminated else ok (sent lines)) >>= λ more.
              ok (stat_metric net_tags iface s n ∷ more))
            ≡ (if b then err terminated else ok (stat_metric net_tags iface s n ∷ sent lines))
      prepend true = refl
      prepend false = refl
  outcome_next s line lines invalid_argument e q =
      rw (e, any_out_of_range, sent) (rw q (same (any_out_of_range lines)))
    where
      same :
          (b : Bool)
          → ((if b then err terminated else ok (sent lines)) >>= λ more. ok more)
            ≡ (if b then err terminated else ok (sent lines))
      same true = refl
      same false = refl
  outcome_next s line lines out_of_range e q = rw (e, any_out_of_range, sent) (rw q refl)

  -- A statistic's number is what stands behind the first colon of its line: `ethtool_stats` ends the
  -- process exactly where the number of a statistic that is looked for is out of the range of
  -- `long long`; else it sends all their numbers in order, and skips those that are no numbers.
  pub ethtool_stats_lem :
      (split : StrSplit)
      → IsStrSplit split
      → (lines : List Text)
      → ethtool_stats net_tags iface split lines
        ≡ (if any_out_of_range lines then err terminated else ok (sent lines))
  unfolding ethtool_stats any_out_of_range sent
  ethtool_stats_lem split laws [] = refl
  ethtool_stats_lem split laws (line ∷ lines) =
      step (stat_of line) refl (ethtool_stats_lem split laws lines)
    where
      step :
          (o : Option Stat)
          → stat_of line ≡ o
          → ethtool_stats net_tags iface split lines ≡ outcome lines
          → ethtool_stats net_tags iface split (line ∷ lines) ≡ outcome (line ∷ lines)
      step none e ih = rw (e, ethtool_stats, any_out_of_range, sent) ih
      step (some s) e ih =
          let p = parse_number (behind_colon line) in
          let second = split-second split laws line (stat_of-has_colon line e) in
          ethtool_stats_next split s line lines (of_number s p) e
            (update_metric-of_number split s line (behind_colon line) p second refl) ih
          ∙ outcome_next s line lines p e refl
