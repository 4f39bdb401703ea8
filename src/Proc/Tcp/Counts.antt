-- ===== src/Proc/Tcp/Counts.antt =====
-- proc.cpp: each connection state's gauge is the number of the lines that have the state.
use atlas_system_agent.Base.{
  ℕ, zero, suc, ◌+◌, ◌≡◌, refl, ap, ◌∙◌, Option, none, some, List, [], ◌∷◌, String, Text, eqb,
  if◌then◌else◌, arith,
}
use atlas_system_agent.Base.Int.{ℤ, pos, negsuc}
use atlas_system_agent.Metrics.{Double, Metric, Tags}
use atlas_system_agent.StrSplit.{StrSplit}
use atlas_system_agent.Proc.Tcp.{
  connection_state, increment, count_state, count_states, sum_tcp_states, state_names, set_gauges,
  tcpstate_gauge, update_tcpstates_for_proto,
}

-- Is this the state `i`?
abbrev pub has_state : ℕ → Option ℤ → ℕ
has_state i (some (pos s)) = if eqb s i then 1 else 0
has_state i _ = 0

-- The lines with the state `i`.
abbrev pub occurrences : StrSplit → List Text → ℕ → ℕ
occurrences split [] i = 0
occurrences split (line ∷ lines) i =
    has_state i (connection_state split line) + occurrences split lines i

abbrev tally : (ℕ → ℕ) → List ℕ
tally f = f 1 ∷ f 2 ∷ f 3 ∷ f 4 ∷ f 5 ∷ f 6 ∷ f 7 ∷ f 8 ∷ f 9 ∷ f 10 ∷ f 11 ∷ []

tally_ext : (f g : ℕ → ℕ) → ((i : ℕ) → f i ≡ g i) → tally f ≡ tally g
tally_ext f g h = rw (h 1, h 2, h 3, h 4, h 5, h 6, h 7, h 8, h 9, h 10, h 11) refl

count_state-tally :
    (o : Option ℤ) (f : ℕ → ℕ) → count_state o (tally f) ≡ tally (λ i. f i + has_state i o)
unfolding count_state increment
count_state-tally none f = tally_ext f (λ i. f i + 0) (λ i. omega arith)
count_state-tally (some (negsuc n)) f = ground arith
count_state-tally (some (pos zero)) f = ground arith
count_state-tally (some (pos (suc zero))) f = ground arith
count_state-tally (some (pos (suc (suc zero)))) f = ground arith
count_state-tally (some (pos (suc (suc (suc zero))))) f = ground arith
count_state-tally (some (pos (suc (suc (suc (suc zero)))))) f = ground arith
count_state-tally (some (pos (suc (suc (suc (suc (suc zero))))))) f = ground arith
count_state-tally (some (pos (suc (suc (suc (suc (suc (suc zero)))))))) f = ground arith
count_state-tally (some (pos (suc (suc (suc (suc (suc (suc (suc zero))))))))) f = ground arith
count_state-tally (some (pos (suc (suc (suc (suc (suc (suc (suc (suc zero)))))))))) f = ground arith
count_state-tally (some (pos (suc (suc (suc (suc (suc (suc (suc (suc (suc zero))))))))))) f =
    ground arith
count_state-tally (some (pos (suc (suc (suc (suc (suc (suc (suc (suc (suc (suc zero)))))))))))) f =
    ground arith
count_state-tally
      (some (pos (suc (suc (suc (suc (suc (suc (suc (suc (suc (suc (suc zero))))))))))))) f =
    ground arith
count_state-tally
      (some (pos (suc (suc (suc (suc (suc (suc (suc (suc (suc (suc (suc (suc s)))))))))))))) f =
    ground arith

count_states-tally :
    (split : StrSplit) (lines : List Text) (f : ℕ → ℕ)
    → count_states split lines (tally f) ≡ tally (λ i. f i + occurrences split lines i)
unfolding count_states
count_states-tally split [] f = tally_ext f (λ i. f i + 0) (λ i. omega arith)
count_states-tally split (line ∷ lines) f =
    let o = connection_state split line in
    ap (count_states split lines) (count_state-tally o f)
    ∙ count_states-tally split lines (λ i. f i + has_state i o)
    ∙ tally_ext (λ i. f i + has_state i o + occurrences split lines i)
        (λ i. f i + occurrences split (line ∷ lines) i) (λ i. omega arith)

module _ {D : Type 0} ⦃fp : Double D⦄ (split : StrSplit) (net_tags : Tags) (proto : String) where
  -- The gauges of the states from `i` on.
  abbrev pub numbered : List Text → ℕ → List String → List (Metric D)
  numbered lines i [] = []
  numbered lines i (state ∷ states) =
      tcpstate_gauge net_tags proto state (occurrences split lines i)
      ∷ numbered lines (i + 1) states

  -- One pass that counts into eleven cells gives every state the number of the lines behind the
  -- header that have it; lines that are too short and states out of range count nowhere.
  pub update_tcpstates-numbered :
      (header : Text) (lines : List Text)
      → update_tcpstates_for_proto split net_tags proto (some (header ∷ lines))
        ≡ numbered lines 1 state_names
  unfolding update_tcpstates_for_proto sum_tcp_states
  update_tcpstates-numbered header lines =
      ap (set_gauges {D = D} ⦃fp = fp⦄ net_tags proto state_names) (
        count_states-tally split lines (λ i. 0)
        ∙ tally_ext (λ i. 0 + occurrences split lines i) (occurrences split lines)
            (λ i. omega arith))
