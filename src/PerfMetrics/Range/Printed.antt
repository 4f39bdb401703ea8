-- ===== src/PerfMetrics/Range/Printed.antt =====
-- lib/collectors/perf_metrics/src/perf_metrics.h: `parse_range` reads the kernel's lists of ranges.
use atlas_system_agent.Base.{
  ℕ, zero, suc, ◌-◌, ◌^◌, ◌≤◌, ◌<◌, ◌≡◌, refl, ap, sym, ◌∙◌, Bool, true, false, none, some, List,
  [], ◌∷◌, ◌++◌, Text, length, replicate, arith, append_assoc, append-nil, subst,
}
use atlas_system_agent.Base.Numbers.{skip_space}
use atlas_system_agent.Base.Outcome.{ok}
use atlas_system_agent.PerfMetrics.Range.{parse_range, parse_range_rounds}
use atlas_system_agent.PerfMetrics.Range.Rounds.{
  Span, print_span, behind, length-behind, print_span-Reads,
}

abbrev pub print_spans : List Span → Text
print_spans [] = []
print_spans (s ∷ []) = print_span s (b'\n' ∷ [])
print_spans (s ∷ t ∷ spans) = print_span s (b',' ∷ print_spans (t ∷ spans))

-- The ranges from `from` on: each is at or behind the end of the one in front of it.
abbrev pub Ascending : ℕ → List Span → Type 0
Ascending from [] = Unit
Ascending from ((a, b) ∷ spans) = (from ≤ a) × (a ≤ b) × (b < 2 ^ 31 - 1) × Ascending (suc b) spans

-- Which of the CPUs from `from` on are in a range, up to the last that is.
abbrev pub members : ℕ → List Span → List Bool
members from [] = []
members from ((a, b) ∷ spans) =
    replicate (a - from) false ++ replicate (suc b - a) true ++ members (suc b) spans

end_rounds : (fuel : ℕ) (r : List Bool) → 0 < fuel → parse_range_rounds fuel [] none r ≡ some (ok r)
unfolding parse_range_rounds skip_space
end_rounds zero r h = absurd (omega arith)
end_rounds (suc fuel) r h = refl

members_step : (r x y m : List Bool) → ((r ++ x) ++ y) ++ m ≡ r ++ ((x ++ y) ++ m)
members_step r x y m = ap (λ v. v ++ m) (append_assoc r x y) ∙ append_assoc r (x ++ y) m

-- The rounds on printed ranges, behind the CPUs that are known.
rounds-printed :
    (spans : List Span) (fuel : ℕ) (r : List Bool)
    → Ascending (length r) spans
    → length (print_spans spans) < fuel
    → parse_range_rounds fuel (print_spans spans) none r ≡ some (ok (r ++ members (length r) spans))
unfolding parse_range_rounds
rounds-printed [] fuel r up h = end_rounds fuel r h ∙ ap (λ v. some (ok v)) (sym (append-nil r))
rounds-printed ((a, b) ∷ []) fuel r (from, le, fit, up) h =
    let (left, less, e) = print_span-Reads r a b from le b'\n' [] refl refl fuel fit h in
    e
    ∙ end_rounds left (behind r a b from le) less
    ∙ ap (λ v. some (ok v))
        (sym (append-nil (behind r a b from le))
          ∙ members_step r (replicate (a - length r) false) (replicate (suc b - a) true) [])
rounds-printed ((a, b) ∷ t ∷ spans) fuel r (from, le, fit, up) h =
    let (left, less, e) =
      print_span-Reads r a b from le b',' (print_spans (t ∷ spans)) refl refl fuel fit h in
    let l = length-behind r a b from le in
    let rest =
      rounds-printed (t ∷ spans) left (behind r a b from le)
        (subst (λ k. Ascending k (t ∷ spans)) (sym l) up) less in
    e
    ∙ rest
    ∙ ap (λ k. some (ok (behind r a b from le ++ members k (t ∷ spans)))) l
    ∙ ap (λ v. some (ok v))
        (members_step r (replicate (a - length r) false) (replicate (suc b - a) true)
          (members (suc b) (t ∷ spans)))

-- Of a printed list of ascending ranges, as the kernel prints the CPUs that are online, parse_range
-- makes the vector that holds true at exactly the members, and ends at the last one.
pub parse_range_printed :
    (spans : List Span)
    → Ascending 0 spans
    → parse_range (some (print_spans spans)) [] ≡ some (ok (members 0 spans))
unfolding parse_range
parse_range_printed spans up =
    rounds-printed spans (suc (length (print_spans spans))) [] up (omega arith)
