-- ===== src/PerfMetrics/Sized.antt =====
-- lib/collectors/perf_metrics/src: when `collect` returns, and that the counters stay in step with
-- the CPUs.
use atlas_system_agent.Base.{
  ℕ, ◌≡◌, ◌≢◌, ◌⊎◌, refl, Bool, true, false, Option, none, List, [], ◌∷◌, ◌++◌, length, arith,
  if◌then◌else◌, if_cases, inl, inr, map, String, eqb,
}
use atlas_system_agent.Base.Outcome.{ok}
use atlas_system_agent.Metrics.{Double, of_ℕ, Metric}
use atlas_system_agent.PerfMetrics.{PerfCount, PerfCounter, open_events, read_counts}
use atlas_system_agent.PerfMetrics.Counters.{
  IsSized, Allowed, open_cpus-Allowed, open_events-IsSized, read_delta_returns,
}
use atlas_system_agent.PerfMetrics.Collect.{
  PerfMetrics, Answers, HwEvent, reopen, reopened, denied, hw_instructions, hw_cycles,
  hw_cache_refs, hw_cache_misses, hw_branch_insts, hw_branch_misses, same_cpus,
  open_perf_counters_if_needed, update_ds, record_value, rates, same_length, update_rate,
  collect_enabled, collect,
}

-- All counters have the size of the CPUs.
abbrev pub Sized : PerfMetrics → Type 0
Sized p =
    IsSized (length p.online_cpus) p.cycles
    × IsSized (length p.online_cpus) p.instructions
    × IsSized (length p.online_cpus) p.cache_refs
    × IsSized (length p.online_cpus) p.cache_misses
    × IsSized (length p.online_cpus) p.branch_insts
    × IsSized (length p.online_cpus) p.branch_misses

abbrev pub IsValid : PerfMetrics → Type 0
IsValid p = (p.disabled ≡ true) ⊎ Sized p

same_length-length : (xs ys : List ℕ) → length xs ≡ length ys → same_length xs ys ≡ true
same_length-length [] [] h = refl
same_length-length [] (y ∷ ys) h = absurd (omega arith)
same_length-length (x ∷ xs) [] h = absurd (omega arith)
same_length-length (x ∷ xs) (y ∷ ys) h = same_length-length xs ys (omega arith)

module _ {D : Type 0} ⦃fp : Double D⦄ where
  rates_returns :
      (name : String) (xs ys : List ℕ)
      → length xs ≡ length ys
      → (sent : List (Metric D)) × (rates name xs ys ≡ ok sent)
  unfolding rates
  rates_returns name [] ys h = ([], refl)
  rates_returns name (x ∷ xs) [] h = absurd (omega arith)
  rates_returns name (x ∷ xs) (y ∷ ys) h =
      let (sent, e) = rates_returns name xs ys (omega arith) in
      (
        if eqb y 0 then sent else record_value name (fp.div (of_ℕ x) (of_ℕ y)) ∷ sent,
        rw (e, rates) refl,
      )

module _ {D : Type 0} ⦃fp : Double D⦄ (to_u64 : D → ℕ) where
  update_ds_returns :
      (n : ℕ) (read : ℕ → Option PerfCount) (c : PerfCounter) (name : String)
      → IsSized n c
      → (res : List (Metric D) × PerfCounter) × (update_ds to_u64 read c name ≡ ok res)
        × IsSized n res.1
  unfolding update_ds
  update_ds_returns n read c name h =
      let (res, e, sized, _) = read_delta_returns to_u64 n read c h in
      ((map (λ v. record_value name (of_ℕ v)) res.0, res.1), rw (e, update_ds) refl, sized)

  update_rate_returns :
      (n : ℕ) (read : ℕ → Option PerfCount) (a b : PerfCounter) (name : String)
      → IsSized n a
      → IsSized n b
      → (read_counts read a.fds ≢ none) × (read_counts read b.fds ≢ none)
      → (res : List (Metric D) × PerfCounter × PerfCounter) × (update_rate to_u64 read a b name
          ≡ ok res)
        × IsSized n res.1
        × IsSized n res.2
  unfolding update_rate
  update_rate_returns n read a b name ha hb reads =
      let (xs, ex, sx, lx) = read_delta_returns to_u64 n read a ha in
      let (ys, ey, sy, ly) = read_delta_returns to_u64 n read b hb in
      let l : length xs.0 ≡ length ys.0 = omega (arith, lx reads.0, ly reads.1) in
      let (sent, r) = rates_returns name xs.0 ys.0 l in
      ((sent, xs.1, ys.1), rw (ex, ey, same_length-length xs.0 ys.0 l, r, update_rate) refl, sx, sy)

-- The events whose counters are opened without a look at what the open returns.
abbrev pub AllAllowed : Answers → Type 0
AllAllowed a =
    Allowed (a.perf_open hw_cycles)
    × Allowed (a.perf_open hw_cache_refs)
    × Allowed (a.perf_open hw_cache_misses)
    × Allowed (a.perf_open hw_branch_insts)
    × Allowed (a.perf_open hw_branch_misses)

reopen_returned-IsSized :
    (a : Answers) (event : HwEvent) (c : PerfCounter)
    → (reopen a event c).1 ≡ true
    → IsSized (length a.get_online_cpus) (reopen a event c).0
unfolding reopen
reopen_returned-IsSized a event c e = open_events-IsSized (a.perf_open event) a.get_online_cpus c e

reopen-IsSized :
    (a : Answers) (event : HwEvent) (c : PerfCounter)
    → Allowed (a.perf_open event)
    → IsSized (length a.get_online_cpus) (reopen a event c).0
unfolding reopen open_events
reopen-IsSized a event c h =
    reopen_returned-IsSized a event c (open_cpus-Allowed (a.perf_open event) 0 a.get_online_cpus h)

open_perf_counters_if_needed-IsValid :
    (a : Answers) (p : PerfMetrics)
    → AllAllowed a
    → IsValid p
    → IsValid (open_perf_counters_if_needed a p).0
unfolding open_perf_counters_if_needed
open_perf_counters_if_needed-IsValid a p h valid =
    if_cases (λ (r : PerfMetrics × Bool). IsValid r.0) (same_cpus a.get_online_cpus p.online_cpus)
      (p, true) _ (λ _. valid)
      (λ _.
        if_cases (λ (r : PerfMetrics × Bool). IsValid r.0)
          (reopen a hw_instructions p.instructions).1 (reopened a p, true) (denied a p, false)
          (λ e. inr (
            reopen-IsSized a hw_cycles p.cycles h.0,
            reopen_returned-IsSized a hw_instructions p.instructions e,
            reopen-IsSized a hw_cache_refs p.cache_refs h.1,
            reopen-IsSized a hw_cache_misses p.cache_misses h.2,
            reopen-IsSized a hw_branch_insts p.branch_insts h.3,
            reopen-IsSized a hw_branch_misses p.branch_misses h.4,
          ))
          (λ _. inl refl))

-- The descriptors of the counters whose rates are computed can be read.
abbrev pub RatesReadable : Answers → PerfMetrics → Type 0
RatesReadable a p =
    (read_counts a.read p.cache_misses.fds ≢ none)
    × (read_counts a.read p.cache_refs.fds ≢ none)
    × (read_counts a.read p.branch_misses.fds ≢ none)
    × (read_counts a.read p.branch_insts.fds ≢ none)

collect_enabled-IsValid :
    {D : Type 0} ⦃fp : Double D⦄ (to_u64 : D → ℕ) (a : Answers) (p : PerfMetrics)
    → Sized p
    → RatesReadable a p
    → AllAllowed a
    → (res : List (Metric D) × PerfMetrics) × (collect_enabled to_u64 a p ≡ ok res) × IsValid res.1
unfolding collect_enabled
collect_enabled-IsValid to_u64 a p sized reads h =
    let n = length p.online_cpus in
    let (i, ei, si) =
      update_ds_returns to_u64 n a.read p.instructions "sys.cpu.instructions" sized.1 in
    let (c, ec, sc) = update_ds_returns to_u64 n a.read p.cycles "sys.cpu.cycles" sized.0 in
    let (m, em, sm, sr) =
      update_rate_returns to_u64 n a.read p.cache_misses p.cache_refs "sys.cpu.cacheMissRate"
        sized.3 sized.2 (reads.0, reads.1) in
    let (b, eb, sb, st) =
      update_rate_returns to_u64 n a.read p.branch_misses p.branch_insts
        "sys.cpu.branchMispredictionRate" sized.5 sized.4 (reads.2, reads.3) in
    let read : PerfMetrics = record {
      disabled = p.disabled;
      online_cpus = p.online_cpus;
      cycles = c.1;
      instructions = i.1;
      cache_refs = m.2;
      cache_misses = m.1;
      branch_insts = b.2;
      branch_misses = b.1;
    } in
    (
      (i.0 ++ c.0 ++ m.0 ++ b.0, (open_perf_counters_if_needed a read).0),
      rw (ei, ec, em, eb, collect_enabled) refl,
      open_perf_counters_if_needed-IsValid a read h (inr (sc, si, sr, sm, st, sb)),
    )

-- From counters that have the size of the CPUs, where the cache and branch counters can be read and
-- no CPU denies an event but that of the instructions, collect returns, and leaves the collector
-- disabled or with counters of the size of the CPUs, also after a change of the CPUs.
pub collect-IsValid :
    {D : Type 0} ⦃fp : Double D⦄ (to_u64 : D → ℕ) (a : Answers) (p : PerfMetrics)
    → IsValid p
    → RatesReadable a p
    → AllAllowed a
    → (res : List (Metric D) × PerfMetrics) × (collect to_u64 a p ≡ ok res) × IsValid res.1
unfolding collect
collect-IsValid to_u64 a p (inl off) reads h = (([], p), rw (off, collect) refl, inl off)
collect-IsValid {D} to_u64 a p (inr sized) reads h =
    if_cases (λ r. (res : List (Metric D) × PerfMetrics) × (r ≡ ok res) × IsValid res.1) p.disabled
      (ok ([], p)) (collect_enabled to_u64 a p) (λ off. (([], p), refl, inl off))
      (λ on. collect_enabled-IsValid to_u64 a p sized reads h)
