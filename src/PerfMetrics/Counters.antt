-- ===== src/PerfMetrics/Counters.antt =====
-- lib/collectors/perf_metrics/src/perf_metrics.h: the sizes of a counter's vectors, and reads without a
-- fault.
use atlas_system_agent.Base.{
  ℕ, zero, suc, ◌-◌, ◌≤◌, ◌≡◌, ◌≢◌, refl, Bool, true, false, Option, none, some, List, [], ◌∷◌,
  ◌++◌, length, take, replicate, arith, length-append, Option-cases, inl, inr, ap,
}
use atlas_system_agent.Base.Outcome.{ok, ◌>>=◌}
use atlas_system_agent.Metrics.{Double}
use atlas_system_agent.PerfMetrics.{
  PerfCount, no_count, PerfCounter, Opened, eacces, enoent, open_cpus, open_events, close_events,
  resize, read_counts, delta_from, cpu_deltas, read_delta,
}

-- A counter for `n` CPUs, with a previous count for each.
abbrev pub IsSized : ℕ → PerfCounter → Type 0
IsSized n c = (length c.fds ≡ n) × (length c.prev_vals ≡ n)

-- No CPU denies the event.
abbrev pub Allowed : (ℕ → Opened) → Type 0
Allowed perf_open = (cpu : ℕ) → (perf_open cpu ≢ eacces) × (perf_open cpu ≢ enoent)

length-replicate {ℓ} : {A : Type ℓ} (n : ℕ) (a : A) → length (replicate n a) ≡ n
length-replicate zero a = refl
length-replicate (suc n) a = omega (arith, length-replicate n a)

length-open_cpus :
    (perf_open : ℕ → Opened) (i : ℕ) (online : List Bool)
    → length (open_cpus perf_open i online).0 ≡ length online
unfolding open_cpus
length-open_cpus perf_open i [] = refl
length-open_cpus perf_open i (false ∷ online) =
    omega (arith, length-open_cpus perf_open (suc i) online)
length-open_cpus perf_open i (true ∷ online) = ground (
  arith,
  length-replicate {A = Option ℕ} (length online) none,
  length-open_cpus perf_open (suc i) online,
)

pub open_cpus-Allowed :
    (perf_open : ℕ → Opened) (i : ℕ) (online : List Bool)
    → Allowed perf_open
    → (open_cpus perf_open i online).1 ≡ true
unfolding open_cpus
open_cpus-Allowed perf_open i [] h = refl
open_cpus-Allowed perf_open i (false ∷ online) h = open_cpus-Allowed perf_open (suc i) online h
open_cpus-Allowed perf_open i (true ∷ online) h =
    ground (arith, h i, open_cpus-Allowed perf_open (suc i) online h)

length-take_enough {ℓ} : {A : Type ℓ} (n : ℕ) (xs : List A) → n ≤ length xs → length (take n xs) ≡ n
length-take_enough zero xs h = refl
length-take_enough (suc n) [] h = omega arith
length-take_enough (suc n) (x ∷ xs) h = omega (arith, length-take_enough n xs (omega arith))

length-resize : (n : ℕ) (xs : List PerfCount) → length (resize no_count n xs) ≡ n
length-resize n xs =
    let more : List PerfCount = replicate (n - length xs) no_count in
    length-take_enough n (xs ++ more)
      (omega (arith, length-append xs more, length-replicate (n - length xs) no_count))

-- An open that returns true leaves a counter with the size of the CPUs.
pub open_events-IsSized :
    (perf_open : ℕ → Opened) (online : List Bool) (c : PerfCounter)
    → (open_events perf_open online c).2 ≡ true
    → IsSized (length online) (open_events perf_open online c).1
unfolding open_events close_events
open_events-IsSized perf_open online c e =
    let opened = length-open_cpus perf_open 0 online in
    ground (arith, length-resize (length (open_cpus perf_open 0 online).0) c.prev_vals)

length-read_counts :
    (read : ℕ → Option PerfCount) (fds : List (Option ℕ)) (counts : List PerfCount)
    → read_counts read fds ≡ some counts
    → length counts ≡ length fds
unfolding read_counts
length-read_counts read [] counts e = ground arith
length-read_counts read (none ∷ fds) counts e = elim (Option-cases (read_counts read fds)) [
  | inl h ↦ ground arith
  | inr (more, h) ↦ ground (arith, length-read_counts read fds more h)
]
length-read_counts read (some fd ∷ fds) counts e = elim (Option-cases (read_counts read fds)) [
  | inl h ↦ ground arith
  | inr (more, h) ↦ ground (arith, length-read_counts read fds more h)
]

module _ {D : Type 0} ⦃fp : Double D⦄ (to_u64 : D → ℕ) where
  cpu_deltas_returns :
      (now prev : List PerfCount)
      → length now ≡ length prev
      → (res : List ℕ) × (cpu_deltas to_u64 now prev ≡ ok res) × (length res ≡ length now)
  unfolding cpu_deltas
  cpu_deltas_returns [] prev h = ([], refl, refl)
  cpu_deltas_returns (n ∷ now) [] h = cc
  cpu_deltas_returns (n ∷ now) (p ∷ prev) h =
      let (res, e, l) = cpu_deltas_returns now prev (omega arith) in
      (
        delta_from to_u64 n p ∷ res,
        ap (λ r. r >>= λ more. ok (delta_from to_u64 n p ∷ more)) e,
        omega arith,
      )

  -- A read of a counter that has a previous count for each descriptor.
  pub read_delta_returns :
      (n : ℕ) (read : ℕ → Option PerfCount) (c : PerfCounter)
      → IsSized n c
      → (res : List ℕ × PerfCounter) × (read_delta to_u64 read c ≡ ok res)
        × IsSized n res.1
        × ((read_counts read c.fds ≢ none) → length res.0 ≡ n)
  unfolding read_delta
  read_delta_returns n read c h = elim (Option-cases (read_counts read c.fds)) [
    | inl e ↦ (([], c), rw (e, read_delta) refl, h, λ ne. absurd (ne e))
    | inr (now, e) ↦
        let l = length-read_counts read c.fds now e in
        let (res, r, k) = cpu_deltas_returns now c.prev_vals (omega arith) in
        (
          (res, record { fds = c.fds; prev_vals = now }),
          rw (e, r, read_delta) refl,
          (h.0, omega arith),
          λ _. omega arith,
        )
  ]
