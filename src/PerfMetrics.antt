-- ===== src/PerfMetrics.antt =====
-- lib/collectors/perf_metrics/src/perf_metrics.h: `perf_count` and `PerfCounter`. What
-- perf_event_open and read answer is a parameter. A file descriptor of -1 is `none`.
pub mod Range
pub mod Collect
pub mod Counters
pub mod Sized
use atlas_system_agent.Base.{
  ℕ, zero, suc, ◌+◌, ◌-◌, ◌%◌, Bool, true, false, Option, none, some, List, [], ◌∷◌, ◌++◌, eqb,
  if◌then◌else◌, length, take, replicate,
}
use atlas_system_agent.Base.Numbers.{u64}
use atlas_system_agent.Base.Outcome.{Outcome, ok, err, undefined, ◌>>=◌}
use atlas_system_agent.Metrics.{Double, of_ℕ}

pub record PerfCount : Type 0 where
  pub raw_value : ℕ
  pub time_enabled : ℕ
  pub time_running : ℕ

-- The difference of two `uint64_t`.
abbrev pub u64_difference : ℕ → ℕ → ℕ
u64_difference a b = (a + (u64 - b)) % u64

abbrev pub no_count : PerfCount
no_count = record { raw_value = 0; time_enabled = 0; time_running = 0 }

-- `to_u64` is the conversion to `uint64_t`.
module _ {D : Type 0} ⦃fp : Double D⦄ (to_u64 : D → ℕ) where
  -- 0.5 is the exact quotient of 1 and 2.
  abbrev half : D
  half = fp.div (of_ℕ 1) (of_ℕ 2)

  unfoldable pub delta_from : PerfCount → PerfCount → ℕ
  delta_from now prev =
      let running = u64_difference now.time_running prev.time_running in
      let enabled = u64_difference now.time_enabled prev.time_enabled in
      let raw = u64_difference now.raw_value prev.raw_value in
      if eqb now.time_running 0
      then 0
      else to_u64 (fp.div (fp.mul (of_ℕ raw) (of_ℕ enabled)) (fp.add (of_ℕ running) half))

  -- The loop over `fds_`; a read of `prev_vals` out of bounds is undefined.
  unfoldable pub cpu_deltas : List PerfCount → List PerfCount → Outcome (List ℕ)
  unfolding delta_from
  cpu_deltas [] prev = ok []
  cpu_deltas (n ∷ now) [] = err undefined
  cpu_deltas (n ∷ now) (p ∷ prev) = cpu_deltas now prev >>= λ more. ok (delta_from n p ∷ more)

pub record PerfCounter : Type 0 where
  pub fds : List (Option ℕ)
  pub prev_vals : List PerfCount

unfoldable pub new_counter : PerfCounter
new_counter = record { fds = []; prev_vals = [] }

-- What `perf_open` gives: a descriptor, or an error.
pub data Opened : Type 0 where
  opened : ℕ → Opened
  eacces enoent other_error : Opened

abbrev pub open_fds : List (Option ℕ) → List ℕ
open_fds [] = []
open_fds (none ∷ fds) = open_fds fds
open_fds (some fd ∷ fds) = fd ∷ open_fds fds

-- The descriptors that are closed, and the counter without them.
unfoldable pub close_events : PerfCounter → List ℕ × PerfCounter
close_events c =
    (open_fds c.fds, record { fds = replicate (length c.fds) none; prev_vals = c.prev_vals })

-- The loop over the CPUs from the `i`th on: the descriptors, and false where it returns early.
unfoldable pub open_cpus : (ℕ → Opened) → ℕ → List Bool → List (Option ℕ) × Bool
open_cpus perf_open i [] = ([], true)
open_cpus perf_open i (false ∷ online) =
    let rest = open_cpus perf_open (suc i) online in (none ∷ rest.0, rest.1)
open_cpus perf_open i (true ∷ online) =
    let rest = open_cpus perf_open (suc i) online in
    let denied : List (Option ℕ) × Bool = (replicate (suc (length online)) none, false) in
    elim (perf_open i) [
      | opened fd ↦ (some fd ∷ rest.0, rest.1)
      | eacces ↦ denied
      | enoent ↦ denied
      | other_error ↦ (none ∷ rest.0, rest.1)
    ]

-- `std::vector::resize`
abbrev pub resize {ℓ} : {A : Type ℓ} → A → ℕ → List A → List A
resize a n xs = take n (xs ++ replicate (n - length xs) a)

-- The descriptors that were closed are in front.
unfoldable pub open_events : (ℕ → Opened) → List Bool → PerfCounter → List ℕ × PerfCounter × Bool
unfolding close_events open_cpus
open_events perf_open online c =
    let (closed, before) = close_events c in
    let (fds, success) = open_cpus perf_open 0 online in
    let prev_vals =
      if success then resize no_count (length fds) before.prev_vals else before.prev_vals in
    (closed, record { fds = fds; prev_vals = prev_vals }, success)

-- The counts that `read` gives; `none` where one of the reads is not complete.
unfoldable pub read_counts : (ℕ → Option PerfCount) → List (Option ℕ) → Option (List PerfCount)
read_counts read [] = some []
read_counts read (none ∷ fds) = elim (read_counts read fds) [
  | none ↦ none
  | some counts ↦ some (no_count ∷ counts)
]
read_counts read (some fd ∷ fds) = elim (read fd) [
  | none ↦ none
  | some count ↦ elim (read_counts read fds) [ none ↦ none | some counts ↦ some (count ∷ counts) ]
]

unfoldable pub read_delta :
    {D : Type 0} ⦃fp : Double D⦄ (to_u64 : D → ℕ)
    → (ℕ → Option PerfCount)
    → PerfCounter
    → Outcome (List ℕ × PerfCounter)
unfolding read_counts cpu_deltas
read_delta to_u64 read c = elim (read_counts read c.fds) [
  | none ↦ ok ([], c)
  | some now ↦
      cpu_deltas to_u64 now c.prev_vals >>= λ res. ok (res, record { fds = c.fds; prev_vals = now })
]
