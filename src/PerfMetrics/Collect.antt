-- ===== src/PerfMetrics/Collect.antt =====
-- lib/collectors/perf_metrics/src/perf_metrics.cpp. The environment variable, access and sysconf are
-- read outside of the model; `Answers` holds what the system gives during a call.
use atlas_system_agent.Base.{
  ℕ, ◌&&◌, Bool, true, false, not, Option, List, [], ◌∷◌, ◌++◌, map, String, eqb, if◌then◌else◌,
}
use atlas_system_agent.Base.Outcome.{Outcome, ok, err, terminated, undefined, ◌>>=◌}
use atlas_system_agent.Metrics.{Double, of_ℕ, Metric, metric, distribution_summary}
use atlas_system_agent.PerfMetrics.{
  PerfCount, PerfCounter, Opened, new_counter, open_events, read_delta,
}

-- The events of the counters.
pub data HwEvent : Type 0 where
  hw_instructions hw_cycles hw_cache_refs hw_cache_misses hw_branch_insts hw_branch_misses : HwEvent

pub record PerfMetrics : Type 0 where
  pub disabled : Bool
  pub online_cpus : List Bool
  pub cycles : PerfCounter
  pub instructions : PerfCounter
  pub cache_refs : PerfCounter
  pub cache_misses : PerfCounter
  pub branch_insts : PerfCounter
  pub branch_misses : PerfCounter

abbrev pub new_metrics : Bool → PerfMetrics
new_metrics disabled = record {
  disabled = disabled;
  online_cpus = [];
  cycles = new_counter;
  instructions = new_counter;
  cache_refs = new_counter;
  cache_misses = new_counter;
  branch_insts = new_counter;
  branch_misses = new_counter;
}

-- The answers of perf_event_open by event and CPU, of read by descriptor, and the CPUs that
-- `get_online_cpus` gives.
pub record Answers : Type 0 where
  pub perf_open : HwEvent → ℕ → Opened
  pub read : ℕ → Option PerfCount
  pub get_online_cpus : List Bool

abbrev pub same_cpus : List Bool → List Bool → Bool
same_cpus [] [] = true
same_cpus (a ∷ xs) (b ∷ ys) = let rest = same_cpus xs ys in if a then b && rest else not b && rest
same_cpus _ _ = false

unfoldable pub reopen : Answers → HwEvent → PerfCounter → PerfCounter × Bool
unfolding open_events
reopen a event c =
    let result = open_events (a.perf_open event) a.get_online_cpus c in (result.1, result.2)

-- Where the instructions are denied.
abbrev pub denied : Answers → PerfMetrics → PerfMetrics
denied a p = record {
  disabled = true;
  online_cpus = a.get_online_cpus;
  cycles = p.cycles;
  instructions = (reopen a hw_instructions p.instructions).0;
  cache_refs = p.cache_refs;
  cache_misses = p.cache_misses;
  branch_insts = p.branch_insts;
  branch_misses = p.branch_misses;
}

abbrev pub reopened : Answers → PerfMetrics → PerfMetrics
reopened a p = record {
  disabled = p.disabled;
  online_cpus = a.get_online_cpus;
  cycles = (reopen a hw_cycles p.cycles).0;
  instructions = (reopen a hw_instructions p.instructions).0;
  cache_refs = (reopen a hw_cache_refs p.cache_refs).0;
  cache_misses = (reopen a hw_cache_misses p.cache_misses).0;
  branch_insts = (reopen a hw_branch_insts p.branch_insts).0;
  branch_misses = (reopen a hw_branch_misses p.branch_misses).0;
}

unfoldable pub open_perf_counters_if_needed : Answers → PerfMetrics → PerfMetrics × Bool
unfolding reopen
open_perf_counters_if_needed a p =
    if same_cpus a.get_online_cpus p.online_cpus
    then (p, true)
    else if (reopen a hw_instructions p.instructions).1
    then (reopened a p, true)
    else (denied a p, false)

-- The constructor: is the variable "true", and is the file of perf accessible?
unfoldable pub construct : Bool → Bool → Answers → PerfMetrics
unfolding open_perf_counters_if_needed
construct enabled accessible a =
    if enabled
    then (if accessible
        then (open_perf_counters_if_needed a (new_metrics false)).0
        else new_metrics true)
    else new_metrics true

abbrev pub same_length : List ℕ → List ℕ → Bool
same_length [] [] = true
same_length (_ ∷ xs) (_ ∷ ys) = same_length xs ys
same_length _ _ = false

module _ {D : Type 0} ⦃fp : Double D⦄ where
  abbrev pub record_value : String → D → Metric D
  record_value name v = metric distribution_summary name [] v

  -- The loop over the cores; a read of `b_values` out of bounds is undefined.
  unfoldable pub rates : String → List ℕ → List ℕ → Outcome (List (Metric D))
  rates name [] ys = ok []
  rates name (a ∷ xs) [] = err undefined
  rates name (a ∷ xs) (b ∷ ys) = rates name xs ys >>= λ more.
      ok (if eqb b 0 then more else record_value name (fp.div (of_ℕ a) (of_ℕ b)) ∷ more)

module _ {D : Type 0} ⦃fp : Double D⦄ (to_u64 : D → ℕ) where
  unfoldable pub update_ds :
      (ℕ → Option PerfCount) → PerfCounter → String → Outcome (List (Metric D) × PerfCounter)
  unfolding read_delta
  update_ds read a name = read_delta to_u64 read a >>= λ values.
      ok (map (λ v. record_value name (of_ℕ v)) values.0, values.1)

  -- An assertion that fails ends the process.
  unfoldable pub update_rate :
      (ℕ → Option PerfCount)
      → PerfCounter
      → PerfCounter
      → String
      → Outcome (List (Metric D) × PerfCounter × PerfCounter)
  unfolding read_delta rates
  update_rate read a b name = read_delta to_u64 read a >>= λ xs. read_delta to_u64 read b >>= λ ys.
      if same_length xs.0 ys.0
      then (rates name xs.0 ys.0 >>= λ sent. ok (sent, xs.1, ys.1))
      else err terminated

  unfoldable pub collect_enabled : Answers → PerfMetrics → Outcome (List (Metric D) × PerfMetrics)
  unfolding update_ds update_rate open_perf_counters_if_needed
  collect_enabled a p = do
    instructions ← update_ds a.read p.instructions "sys.cpu.instructions"
    cycles ← update_ds a.read p.cycles "sys.cpu.cycles"
    cache ← update_rate a.read p.cache_misses p.cache_refs "sys.cpu.cacheMissRate"
    branch ← update_rate a.read p.branch_misses p.branch_insts "sys.cpu.branchMispredictionRate"
    ok (
      instructions.0 ++ cycles.0 ++ cache.0 ++ branch.0,
      (open_perf_counters_if_needed a (record {
        disabled = p.disabled;
        online_cpus = p.online_cpus;
        cycles = cycles.1;
        instructions = instructions.1;
        cache_refs = cache.2;
        cache_misses = cache.1;
        branch_insts = branch.2;
        branch_misses = branch.1;
      })).0,
    )

  unfoldable pub collect : Answers → PerfMetrics → Outcome (List (Metric D) × PerfMetrics)
  unfolding collect_enabled
  collect a p = if p.disabled then ok ([], p) else collect_enabled a p
