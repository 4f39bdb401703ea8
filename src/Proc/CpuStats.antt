-- ===== src/Proc/CpuStats.antt =====
-- proc.cpp: `CpuStats` and the functions it calls, with their `static` variables as a state.
pub mod Safety
pub mod Cores
use atlas_system_agent.Base.{
  ℕ, String, ◌-◌, Bool, true, false, not, ◌&&◌, Option, none, some, List, [], ◌∷◌, ◌++◌, Text,
  codes, if◌then◌else◌, length, text_eq, drop,
}
use atlas_system_agent.Base.Dict.{find, assign, emplace}
use atlas_system_agent.Base.Outcome.{Outcome, ok, err, Fault, thrown, terminated, undefined}
use atlas_system_agent.Metrics.{Double, of_ℕ, Kind, gauge, max_gauge, counter, Metric, metric}
use atlas_system_agent.Proc.CpuFields.{
  CpuStatFields, CpuGaugeValues, parse_fields, compute_gauge_values, update_gauges,
}

-- A call with its effects: what it leaves in the state, what it published, and how it ended.
pub record Ran (S D : Type 0) : Type 0 where
  pub state : S
  pub metrics : List (Metric D)
  pub outcome : Outcome (Unit {0})

-- A function-try-block whose handler logs: an exception ends the call, and its effects stay.
abbrev pub caught : Outcome (Unit {0}) → Outcome (Unit {0})
caught (err thrown) = ok tt
caught o = o

pub record CoreState (D : Type 0) : Type 0 where
  pub previous_cpu_stats : List (Text × CpuStatFields)
  pub previous_core_usages : List (Text × D)

pub record CpuState (D : Type 0) : Type 0 where
  pub utilization : Option CpuStatFields
  pub peak : Option CpuStatFields
  pub core : CoreState D

module _ {D : Type 0} ⦃fp : Double D⦄ where
  -- `PeakCpuStats` and `UpdateUtilizationGauges`; the state is the previous reading.
  unfoldable pub update_aggregate :
      Kind → String → List Text → Option CpuStatFields → Ran (Option CpuStatFields) D
  update_aggregate kind name line previous = elim (parse_fields line) [
    | err e ↦ record { state = previous; metrics = []; outcome = caught (err e) }
    | ok current ↦ record {
      state = some current;
      metrics = elim previous [
        | none ↦ []
        | some prev ↦ update_gauges kind name (compute_gauge_values prev current)
      ];
      outcome = ok tt;
    }
  ]

  -- The sum of the states that are not idle.
  abbrev pub usage_of : CpuGaugeValues D → D
  usage_of v =
      fp.add (fp.add (fp.add (fp.add (fp.add v.user v.system) v.stolen) v.nice) v.wait) v.interrupt

  abbrev pub usage_so_far : List (Text × D) → Text → D
  usage_so_far usages key = elim (find key usages) [ none ↦ of_ℕ 0 | some u ↦ u ]

  abbrev pub statistic : Kind → Text → D → Metric D
  statistic kind stat = metric kind "sys.cpu.coreUtilization" (("statistic", stat) ∷ [])

  -- The reading of a core that was read before.
  unfoldable pub core_usage :
      CoreState D → Text → CpuStatFields → CpuStatFields → Ran (CoreState D) D
  core_usage s key prev current =
      let usage = usage_of (compute_gauge_values prev current) in
      record {
        state = record {
          previous_cpu_stats = assign key current s.previous_cpu_stats;
          previous_core_usages =
              assign key (fp.add (usage_so_far s.previous_core_usages key) usage)
                s.previous_core_usages;
        };
        metrics =
            statistic counter (codes "count") (of_ℕ 1)
            ∷ statistic counter (codes "totalAmount") usage
            ∷ statistic counter (codes "totalOfSquares") (fp.mul usage usage)
            ∷ [];
        outcome = ok tt;
      }

  unfoldable pub core_line : CoreState D → List Text → Ran (CoreState D) D
  unfolding core_usage
  core_line s [] = record { state = s; metrics = []; outcome = err undefined }
  core_line s (key ∷ fs) = elim (parse_fields (key ∷ fs)) [
    | err e ↦ record { state = s; metrics = []; outcome = err e }
    | ok current ↦ elim (find key s.previous_cpu_stats) [
      | some prev ↦ core_usage s key prev current
      | none ↦ record {
        state = record s { previous_cpu_stats = emplace key current s.previous_cpu_stats };
        metrics = [];
        outcome = ok tt;
      }
    ]
  ]

  -- The loop over the cores, which an exception leaves.
  unfoldable pub core_lines : CoreState D → List (List Text) → Ran (CoreState D) D
  core_lines s [] = record { state = s; metrics = []; outcome = ok tt }
  core_lines s (line ∷ lines) =
      let one = core_line s line in
      let rest = core_lines one.state lines in
      elim one.outcome [
        | err e ↦ one
        | ok _ ↦ record rest { metrics = one.metrics ++ rest.metrics }
      ]

  -- `std::max(maxUsage, usage)` over the cores.
  unfoldable pub max_usage : D → List (Text × D) → D
  max_usage best [] = best
  max_usage best ((_, usage) ∷ us) = max_usage (if fp.lt best usage then usage else best) us

  -- The gauge of the minute, set where any core has a usage.
  unfoldable pub publish_max : CoreState D → Ran (CoreState D) D
  unfolding max_usage
  publish_max s = elim s.previous_core_usages [
    | [] ↦ record { state = s; metrics = []; outcome = ok tt }
    | u ∷ us ↦ record {
      state = record s { previous_core_usages = [] };
      metrics =
          statistic max_gauge (codes "max") (fp.div (max_usage (of_ℕ 0) (u ∷ us)) (of_ℕ 12)) ∷ [];
      outcome = ok tt;
    }
  ]

  -- The lines are those of the file: the first one is the aggregate.
  unfoldable pub update_core_utilization :
      CoreState D → List (List Text) → Bool → Ran (CoreState D) D
  unfolding core_lines publish_max
  update_core_utilization s lines sixty =
      let cores = core_lines s (drop 1 lines) in
      let last = publish_max cores.state in
      elim cores.outcome [
        | err e ↦ record cores { outcome = caught (err e) }
        | ok _ ↦ if sixty then record last { metrics = cores.metrics ++ last.metrics } else cores
      ]

  unfoldable pub update_num_procs : ℕ → List (Metric D)
  update_num_procs n = metric gauge "sys.cpu.numProcessors" [] (of_ℕ n) ∷ []

  -- One step behind another, which runs only if the first one returned.
  abbrev pub then_run :
      (CpuState D → Ran (CpuState D) D)
      → (CpuState D → Ran (CpuState D) D)
      → CpuState D
      → Ran (CpuState D) D
  then_run f g s =
      let r = f s in
      let next = g r.state in
      elim r.outcome [ err e ↦ r | ok _ ↦ record next { metrics = r.metrics ++ next.metrics } ]

  abbrev pub when : Bool → (CpuState D → Ran (CpuState D) D) → CpuState D → Ran (CpuState D) D
  when b f s =
      let run = f s in if b then run else record { state = s; metrics = []; outcome = ok tt }

  abbrev pub sixty_seconds : List Text → ℕ → CpuState D → Ran (CpuState D) D
  sixty_seconds aggregate processors s =
      let r = update_aggregate gauge "sys.cpu.utilization" aggregate s.utilization in
      record {
        state = record s { utilization = r.state };
        metrics = r.metrics ++ update_num_procs processors;
        outcome = r.outcome;
      }

  abbrev pub five_seconds : List (List Text) → Bool → CpuState D → Ran (CpuState D) D
  five_seconds lines sixty s =
      let r = update_core_utilization s.core lines sixty in
      record { state = record s { core = r.state }; metrics = r.metrics; outcome = r.outcome }

  abbrev pub every_second : List Text → CpuState D → Ran (CpuState D) D
  every_second aggregate s =
      let r = update_aggregate max_gauge "sys.cpu.peakUtilization" aggregate s.peak in
      record { state = record s { peak = r.state }; metrics = r.metrics; outcome = r.outcome }

  -- The argument is what `ParseProcStatFile` returns.
  unfoldable pub cpu_stats : Bool → Bool → List (List Text) → CpuState D → Ran (CpuState D) D
  cpu_stats five sixty [] s = record { state = s; metrics = []; outcome = ok tt }
  cpu_stats five sixty (aggregate ∷ cores) s =
      let lines = aggregate ∷ cores in
      then_run
        (then_run (when sixty (sixty_seconds aggregate (length lines - 1)))
          (when five (five_seconds lines sixty)))
        (every_second aggregate) s
