-- ===== src/ServiceMonitor/Cycle/Baselines.antt =====
-- Which CPU baselines a cycle of the service monitor touches.
use atlas_system_agent.Base.{
  ℕ, ◌≡◌, refl, Bool, true, false, ◌||◌, Option, none, some, List, [], ◌∷◌, Text, arith, text_eq,
  Option-cases, Bool-cases, inl, inr, ◌==◌, if◌then◌else◌,
}
use atlas_system_agent.Base.Dict.{find, find-assign}
use atlas_system_agent.Base.Int.{ℤ}
use atlas_system_agent.Metrics.{Double}
use atlas_system_agent.StrSplit.{StrSplit}
use atlas_system_agent.CpuRateTracker.{CpuRateTracker}
use atlas_system_agent.ServiceMonitor.Host.{Host, ServiceProperties}
use atlas_system_agent.ServiceMonitor.State.{ServiceCpuState}
use atlas_system_agent.ServiceMonitor.ProcStat.{get_process_times}
use atlas_system_agent.ServiceMonitor.Cgroup.{get_cgroup_cpu_usage}
use atlas_system_agent.ServiceMonitor.Collect.{
  collect_process_metrics, collect_cgroup_metrics, cpu_us,
}
use atlas_system_agent.ServiceMonitor.Cycle.{
  CpuStates, is_running, state_of, collect_service, update_service, update_all,
}

abbrev pub contains : List Text → Text → Bool
contains [] t = false
contains (s ∷ ss) t = s == t || contains ss t

abbrev pub Distinct : List Text → Type 0
Distinct [] = Unit
Distinct (s ∷ ss) = (contains ss s ≡ false) × Distinct ss

module _ (split : StrSplit) (host : Host) where
  -- The properties of a service that is active and running.
  abbrev pub running_props : Text → Option ServiceProperties
  running_props service = elim (host.service_properties service) [
    | none ↦ none
    | some props ↦ if is_running props then some props else none
  ]

  abbrev pub process_baseline : ServiceProperties → ℤ → CpuRateTracker ℕ → CpuRateTracker ℕ
  process_baseline props clk old = elim (get_process_times split host props.main_pid) [
    | none ↦ old
    | some times ↦ record {
      id = props.main_pid;
      counter_us = cpu_us times clk;
      at = host.now;
      is_valid = true;
    }
  ]

  abbrev pub cgroup_baseline : ServiceProperties → CpuRateTracker Text → CpuRateTracker Text
  cgroup_baseline props old = elim (get_cgroup_cpu_usage split host props.control_group) [
    | none ↦ old
    | some usage ↦ record {
      id = props.control_group;
      counter_us = usage;
      at = host.now;
      is_valid = true;
    }
  ]

  -- What one cycle does to the entry of a service that it reaches.
  abbrev pub next_entry : ℤ → Text → CpuStates → Option ServiceCpuState
  next_entry clk service states = elim (running_props service) [
    | none ↦ find service states
    | some props ↦ some (record {
      process = process_baseline props clk (state_of states service).process;
      cgroup = cgroup_baseline props (state_of states service).cgroup;
    })
  ]

module _ (D : Type 0) ⦃fp : Double D⦄ (split : StrSplit) (host : Host) where
  collect_process_cpu :
      (service : Text) (props : ServiceProperties) (page clk : ℤ) (cpu : CpuRateTracker ℕ)
      → (collect_process_metrics {D = D} split host service props page clk cpu).cpu
        ≡ process_baseline split host props clk cpu
  unfolding collect_process_metrics atlas_system_agent.CpuRateTracker.update
  collect_process_cpu service props page clk cpu = ground arith

  collect_cgroup_cpu :
      (service : Text) (props : ServiceProperties) (cpu : CpuRateTracker Text)
      → (collect_cgroup_metrics {D = D} split host service props cpu).cpu
        ≡ cgroup_baseline split host props cpu
  unfolding collect_cgroup_metrics atlas_system_agent.CpuRateTracker.update
  collect_cgroup_cpu service props cpu = ground arith

  -- One round gives the service its next entry and leaves every other one alone.
  find-update_service :
      (page clk : ℤ) (service t : Text) (states : CpuStates)
      → find t (update_service {D = D} split host page clk service states).cpu
        ≡ (if service == t then next_entry split host clk t states else find t states)
  unfolding update_service collect_service
  find-update_service page clk service t states =
      elim (Option-cases (host.service_properties service)) [
        | inl unknown ↦ ground (arith, text_eq.beq_iff service t)
        | inr (props, known) ↦
            let state = state_of states service in
            let own =
              collect_process_metrics {D = D} split host service props page clk state.process in
            let whole = collect_cgroup_metrics {D = D} split host service props state.cgroup in
            let entry : ServiceCpuState = record { process = own.cpu; cgroup = whole.cpu } in
            ground (
              arith,
              text_eq.beq_iff service t,
              find-assign service t entry states,
              collect_process_cpu service props page clk state.process,
              collect_cgroup_cpu service props state.cgroup,
            )
      ]

  next_entry_cong :
      (clk : ℤ) (t : Text) (a b : CpuStates)
      → find t a ≡ find t b
      → next_entry split host clk t a ≡ next_entry split host clk t b
  next_entry_cong clk t a b e = ground arith

  -- After one cycle over services with different names, a service that was reached has its next
  -- entry, and any other keeps its entry. The next entry keeps the baseline of each counter that
  -- could not be read, or of both if the service is not active and running, and else holds exactly
  -- the counter, its identity and the time that this cycle read.
  pub find-update_all :
      (page clk : ℤ) (services : List Text) (t : Text) (states : CpuStates)
      → Distinct services
      → find t (update_all {D = D} split host page clk services states).cpu
        ≡ (if contains services t then next_entry split host clk t states else find t states)
  unfolding update_all
  find-update_all page clk [] t states d = refl
  find-update_all page clk (s ∷ ss) t states (new, d) =
      let one = update_service {D = D} split host page clk s states in
      let later = find-update_all page clk ss t one.cpu d in
      let now = find-update_service page clk s t states in
      elim (Bool-cases (s == t)) [
        | inl same ↦
            let e = (text_eq.beq_iff s t).0 same in
            let absent : contains ss t ≡ false = rw e at new in ground arith
        | inr other ↦
            let kept : find t one.cpu ≡ find t states = ground arith in
            let cong = next_entry_cong clk t one.cpu states kept in ground arith
      ]
