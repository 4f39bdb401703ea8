-- ===== src/ServiceMonitor/Cycle.antt =====
-- service_monitor.cpp: `update_metrics` and `gather_metrics`.
pub mod Baselines
pub mod Success
pub mod Valid
use atlas_system_agent.Base.{
  ℕ, Bool, true, false, ◌&&◌, ◌||◌, not, Option, none, some, List, [], ◌∷◌, ◌++◌, Text, codes,
  if◌then◌else◌, ◌==◌, text_eq,
}
use atlas_system_agent.Base.Dict.{find, assign}
use atlas_system_agent.Base.Int.{ℤ}
use atlas_system_agent.Metrics.{Double, of_ℕ, Metric}
use atlas_system_agent.StrSplit.{StrSplit}
use atlas_system_agent.ServiceMonitor.Config.{Regexes}
use atlas_system_agent.ServiceMonitor.Host.{Host, ServiceProperties}
use atlas_system_agent.ServiceMonitor.State.{ServiceCpuState, fresh_state, ServiceMonitor}
use atlas_system_agent.ServiceMonitor.Units.{init_monitored_services}
use atlas_system_agent.ServiceMonitor.Collect.{
  Collected, gauge_service_state, collect_process_metrics, collect_cgroup_metrics,
}

abbrev pub CpuStates : Type 0
CpuStates = List (Text × ServiceCpuState)

abbrev pub is_running : ServiceProperties → Bool
is_running props =
    not (not (props.active_state == codes "active") || not (props.sub_state == codes "running"))

-- `cpuState_[service]`, before it is written
abbrev pub state_of : CpuStates → Text → ServiceCpuState
state_of states service = elim (find service states) [ none ↦ fresh_state | some s ↦ s ]

module _ {D : Type 0} ⦃fp : Double D⦄ (split : StrSplit) (host : Host) where
  -- One round of the loop, for a service that is active and running.
  unfoldable pub collect_service :
      ℤ → ℤ → Text → ServiceProperties → CpuStates → Collected D CpuStates
  collect_service page_size clk_tck service props states =
      let state = state_of states service in
      let own = collect_process_metrics split host service props page_size clk_tck state.process in
      let whole = collect_cgroup_metrics split host service props state.cgroup in
      record {
        success = own.success && whole.success;
        cpu = assign service (record { process = own.cpu; cgroup = whole.cpu }) states;
        metrics = own.metrics ++ whole.metrics;
      }

  -- One round of the loop.
  unfoldable pub update_service : ℤ → ℤ → Text → CpuStates → Collected D CpuStates
  update_service page_size clk_tck service states = elim (host.service_properties service) [
    | none ↦ record { success = false; cpu = states; metrics = [] }
    | some props ↦
        let state_str = props.active_state ++ (b'.' ∷ props.sub_state) in
        let status : Metric D =
          gauge_service_state "systemd.service.status" service state_str (of_ℕ 1) in
        let collected = collect_service page_size clk_tck service props states in
        if is_running props
        then record collected { metrics = status ∷ collected.metrics }
        else record { success = true; cpu = states; metrics = status ∷ [] }
  ]

  -- The loop; `success` is the conjunction over the rounds.
  unfoldable pub update_all : ℤ → ℤ → List Text → CpuStates → Collected D CpuStates
  update_all page_size clk_tck [] states = record { success = true; cpu = states; metrics = [] }
  update_all page_size clk_tck (service ∷ services) states =
      let one = update_service page_size clk_tck service states in
      let rest = update_all page_size clk_tck services one.cpu in
      record {
        success = one.success && rest.success;
        cpu = rest.cpu;
        metrics = one.metrics ++ rest.metrics;
      }

  unfoldable pub update_metrics : {R : Type 0} → ServiceMonitor R → Collected D (ServiceMonitor R)
  unfolding update_all
  update_metrics m =
      let all = update_all m.page_size m.clk_tck m.monitored_services m.cpu_state in
      record {
        success = all.success;
        cpu = record m { cpu_state = all.cpu };
        metrics = all.metrics;
      }

  -- With services to monitor; the list is that of the monitor.
  unfoldable pub gather_listed :
      {R : Type 0} → List Text → ServiceMonitor R → Collected D (ServiceMonitor R)
  unfolding update_metrics
  gather_listed [] m = record { success = true; cpu = m; metrics = [] }
  gather_listed (_ ∷ _) m = update_metrics m

  -- On what the initialisation returned.
  unfoldable pub gather_after :
      {R : Type 0} → Bool × ServiceMonitor R → Collected D (ServiceMonitor R)
  unfolding gather_listed
  gather_after (true, m) = gather_listed m.monitored_services m
  gather_after (false, m) = record { success = false; cpu = m; metrics = [] }

  unfoldable pub gather_metrics :
      (rx : Regexes) → ServiceMonitor rx.Regex → Collected D (ServiceMonitor rx.Regex)
  unfolding gather_after
  gather_metrics rx m =
      gather_after (if m.init_success then (true, m) else init_monitored_services rx host m)
