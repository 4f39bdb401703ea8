-- ===== src/ServiceMonitor/Cycle/Success.antt =====
-- When a cycle of the service monitor reports success.
use atlas_system_agent.Base.{
  ℕ, ◌≡◌, refl, Bool, true, false, ◌&&◌, ◌||◌, not, Option, none, some, List, [], ◌∷◌, Text, arith,
  text_eq, Option-cases, inl, inr,
}
use atlas_system_agent.Base.Int.{ℤ}
use atlas_system_agent.Metrics.{Double}
use atlas_system_agent.StrSplit.{StrSplit}
use atlas_system_agent.CpuRateTracker.{CpuRateTracker}
use atlas_system_agent.ServiceMonitor.Host.{Host, ServiceProperties}
use atlas_system_agent.ServiceMonitor.ProcStat.{get_process_times, get_rss, get_number_fds}
use atlas_system_agent.ServiceMonitor.Cgroup.{
  get_cgroup_cpu_usage, get_cgroup_memory, get_total_fds,
}
use atlas_system_agent.ServiceMonitor.Collect.{collect_process_metrics, collect_cgroup_metrics}
use atlas_system_agent.ServiceMonitor.Cycle.{
  CpuStates, is_running, state_of, collect_service, update_service, update_all,
}

abbrev is_some : {A : Type 0} → Option A → Bool
is_some none = false
is_some (some _) = true

module _ (split : StrSplit) (host : Host) where
  abbrev process_readable : ℕ → Bool
  process_readable pid =
      is_some (get_rss split host pid)
      && (is_some (get_number_fds host pid) && is_some (get_process_times split host pid))

  abbrev cgroup_readable : Text → Bool
  cgroup_readable cgroup =
      is_some (get_cgroup_memory host cgroup)
      && (is_some (get_total_fds host cgroup) && is_some (get_cgroup_cpu_usage split host cgroup))

  -- systemd knows the service, and if it is active and running all six readings succeed.
  abbrev pub healthy : Text → Bool
  healthy service = elim (host.service_properties service) [
    | none ↦ false
    | some props ↦
        not (is_running props)
        || (process_readable props.main_pid && cgroup_readable props.control_group)
  ]

  abbrev pub all_healthy : List Text → Bool
  all_healthy [] = true
  all_healthy (s ∷ ss) = healthy s && all_healthy ss

module _ (D : Type 0) ⦃fp : Double D⦄ (split : StrSplit) (host : Host) where
  collect_process_success :
      (service : Text) (props : ServiceProperties) (page clk : ℤ) (cpu : CpuRateTracker ℕ)
      → (collect_process_metrics {D = D} split host service props page clk cpu).success
        ≡ process_readable split host props.main_pid
  unfolding collect_process_metrics
  collect_process_success service props page clk cpu = ground arith

  collect_cgroup_success :
      (service : Text) (props : ServiceProperties) (cpu : CpuRateTracker Text)
      → (collect_cgroup_metrics {D = D} split host service props cpu).success
        ≡ cgroup_readable split host props.control_group
  unfolding collect_cgroup_metrics
  collect_cgroup_success service props cpu = ground arith

  update_service_success :
      (page clk : ℤ) (service : Text) (states : CpuStates)
      → (update_service {D = D} split host page clk service states).success
        ≡ healthy split host service
  unfolding update_service collect_service
  update_service_success page clk service states =
      elim (Option-cases (host.service_properties service)) [
        | inl unknown ↦ ground arith
        | inr (props, known) ↦
            let state = state_of states service in
            ground (
              arith,
              collect_process_success service props page clk state.process,
              collect_cgroup_success service props state.cgroup,
            )
      ]

  -- A cycle reports success exactly when every monitored service is healthy.
  pub update_all_success :
      (page clk : ℤ) (services : List Text) (states : CpuStates)
      → (update_all {D = D} split host page clk services states).success
        ≡ all_healthy split host services
  unfolding update_all
  update_all_success page clk [] states = refl
  update_all_success page clk (s ∷ ss) states = cc (
    update_service_success page clk s states,
    update_all_success page clk ss (update_service split host page clk s states).cpu,
  )
