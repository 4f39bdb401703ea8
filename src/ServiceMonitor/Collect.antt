-- ===== src/ServiceMonitor/Collect.antt =====
-- service_monitor.cpp: `publish_metric`, `collect_process_metrics` and `collect_cgroup_metrics`, with
-- the gauges of service_monitor.h.
use atlas_system_agent.Base.{
  ℕ, ◌+◌, ◌*◌, ◌/◌, ◌%◌, Bool, true, false, not, ◌&&◌, Option, none, some, List, [], ◌∷◌, ◌++◌,
  String, Text, codes, nat_eq, text_eq,
}
use atlas_system_agent.Base.Int.{ℤ, pos_part}
use atlas_system_agent.Base.Numbers.{u64}
use atlas_system_agent.Metrics.{Double, of_ℕ, Metric, metric, gauge_ttl}
use atlas_system_agent.StrSplit.{StrSplit}
use atlas_system_agent.CpuRateTracker.{CpuRateTracker, update}
use atlas_system_agent.ServiceMonitor.Host.{Host, ServiceProperties}
use atlas_system_agent.ServiceMonitor.ProcStat.{
  ProcessTimes, get_process_times, get_rss, get_number_fds,
}
use atlas_system_agent.ServiceMonitor.Cgroup.{
  get_cgroup_cpu_usage, get_cgroup_memory, get_total_fds,
}

-- What a collect function returns, the tracker it has advanced, and what it has published.
pub record Collected (D C : Type 0) : Type 0 where
  pub success : Bool
  pub cpu : C
  pub metrics : List (Metric D)

-- `detail::gauge`, `detail::gaugeScoped` and `detail::gaugeServiceState`, with their `Set`
module _ {D : Type 0} where
  abbrev pub gauge : String → Text → D → Metric D
  gauge name service = metric (gauge_ttl 60) name (("service.name", service) ∷ [])

  abbrev pub gauge_scoped : String → Text → Text → D → Metric D
  gauge_scoped name service scope =
      metric (gauge_ttl 60) name (("service.name", service) ∷ ("scope", scope) ∷ [])

  abbrev pub gauge_service_state : String → Text → Text → D → Metric D
  gauge_service_state name service state =
      metric (gauge_ttl 60) name (("service.name", service) ∷ ("state", state) ∷ [])

-- `(uTime + sTime) * 1'000'000ULL / clkTck_`, in 64-bit arithmetic
abbrev pub cpu_us : ProcessTimes → ℤ → ℕ
cpu_us times clk_tck = (times.u_time + times.s_time) % u64 * 1_000_000 % u64 / pos_part clk_tck

module _ {D : Type 0} ⦃fp : Double D⦄ where
  abbrev scoped : String → Text → Text → D → Metric D
  scoped name service [] = gauge name service
  scoped name service (c ∷ scope) = gauge_scoped name service (c ∷ scope)

  -- The flag is `!errMsg.empty()`.
  unfoldable pub publish_metric :
      Text → Option D → ℕ → String → Text → Bool → Bool × List (Metric D)
  publish_metric service none scale name scope is_required = (not is_required, [])
  publish_metric service (some val) scale name scope is_required =
      (true, scoped name service scope (fp.mul val (of_ℕ scale)) ∷ [])

  abbrev to_double : Option ℕ → Option D
  to_double none = none
  to_double (some n) = some (of_ℕ n)

  module _ (split : StrSplit) (host : Host) (service : Text) (props : ServiceProperties) where
    unfoldable pub collect_process_metrics :
        ℤ → ℤ → CpuRateTracker ℕ → Collected D (CpuRateTracker ℕ)
    unfolding publish_metric
    collect_process_metrics page_size clk_tck cpu =
        let rss =
          publish_metric service (to_double (get_rss split host props.main_pid))
            (pos_part page_size) "systemd.service.rss" [] true in
        let fds =
          publish_metric service (to_double (get_number_fds host props.main_pid)) 1
            "systemd.service.fds" (codes "process") true in
        elim (get_process_times split host props.main_pid) [
          | none ↦ record { success = false; cpu = cpu; metrics = rss.1 ++ fds.1 }
          | some times ↦
              let sampled = update cpu props.main_pid (cpu_us times clk_tck) host.now in
              let usage =
                publish_metric service sampled.1 1 "systemd.service.cpuUsage" (codes "process")
                  false in
              record {
                success = rss.0 && fds.0;
                cpu = sampled.0;
                metrics = rss.1 ++ (fds.1 ++ usage.1);
              }
        ]

    unfoldable pub collect_cgroup_metrics : CpuRateTracker Text → Collected D (CpuRateTracker Text)
    unfolding publish_metric
    collect_cgroup_metrics cpu =
        let memory =
          publish_metric service (to_double (get_cgroup_memory host props.control_group)) 1
            "systemd.service.memory" [] true in
        let fds =
          publish_metric service (to_double (get_total_fds host props.control_group)) 1
            "systemd.service.fds" (codes "service") true in
        elim (get_cgroup_cpu_usage split host props.control_group) [
          | none ↦ record { success = false; cpu = cpu; metrics = memory.1 ++ fds.1 }
          | some usage_us ↦
              let sampled = update cpu props.control_group usage_us host.now in
              let usage =
                publish_metric service sampled.1 1 "systemd.service.cpuUsage" (codes "service")
                  false in
              record {
                success = memory.0 && fds.0;
                cpu = sampled.0;
                metrics = memory.1 ++ (fds.1 ++ usage.1);
              }
        ]
