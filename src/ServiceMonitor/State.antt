-- ===== src/ServiceMonitor/State.antt =====
-- service_monitor.h: the members of `ServiceMonitor`; service_monitor.cpp: its constructor.
use atlas_system_agent.Base.{ℕ, Bool, false, List, [], Text, eqb, if◌then◌else◌}
use atlas_system_agent.Base.Int.{ℤ, pos}
use atlas_system_agent.CpuRateTracker.{CpuRateTracker, fresh}

pub record ServiceCpuState : Type 0 where
  pub process : CpuRateTracker ℕ
  pub cgroup : CpuRateTracker Text

abbrev pub fresh_state : ServiceCpuState
fresh_state = record { process = fresh 0; cgroup = fresh [] }

pub record ServiceMonitor (R : Type 0) : Type 0 where
  pub config : List R
  pub max_monitored_services : ℕ
  pub cpu_state : List (Text × ServiceCpuState)
  pub clk_tck : ℤ
  pub page_size : ℤ
  pub init_success : Bool
  pub monitored_services : List Text

abbrev pub default_monitored_services : ℕ
default_monitored_services = 10

unfoldable pub new : {R : Type 0} → List R → ℕ → ServiceMonitor R
new config max_services = record {
  config = config;
  max_monitored_services = if eqb max_services 0 then default_monitored_services else max_services;
  cpu_state = [];
  clk_tck = pos 0;
  page_size = pos 0;
  init_success = false;
  monitored_services = [];
}
