-- ===== src/ServiceMonitor.antt =====
-- lib/collectors/service_monitor: the readers of service_monitor_utils.cpp, and the class of
-- service_monitor.cpp over them.
pub mod Host
pub mod ProcStat
pub mod Cgroup
pub mod Config
pub mod State
pub mod Units
pub mod Collect
pub mod Cycle
