-- ===== src/Cgroup.antt =====
-- lib/collectors/cgroup/src/cgroup.cpp: the metrics of a container's cgroup.
pub mod Fields
pub mod Guards
pub mod IoStat
pub mod IoMax
pub mod IoMetrics
pub mod Io
pub mod Cpu
pub mod Memory
