-- ===== src/Proc.antt =====
-- lib/collectors/proc: the readers of /proc.
pub mod CpuFields
pub mod Stat
pub mod CpuStats
pub mod Memory
pub mod Network
pub mod Tcp
pub mod Netstat
pub mod Snmp
pub mod Vmstat
pub mod Processes
pub mod Collect
