-- ===== src/Lib.antt =====
-- Verification of atlas-system-agent, the agent that collects system metrics of a host and hands them
-- to the spectator registry.
--
-- The parts and the files that model them (paths from the repository's root):
--   AtlasAgent/src: the loop of the system agent calls the collectors each second, every five and every
--     sixty seconds. Agent/PollingDelay is `initial_polling_delay`, Agent/Terminator is `terminator`, and
--     Agent/Loop is `collect_system_metrics` from its first slow metrics on: a schedule and a list of turns.
--     Agent/Container is the same of the agents for Titus and Kubernetes, and Agent/Options is
--     `parse_options`, the signal handler and the names and tags of `main`.
--   lib/collectors/service_monitor/src: the monitor of systemd services. ServiceMonitor/Host is what it
--     reads of the machine, /Config the patterns, /State the members and the constructor, /Units the
--     initialisation, /ProcStat and /Cgroup the readers of service_monitor_utils.cpp, /Collect the two
--     collect functions, and /Cycle `update_metrics` and `gather_metrics`. CpuRateTracker is
--     cpu_rate_tracker.h, whose `update` both collect functions call.
--   lib/collectors/proc/src: Proc/CpuFields is proc_cpu.h, Proc/Stat is `ParseProcStatFile`, and
--     Proc/CpuStats is `CpuStats` with the functions and the static maps behind it. Proc/Memory is
--     `memory_stats`, /Network `network_stats`, /Tcp the connection states, /Netstat `netstat_stats` and
--     `socket_stats`, /Snmp `snmp_stats`, /Vmstat `vmstats`, `uptime_stats` and `loadavg_stats`, /Processes
--     `arp_stats` and `process_stats`, and /Collect the three entry points that call them. Stdio is what
--     they use of `scanf`, Tags the maps of tags.
--   lib/collectors/perf_metrics/src: PerfMetrics is `perf_count` and `PerfCounter`, PerfMetrics/Range
--     `parse_range` and PerfMetrics/Collect the collector.
--   lib/collectors/perfspect/src: Perfspect is the process, its output and the metrics,
--     Perfspect/Instance the check of the instance.
--   lib/collectors/aws/src: Aws. lib/collectors/ethtool/src: Ethtool.
--   lib/collectors/cpu_freq/src: CpuFreq.
--   lib/collectors/ebs/src: Ebs is the query, the meters and the pass over the devices, Ebs/Config the
--     configuration.
--   lib/collectors/cgroup/src: Cgroup/IoStat, /IoMax, /IoMetrics and /Io are the block device metrics
--     (`ParseIOLine` to `IOStats`), /Cpu is `CpuStats` and what it calls, /Memory the memory and network
--     metrics. Pressure is `CGroup::PressureStall`, and lib/collectors/pressure_stall/src.
--   lib/collectors/disk/src: Disk/Mounts reads the mount points,
--     Disk/MountPoints is their choice, Disk/Stats is `do_disk_stats`, Disk/DiskIo is diskstats and
--     its metrics, Disk/Space is `update_stats_for`. MonotonicTimer is lib/monotonic_timer/src, which the
--     disk metrics call.
--   lib/collectors/ntp/src: Ntp is `chrony_stats` and `ntp_stats`.
--   lib/http_client/src: HttpClient/Callbacks is what curl calls, /LogEntry is log_entry.h, /Perform is
--     `HttpClient::perform`.
--   lib/util/src/util.cpp: Util holds the parsers that the collectors share.
-- Base holds the shared types, lists, maps, numbers and texts, Metrics the calls of the registry, and
-- StrSplit the laws of `absl::StrSplit`. Tests holds inputs, and each theorem at one of them.
--
-- How the code is modelled. Text is a list of bytes. A map is an association list; where the source walks a
-- hash map, whose order is not specified, the model walks the list in its order. A call of the registry is a
-- value in a list of metrics, in the order of the calls. Static variables and members are a state that is
-- passed on. An exception that leaves a function, one that meets `noexcept` (or an assertion that fails)
-- and so ends the process, and an access out of bounds are the three errors of Outcome; where a function catches everything, `none` stands
-- for its error value. Log messages are left out.
--
-- Parameters. The code calls libraries, whose sources are not part of the repository: `double` is an
-- interface of operations (Metrics.Double), with its order laws only where a theorem names them; `absl::Time`,
-- `absl::Duration`, `std::regex`, `absl::StrSplit`, curl, systemd, files and clocks are records of functions.
-- A search of `std::regex` and the iteration over a directory may throw, which is `none`.
-- The number parsers of the C and C++ libraries are written out in Base/Numbers. 64-bit unsigned numbers wrap
-- around where the source computes with them; differences of signed counters are taken to fit `int64_t`.
--
-- Bounds and fuel. `HttpClient::perform` calls itself with the next attempt number, up to 2, so fuel 3 is
-- enough, which HttpClient.Retry.get_retries shows. The digits of a number are printed with one round more
-- than the number, which is more than it has digits. The loop of `network_stats` has two rounds more than
-- the file has bytes, which is enough, as Proc.Network.Ends.network_stats_ends shows. That of `parse_range`
-- has one round more, and that of `get_mount_points` two, which PerfMetrics.Range.Ends.parse_range-ends and
-- Disk.Mounts.Ends.get_mount_points-ends show to be enough. Every other loop is structural.
--
-- Not modelled: the collectors for GPUs, which call vendor libraries that are loaded at run time;
-- the wrappers of file handles and of the logging library; the parts of the partly modelled components that
-- only call curl, chronyc, systemd or the file system.
pub mod Base
pub mod Metrics
pub mod StrSplit
pub mod CpuRateTracker
pub mod MonotonicTimer
pub mod ServiceMonitor
pub mod Proc
pub mod Cgroup
pub mod HttpClient
pub mod Agent
pub mod Disk
pub mod Ntp
pub mod Pressure
pub mod Util
pub mod Tags
pub mod Stdio
pub mod Ethtool
pub mod Ebs
pub mod CpuFreq
pub mod PerfMetrics
pub mod Perfspect
pub mod Aws
mod Tests
