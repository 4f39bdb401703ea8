-- ===== src/Proc/Collect.antt =====
-- proc.cpp: `CollectSystem`, `CollectTitus` and `CollectK8s`.
pub mod Shared
use atlas_system_agent.Base.{ℕ, Option, none, some, List, [], ◌∷◌, ◌++◌, Text}
use atlas_system_agent.Base.Outcome.{Outcome, ok, err, ◌>>=◌}
use atlas_system_agent.Metrics.{Double, Metric, Tags}
use atlas_system_agent.StrSplit.{StrSplit}
use atlas_system_agent.Proc.Memory.{memory_stats}
use atlas_system_agent.Proc.Netstat.{SimpleAtoi, netstat_stats, socket_stats}
use atlas_system_agent.Proc.Network.{network_stats}
use atlas_system_agent.Proc.Processes.{Directory, arp_stats, process_stats}
use atlas_system_agent.Proc.Snmp.{snmp_stats}
use atlas_system_agent.Proc.Vmstat.{vmstats, uptime_stats, loadavg_stats}

-- What the files below the prefix hold.
pub record Files : Type 0 where
  pub arp : Option (List Text)
  pub loadavg : Option (List Text)
  pub meminfo : Option (List Text)
  pub netstat : Option (List Text)
  pub dev : Option Text
  pub processes : Directory
  pub tasks : Text → Directory
  pub snmp : Option (List Text)
  pub tcp : Option (List Text)
  pub tcp6 : Option (List Text)
  pub snmp6 : Option (List Text)
  pub sockstat : Option (List Text)
  pub uptime : Option Text
  pub stat : Option (List Text)
  pub vmstat : Option (List Text)
  pub file_nr : Option (List Text)

-- The calls of libraries: the split of a line, the numbers of Abseil and of `%lf`, the page size.
pub record Calls (D : Type 0) : Type 0 where
  pub split : StrSplit
  pub simple_atoi : SimpleAtoi
  pub scan_doubles : Text → List D
  pub pagesize : ℕ

-- One collector after the other; `none` stands for a loop without end.
abbrev pub Run : Type 0 → Type 0
Run D = Option (Outcome (List (Metric D)))

infixr 20 ◌then_run◌
abbrev pub ◌then_run◌ : {D : Type 0} → Run D → Run D → Run D
none then_run second = none
some (err e) then_run second = some (err e)
some (ok ms) then_run none = none
some (ok ms) then_run some r = some (r >>= λ more. ok (ms ++ more))

module _ {D : Type 0} ⦃fp : Double D⦄ (calls : Calls D) (net_tags : Tags) (files : Files) where
  unfoldable pub collect_system : Run D
  unfolding arp_stats loadavg_stats memory_stats netstat_stats network_stats process_stats
      snmp_stats socket_stats uptime_stats vmstats
  collect_system =
      some (ok (arp_stats net_tags files.arp))
      then_run some (loadavg_stats calls.scan_doubles files.loadavg)
      then_run some (memory_stats files.meminfo)
      then_run some (netstat_stats calls.split calls.simple_atoi net_tags files.netstat)
      then_run network_stats net_tags files.dev
      then_run some (ok (process_stats files.tasks files.processes))
      then_run some (snmp_stats net_tags calls.split files.snmp files.tcp files.tcp6 files.snmp6)
      then_run some (socket_stats calls.split calls.simple_atoi calls.pagesize files.sockstat)
      then_run some (uptime_stats calls.split files.uptime)
      then_run some (vmstats files.stat files.vmstat files.file_nr)

  unfoldable pub collect_titus : Run D
  unfolding netstat_stats network_stats process_stats snmp_stats uptime_stats
  collect_titus =
      some (netstat_stats calls.split calls.simple_atoi net_tags files.netstat)
      then_run network_stats net_tags files.dev
      then_run some (ok (process_stats files.tasks files.processes))
      then_run some (snmp_stats net_tags calls.split files.snmp files.tcp files.tcp6 files.snmp6)
      then_run some (uptime_stats calls.split files.uptime)

  unfoldable pub collect_k8s : Run D
  unfolding netstat_stats network_stats process_stats snmp_stats uptime_stats
  collect_k8s =
      some (netstat_stats calls.split calls.simple_atoi net_tags files.netstat)
      then_run network_stats net_tags files.dev
      then_run some (ok (process_stats files.tasks files.processes))
      then_run some (snmp_stats net_tags calls.split files.snmp files.tcp files.tcp6 files.snmp6)
      then_run some (uptime_stats calls.split files.uptime)
