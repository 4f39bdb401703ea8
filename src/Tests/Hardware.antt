-- ===== src/Tests/Hardware.antt =====
-- lib/collectors/ethtool, lib/collectors/ebs and the collections of lib/collectors/proc: small inputs.
use atlas_system_agent.Base.{
  ℕ, ◌≡◌, refl, true, none, some, List, [], ◌∷◌, Text, codes, if◌then◌else◌, replicate,
}
use atlas_system_agent.Base.Int.{ℤ, pos}
use atlas_system_agent.Base.Outcome.{ok, err, terminated}
use atlas_system_agent.Metrics.{whole, Metric, metric, gauge}
use atlas_system_agent.StrSplit.{str_split, str_split-IsStrSplit}
use atlas_system_agent.Ethtool.{ethtool_stats}
use atlas_system_agent.Ethtool.Numbers.{any_out_of_range, sent, ethtool_stats_lem}
use atlas_system_agent.Ebs.{
  Histogram, LogPage, stats_magic, Answer, not_opened, page, gather_metrics,
}
use atlas_system_agent.Ebs.Gather.{IsPage, all_succeed, all_metrics, gather_metrics_lem}
use atlas_system_agent.Ebs.Config.{Host, parse_ebs_config_directory}
use atlas_system_agent.Ebs.Config.Devices.{Configured, parse_ebs_config_directory-Configured}
use atlas_system_agent.Proc.Collect.{Files, Calls, collect_system, collect_titus, collect_k8s}
use atlas_system_agent.Proc.Collect.Shared.{
  Parts, AreParts, system_metrics, container_metrics, collect_system-containers,
}

abbrev nic_lines : List Text
nic_lines =
    codes "     bw_in_allowance_exceeded: 12"
    ∷ codes "     tx_timeout: 1"
    ∷ codes "     pps_allowance_exceeded: none"
    ∷ codes "     pps_allowance_exceeded: 99999999999999999999"
    ∷ []

ethtool_stats_lem_example :
    ethtool_stats {D = ℤ} [] (codes "eth0") str_split nic_lines
    ≡ (if any_out_of_range nic_lines then err terminated else ok (sent [] (codes "eth0") nic_lines))
ethtool_stats_lem_example =
    ethtool_stats_lem [] (codes "eth0") str_split str_split-IsStrSplit nic_lines

abbrev histogram : ℕ → Histogram
histogram n = record { num_bins = n; bins = replicate 64 3 }

abbrev log_page : ℕ → LogPage
log_page n = record {
  magic = stats_magic;
  total_read_ops = 1;
  total_write_ops = 2;
  total_read_bytes = 3;
  total_write_bytes = 4;
  total_read_time = 5;
  total_write_time = 6;
  ebs_volume_performance_exceeded_iops = 7;
  ebs_volume_performance_exceeded_tp = 8;
  ec2_instance_ebs_performance_exceeded_iops = 9;
  ec2_instance_ebs_performance_exceeded_tp = 10;
  volume_queue_length = 11;
  read_io_latency_histogram = histogram n;
  write_io_latency_histogram = histogram 28;
}

-- A volume, a volume with too many bins, and no device.
abbrev answer_of : Text → Answer
answer_of [] = not_opened
answer_of (c ∷ []) = page (log_page 28)
answer_of (c ∷ d ∷ s) = page (log_page 29)

answer_of-IsPage : (device : Text) → IsPage (answer_of device)
answer_of-IsPage [] = tt
answer_of-IsPage (c ∷ []) = (refl, refl)
answer_of-IsPage (c ∷ d ∷ s) = (refl, refl)

abbrev devices : List Text
devices = codes "a" ∷ codes "bb" ∷ [] ∷ []

gather_metrics_lem_example :
    gather_metrics (pos 1) true answer_of devices
    ≡ ok (all_succeed answer_of devices, all_metrics (pos 1) answer_of devices)
gather_metrics_lem_example = gather_metrics_lem (pos 1) answer_of devices answer_of-IsPage

-- A directory with one configuration, of two devices that are there.
abbrev config_host : Host
config_host = record {
  read_file = λ f. some (codes "a" ∷ codes "b" ∷ []);
  exists = λ f. true;
  is_directory = λ f. true;
  files = λ f. some (codes "x" ∷ []);
  is_config = λ f. true;
}

parse_ebs_config_directory-Configured_example :
    Configured config_host (codes "/etc") (parse_ebs_config_directory config_host (codes "/etc"))
parse_ebs_config_directory-Configured_example =
    parse_ebs_config_directory-Configured config_host (codes "/etc")

abbrev proc_calls : Calls ℤ
proc_calls = record {
  split = str_split;
  simple_atoi = λ s. none;
  scan_doubles = λ s. [];
  pagesize = 4096;
}

-- Most files are missing.
abbrev few_files : Files
few_files = record {
  arp = none;
  loadavg = none;
  meminfo = none;
  netstat = none;
  dev = none;
  processes = none;
  tasks = λ d. none;
  snmp = none;
  tcp = none;
  tcp6 = none;
  snmp6 = none;
  sockstat = none;
  uptime = some (codes "350 1200");
  stat = none;
  vmstat = none;
  file_nr = none;
}

few_metrics :
    collect_system proc_calls [] few_files ≡ some (ok (metric gauge "sys.uptime" [] (pos 350) ∷ []))
unfolding collect_system str_split
few_metrics = refl

collect_system-containers_example :
    let ms : List (Metric ℤ) = metric gauge "sys.uptime" [] (pos 350) ∷ [] in
    (p : Parts ℤ) × AreParts proc_calls [] few_files p
    × (ms ≡ system_metrics p)
    × (collect_titus proc_calls [] few_files ≡ some (ok (container_metrics p)))
    × (collect_k8s proc_calls [] few_files ≡ some (ok (container_metrics p)))
collect_system-containers_example =
    collect_system-containers proc_calls [] few_files (metric gauge "sys.uptime" [] (pos 350) ∷ [])
      few_metrics
