-- ===== src/Tests/Containers.antt =====
-- lib/collectors/cgroup: the files of a container with one disk.
use atlas_system_agent.Base.{
  ℕ, zero, suc, ◌+◌, ◌-◌, ◌≤◌, eqb, ◌≡◌, refl, Bool, true, false, Option, none, some, List, [], ◌∷◌,
  Text, codes, arith, text_eq, if◌then◌else◌,
}
use atlas_system_agent.Base.Dict.{find}
use atlas_system_agent.Base.Int.{ℤ, pos, negsuc, sub_ℕ}
use atlas_system_agent.Base.Numbers.{stoll}
use atlas_system_agent.Base.Outcome.{ok}
use atlas_system_agent.Metrics.{whole, Metric}
use atlas_system_agent.Cgroup.Fields.{ParseDouble}
use atlas_system_agent.Cgroup.IoStat.{IoStats, parse_io_line, parse_io_lines, is_complete}
use atlas_system_agent.Cgroup.IoStat.Exact as StatExact
use atlas_system_agent.Cgroup.IoStat.Keys.{stat_of, wios}
use atlas_system_agent.Cgroup.IoStat.Exact.{parse_io_line_exact}
use atlas_system_agent.Cgroup.IoMax.{IoThrottle, is_valid_throttle}
use atlas_system_agent.Cgroup.IoMetrics.{update_io_metrics}
use atlas_system_agent.Cgroup.IoMetrics.Deltas.{Values, newest, update_io_metrics_returns}
use atlas_system_agent.Cgroup.Io.{io_stats}
use atlas_system_agent.Cgroup.Io.Safe.{Returned, io_stats_returns}
use atlas_system_agent.Cgroup.Cpu.{Times, Files, initial, cpu_stats}
use atlas_system_agent.Cgroup.Cpu.Returns.{Counters, after, cpu_stats_keeps}
use atlas_system_agent.Cgroup.Memory.{MemoryFiles}

-- Whole numbers for doubles.
abbrev whole_double : ParseDouble ℤ
whole_double s = stoll s

abbrev io_fields : List Text
io_fields =
    codes "rbytes=90430464"
    ∷ codes "wbytes=299008000"
    ∷ codes "rios=8950"
    ∷ codes "wios=1252"
    ∷ codes "dbytes=0"
    ∷ codes "dios=0"
    ∷ codes "cost.vrate=100.00"
    ∷ []

abbrev nvme_stats : IoStats ℤ
nvme_stats = record {
  device_name = codes "nvme0n1";
  major_minor = codes "259:0";
  r_bytes = some (pos 90430464);
  w_bytes = some (pos 299008000);
  r_operations = some (pos 8950);
  w_operations = some (pos 1252);
  d_bytes = some (pos 0);
  d_operations = some (pos 0);
}

abbrev devices : List (Text × Text)
devices = (codes "259:0", codes "nvme0n1") ∷ []

parse_io_line_exact_example :
    (v : ℤ) × (stat_of wios nvme_stats ≡ some v)
    × (StatExact.all_given whole_double wios io_fields ≡ v ∷ [])
unfolding stoll parse_io_line atlas_system_agent.Cgroup.IoStat.parse_stat
    atlas_system_agent.Cgroup.Fields.split_equals atlas_system_agent.Cgroup.IoStat.is_known_key
    atlas_system_agent.Base.text_beq atlas_system_agent.Cgroup.IoStat.set_stat is_complete find
parse_io_line_exact_example =
    parse_io_line_exact whole_double devices (codes "259:0") io_fields {s = nvme_stats} wios refl

abbrev max_fields : List Text
max_fields = codes "rbps=max" ∷ codes "wbps=1048576" ∷ codes "riops=max" ∷ codes "wiops=120" ∷ []

abbrev io_throttle : IoThrottle ℤ
io_throttle = record {
  device = codes "259:0";
  r_bps = some (negsuc 0);
  w_bps = some (pos 1048576);
  r_iops = some (negsuc 0);
  w_iops = some (pos 120);
}

abbrev one_device : List (Text × IoStats ℤ)
one_device = (codes "259:0", nvme_stats) ∷ []

abbrev one_limit : List (Text × IoThrottle ℤ)
one_limit = (codes "259:0", io_throttle) ∷ []

update_io_metrics_returns_example :
    ((update_io_metrics one_device one_limit one_device).1.1 ≡ ok tt)
    × Values is_complete (update_io_metrics one_device one_limit one_device).0
    × ((t : Text)
        → find t (update_io_metrics one_device one_limit one_device).0
          ≡ newest t one_device (find t one_device))
unfolding is_complete is_valid_throttle
update_io_metrics_returns_example =
    update_io_metrics_returns one_device one_limit one_device (refl, tt) (refl, tt) (refl, tt)

-- Times as whole seconds.
abbrev clock : Times ℤ
clock = record {
  Time = ℕ;
  unix_epoch = 0;
  is_unix_epoch = λ t. eqb t 0;
  seconds_before = λ t n. t - n;
  seconds_between = λ a b. sub_ℕ a b;
}

abbrev cpu_stat : List (Text × ℤ)
cpu_stat =
    (codes "usage_usec", pos 900)
    ∷ (codes "user_usec", pos 600)
    ∷ (codes "system_usec", pos 300)
    ∷ (codes "nr_periods", pos 9)
    ∷ (codes "nr_throttled", pos 2)
    ∷ (codes "throttled_usec", pos 70)
    ∷ []

abbrev counters : Counters
counters = record {
  usage = pos 900;
  system = pos 300;
  user = pos 600;
  nr_throttled = pos 2;
  throttled = pos 70;
}

abbrev cpu_files : Files ℤ
cpu_files = record {
  cpu_stat = cpu_stat;
  cpu_weight = pos 100;
  cpu_max = pos 200000 ∷ pos 100000 ∷ [];
  num_cpu = some (pos 2);
}

cpu_stats_keeps_example :
    (metrics : List (Metric ℤ)) × (cpu_stats clock true false (61, 62, 63) cpu_files (initial clock)
      ≡ ok (after ℤ clock true false (61, 62, 63) counters (initial clock), metrics))
unfolding find atlas_system_agent.Base.text_beq
cpu_stats_keeps_example =
    cpu_stats_keeps ℤ clock true false (61, 62, 63) cpu_files (initial clock) counters (pos 100000)
      (record {
        usage_found = refl;
        system_found = refl;
        user_found = refl;
        nr_throttled_found = refl;
        throttled_found = refl;
      })
      refl

abbrev memory_files : MemoryFiles
memory_files = record {
  memory_current = pos 7784;
  memory_max = pos 67108;
  memory_swap_current = pos 0;
  memory_swap_max = pos 100;
  memory_events = [];
  memory_stat = (codes "file", pos 4544) ∷ (codes "shmem", pos 12) ∷ [];
}

-- The second line of io.stat is cut off.
io_stats_returns_example : Returned whole_double (
    io_stats whole_double []
      ((codes "259:0" ∷ io_fields) ∷ (codes "8:0" ∷ codes "rbytes=1" ∷ []) ∷ [])
      ((codes "259:0" ∷ max_fields) ∷ [])
      one_device)
unfolding is_complete
io_stats_returns_example =
    io_stats_returns whole_double []
      ((codes "259:0" ∷ io_fields) ∷ (codes "8:0" ∷ codes "rbytes=1" ∷ []) ∷ [])
      ((codes "259:0" ∷ max_fields) ∷ []) one_device (refl, tt)
