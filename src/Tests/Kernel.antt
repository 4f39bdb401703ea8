-- ===== src/Tests/Kernel.antt =====
-- lib/collectors/proc: files of a small machine.
use atlas_system_agent.Base.{
  ℕ, ◌+◌, ◌%◌, ◌≡◌, refl, none, some, List, [], ◌∷◌, ◌++◌, map, codes, arith, text_beq,
}
use atlas_system_agent.Base.Int.{ℤ, pos}
use atlas_system_agent.Base.Numbers.{u64, decimal}
use atlas_system_agent.Base.Outcome.{Outcome, ok}
use atlas_system_agent.Metrics.{whole, Metric, Tags}
use atlas_system_agent.StrSplit.{str_split}
use atlas_system_agent.Stdio.Padded.{padded}
use atlas_system_agent.Proc.Memory.{mem_field, memory_stats, kibibytes}
use atlas_system_agent.Proc.Memory.Free
use atlas_system_agent.Proc.Memory.Free.{Entry, known, other, line_of, memory_stats_entries}
use atlas_system_agent.Proc.Network.{network_stats}
use atlas_system_agent.Proc.Network.Ends.{network_stats_ends}
use atlas_system_agent.Proc.Network.Format.{Counters, Iface, lines_of}
use atlas_system_agent.Proc.Tcp.{state_names, update_tcpstates_for_proto}
use atlas_system_agent.Proc.Tcp.Counts.{numbered, update_tcpstates-numbered}
use atlas_system_agent.Proc.Netstat.{SimpleAtoi}
use atlas_system_agent.Proc.Netstat.Columns.{Table}

abbrev net_tags : Tags
net_tags = ("app", codes "demo") ∷ []

unknown_line : mem_field (codes "VmallocTotal: 1 kB" ++ 10 ∷ []) ≡ none
unfolding mem_field text_beq
unknown_line = refl

abbrev meminfo : List Entry
meminfo =
    known Free.mem_total 7 16000
    ∷ known Free.swap_free 2 5
    ∷ other (codes "VmallocTotal: 1 kB" ++ 10 ∷ []) unknown_line
    ∷ known Free.mem_free 3 4000
    ∷ []

-- The first line of testdata/resources/proc/meminfo.
first_line :
    line_of (known Free.mem_total 6 125898216) ≡ codes "MemTotal:       125898216 kB" ++ 10 ∷ []
unfolding decimal
first_line = refl

memory_stats_entries_example :
    memory_stats {D = ℤ} (some (map line_of meminfo))
    ≡ ok (
        Free.readings meminfo ++ kibibytes "mem.totalFree" (Free.free_kibibytes meminfo % u64) ∷ [])
memory_stats_entries_example =
    memory_stats_entries meminfo (omega arith, (omega arith, (tt, (omega arith, tt))))

network_stats_ends_example :
    (r : Outcome (List (Metric ℤ))) × (network_stats net_tags (some (codes "one")) ≡ some r)
network_stats_ends_example = network_stats_ends net_tags (some (codes "one"))

abbrev lo_counters : Counters
lo_counters = record {
  bytes = 141078250858;
  packets = 43006074;
  errs = 0;
  drop = 0;
  fifo = 0;
  frame_or_colls = 0;
  seventh = 0;
  eighth = 0;
}

abbrev loopback : Iface
loopback = record {
  blanks = 4;
  name = codes "lo";
  received_blanks = 0 ∷ 0 ∷ 3 ∷ 3 ∷ 3 ∷ 4 ∷ 9 ∷ 8 ∷ [];
  received = lo_counters;
  sent_blanks = 0 ∷ 0 ∷ 3 ∷ 3 ∷ 3 ∷ 4 ∷ 6 ∷ 9 ∷ [];
  sent = lo_counters;
}

-- The line of testdata/resources/proc/net/dev.
loopback_line :
    lines_of (loopback ∷ [])
    ≡ codes
        "    lo: 141078250858 43006074    0    0    0     0          0         0 141078250858 43006074    0    0    0     0       0          0"
      ++ 10 ∷ []
unfolding padded decimal
loopback_line = refl

update_tcpstates-numbered_example :
    update_tcpstates_for_proto {D = ℤ} str_split net_tags "v4"
      (some (codes "h" ∷ codes "0: a b 0A" ∷ codes "1: a" ∷ codes "2: a b 0A" ∷ []))
    ≡ numbered str_split net_tags "v4"
        (codes "0: a b 0A" ∷ codes "1: a" ∷ codes "2: a b 0A" ∷ [])
        1
        state_names
update_tcpstates-numbered_example =
    update_tcpstates-numbered str_split net_tags "v4" (codes "h")
      (codes "0: a b 0A" ∷ codes "1: a" ∷ codes "2: a b 0A" ∷ [])

-- A reader of one number, enough for the table.
abbrev atoi : SimpleAtoi
atoi (c ∷ []) = some (pos (c + 1))
atoi _ = none

abbrev table : Table
table =
    (codes "IpExt:", codes "IpExt:")
    ∷ (codes "InECT0Pkts", codes "a")
    ∷ (codes "InNoECTPkts", codes "b")
    ∷ (codes "InECT1Pkts", codes "c")
    ∷ []

abbrev tcp_numbers : List ℕ
tcp_numbers = 1 ∷ 200 ∷ 120000 ∷ 3 ∷ 4 ∷ 5 ∷ 6 ∷ 7 ∷ 8 ∷ 9 ∷ 10 ∷ 11 ∷ 12 ∷ []
