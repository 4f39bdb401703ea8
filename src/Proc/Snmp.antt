-- ===== src/Proc/Snmp.antt =====
-- proc.cpp: `snmp_stats` and what it calls. A file is the buffers that `fgets` fills; `none` is a file
-- that cannot be opened.
pub mod Printed
use atlas_system_agent.Base.{
  ℕ, ◌+◌, Bool, true, false, Option, none, some, List, [], ◌∷◌, ◌++◌, String, Text, codes, ltb,
  if◌then◌else◌, length, get_elem?, text_eq,
}
use atlas_system_agent.Base.Dict.{find}
use atlas_system_agent.Base.Int.{ℤ, pos, ◌+ℤ◌}
use atlas_system_agent.Base.Outcome.{Outcome, ok, err, undefined, ◌>>=◌}
use atlas_system_agent.Metrics.{Double, of_ℕ, metric, Metric, Kind, gauge, monotonic_counter, Tags}
use atlas_system_agent.Stdio.{sscanf_ulongs}
use atlas_system_agent.StrSplit.{StrSplit}
use atlas_system_agent.Tags.{insert_tags}
use atlas_system_agent.Util.{starts_with, KeyValues, parse_kv_from_file}
use atlas_system_agent.Proc.Tcp.{parse_tcp_connections}

abbrev pub with_id : String → Tags
with_id id = ("id", codes id) ∷ []

abbrev pub with_proto : String → String → Tags
with_proto id proto = ("id", codes id) ∷ ("proto", codes proto) ∷ []

-- The variable that the `i`th conversion assigns; it is read all the same where it has no value.
abbrev pub assigned : List ℕ → ℕ → Outcome ℕ
assigned values i = elim (get_elem? values i) [ none ↦ err undefined | some n ↦ ok n ]

abbrev pub or_zero : Option ℤ → ℤ
or_zero none = pos 0
or_zero (some n) = n

module _ {D : Type 0} ⦃fp : Double D⦄ (net_tags : Tags) where
  abbrev pub meter : Kind → String → Tags → ℕ → Metric D
  meter kind name tags n = metric kind name (insert_tags tags net_tags) (of_ℕ n)

  abbrev pub counter_of : String → Tags → ℕ → Metric D
  counter_of = meter monotonic_counter

  unfoldable pub parse_ip_stats : Text → Outcome (List (Metric D))
  unfolding sscanf_ulongs insert_tags
  parse_ip_stats buf =
      let values = sscanf_ulongs (codes "Ip:") 19 buf in
      do
        in_receives ← assigned values 2
        in_discards ← assigned values 7
        out_requests ← assigned values 9
        out_discards ← assigned values 10
        reasm_reqds ← assigned values 13
        ok (
            counter_of "net.ip.datagrams" (with_proto "in" "v4") in_receives
            ∷ counter_of "net.ip.discards" (with_proto "in" "v4") in_discards
            ∷ counter_of "net.ip.datagrams" (with_proto "out" "v4") out_requests
            ∷ counter_of "net.ip.discards" (with_proto "out" "v4") out_discards
            ∷ counter_of "net.ip.reasmReqds" (("proto", codes "v4") ∷ []) reasm_reqds
            ∷ [])

  -- The counters of the last two numbers, which old kernels do not print.
  abbrev pub late_errors : List ℕ → Outcome (List (Metric D))
  late_errors values =
      let in_errs : Outcome (List (Metric D)) =
        assigned values 12 >>= λ n. ok (counter_of "net.tcp.errors" (with_id "inErrs") n ∷ []) in
      let out_rsts : Outcome (List (Metric D)) =
        assigned values 13 >>= λ n. ok (counter_of "net.tcp.errors" (with_id "outRsts") n ∷ []) in
      (if ltb 12 (length values) then in_errs else ok []) >>= λ one.
      (if ltb 13 (length values) then out_rsts else ok []) >>= λ two. ok (one ++ two)

  -- What is sent for the values that are read.
  unfoldable pub tcp_metrics : List ℕ → Outcome (List (Metric D))
  unfolding insert_tags
  tcp_metrics values = do
    in_segs ← assigned values 9
    out_segs ← assigned values 10
    retrans_segs ← assigned values 11
    active_opens ← assigned values 4
    passive_opens ← assigned values 5
    attempt_fails ← assigned values 6
    estab_resets ← assigned values 7
    curr_estab ← assigned values 8
    late ← late_errors values
    ok (
        counter_of "net.tcp.segments" (with_id "in") in_segs
        ∷ counter_of "net.tcp.segments" (with_id "out") out_segs
        ∷ counter_of "net.tcp.errors" (with_id "retransSegs") retrans_segs
        ∷ counter_of "net.tcp.opens" (with_id "active") active_opens
        ∷ counter_of "net.tcp.opens" (with_id "passive") passive_opens
        ∷ counter_of "net.tcp.errors" (with_id "attemptFails") attempt_fails
        ∷ counter_of "net.tcp.errors" (with_id "estabResets") estab_resets
        ∷ metric gauge "net.tcp.currEstab" net_tags (of_ℕ curr_estab)
        ∷ late)

  unfoldable pub parse_tcp_stats : Text → Outcome (List (Metric D))
  unfolding sscanf_ulongs tcp_metrics
  parse_tcp_stats buf = tcp_metrics (sscanf_ulongs (codes "Tcp:") 14 buf)

  unfoldable pub parse_udp_stats : Text → Outcome (List (Metric D))
  unfolding sscanf_ulongs insert_tags
  parse_udp_stats buf =
      let values = sscanf_ulongs (codes "Udp:") 4 buf in
      do
        in_datagrams ← assigned values 0
        in_errors ← assigned values 2
        out_datagrams ← assigned values 3
        ok (
            counter_of "net.udp.datagrams" (with_proto "in" "v4") in_datagrams
            ∷ counter_of "net.udp.errors" (with_proto "inErrors" "v4") in_errors
            ∷ counter_of "net.udp.datagrams" (with_proto "out" "v4") out_datagrams
            ∷ [])

  -- The counter of a key, if the file has it.
  abbrev pub if_present : KeyValues → String → String → Tags → List (Metric D)
  if_present stats key name tags = elim (find (codes key) stats) [
    | none ↦ []
    | some n ↦ metric monotonic_counter name (insert_tags tags net_tags) (fp.of_ℤ n) ∷ []
  ]

  unfoldable pub parse_ipv6_stats : KeyValues → List (Metric D)
  unfolding insert_tags
  parse_ipv6_stats stats =
      let ect_capable =
        pos 0
        +ℤ or_zero (find (codes "Ip6InECT0Pkts") stats)
        +ℤ or_zero (find (codes "Ip6InECT1Pkts") stats) in
      if_present stats "Ip6InReceives" "net.ip.datagrams" (with_proto "in" "v6")
      ++ (if_present stats "Ip6InDiscards" "net.ip.discards" (with_proto "in" "v6")
          ++ (if_present stats "Ip6OutRequests" "net.ip.datagrams" (with_proto "out" "v6")
              ++ (if_present stats "Ip6OutDiscards" "net.ip.discards" (with_proto "out" "v6")
                  ++ (if_present stats "Ip6ReasmReqds" "net.ip.reasmReqds"
                        (("proto", codes "v6") ∷ [])
                      ++ metric monotonic_counter "net.ip.ectPackets"
                          (insert_tags (with_proto "capable" "v6") net_tags) (fp.of_ℤ ect_capable)
                        ∷ (if_present stats "Ip6InNoECTPkts" "net.ip.ectPackets"
                              (with_proto "notCapable" "v6")
                            ++ if_present stats "Ip6InCEPkts" "net.ip.congestedPackets"
                                (("proto", codes "v6") ∷ []))))))

  unfoldable pub parse_udpv6_stats : KeyValues → List (Metric D)
  unfolding insert_tags
  parse_udpv6_stats stats =
      if_present stats "Udp6InDatagrams" "net.udp.datagrams" (with_proto "in" "v6")
      ++ (if_present stats "Udp6InErrors" "net.udp.errors" (with_proto "inErrors" "v6")
          ++ if_present stats "Udp6OutDatagrams" "net.udp.datagrams" (with_proto "out" "v6"))

  -- Which parser reads the line behind this one.
  unfoldable pub snmp_parser : Text → Option (Text → Outcome (List (Metric D)))
  unfolding starts_with parse_ip_stats parse_tcp_stats parse_udp_stats
  snmp_parser line =
      if starts_with line (codes "Ip: ")
      then some parse_ip_stats
      else if starts_with line (codes "Tcp: ")
      then some parse_tcp_stats
      else if starts_with line (codes "Udp: ")
      then some parse_udp_stats
      else none

  -- The loop, which reads a header and the line behind it.
  unfoldable pub snmp_lines : List Text → Outcome (List (Metric D))
  unfolding snmp_parser
  snmp_lines [] = ok []
  snmp_lines (line ∷ []) = ok []
  snmp_lines (line ∷ next ∷ lines) = elim (snmp_parser line) [
    | none ↦ snmp_lines (next ∷ lines)
    | some parse ↦ parse next >>= λ ms. snmp_lines lines >>= λ more. ok (ms ++ more)
  ]

  unfoldable pub snmp_stats :
      StrSplit
      → Option (List Text)
      → Option (List Text)
      → Option (List Text)
      → Option (List Text)
      → Outcome (List (Metric D))
  unfolding snmp_lines parse_tcp_connections parse_ipv6_stats parse_udpv6_stats parse_kv_from_file
  snmp_stats split none tcp tcp6 snmp6 = ok []
  snmp_stats split (some lines) tcp tcp6 snmp6 =
      let stats = parse_kv_from_file snmp6 [] in
      snmp_lines lines >>= λ ms. ok (
        ms
        ++ (parse_tcp_connections split net_tags tcp tcp6
            ++ (parse_ipv6_stats stats ++ parse_udpv6_stats stats)))
