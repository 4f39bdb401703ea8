-- ===== src/Proc/Netstat.antt =====
-- proc.cpp: `netstat_stats` and `socket_stats`. `absl::SimpleAtoi` is a parameter; `none` is a text that
-- it refuses.
pub mod Columns
use atlas_system_agent.Base.{
  ℕ, zero, suc, ◌-◌, ◌*◌, ◌%◌, Bool, true, false, ◌||◌, Option, none, some, List, [], ◌∷◌, String,
  Text, codes, eqb, if◌then◌else◌, length, get_elem?, ◌==◌, text_eq,
}
use atlas_system_agent.Base.Int.{ℤ, pos, negsuc, ltb_ℤ, ◌+ℤ◌}
use atlas_system_agent.Base.Numbers.{u64}
use atlas_system_agent.Base.Outcome.{Outcome, ok, err, undefined, terminated, ◌>>=◌}
use atlas_system_agent.Metrics.{Double, of_ℕ, metric, Metric, gauge, monotonic_counter, Tags}
use atlas_system_agent.StrSplit.{StrSplit, skip_empty, blank_tab_newline}
use atlas_system_agent.Tags.{insert_tags}
use atlas_system_agent.Util.{starts_with}

abbrev pub SimpleAtoi : Type 0
SimpleAtoi = Text → Option ℤ

unfoldable pub to_int64_or_zero : SimpleAtoi → Text → ℤ
to_int64_or_zero atoi s = elim (atoi s) [ none ↦ pos 0 | some n ↦ n ]

pub record Ecn : Type 0 where
  pub no_ect : ℤ
  pub ect : ℤ
  pub congested : ℤ

abbrev pub no_ecn : Ecn
no_ecn = record { no_ect = pos 0; ect = pos 0; congested = pos 0 }

-- A round of the loop over the headers.
unfoldable pub read_header : SimpleAtoi → Text → Text → Ecn → Ecn
unfolding to_int64_or_zero
read_header atoi header value e =
    if header == codes "InNoECTPkts"
    then record e { no_ect = to_int64_or_zero atoi value }
    else if header == codes "InECT1Pkts" || header == codes "InECT0Pkts"
    then record e { ect = e.ect +ℤ to_int64_or_zero atoi value }
    else if header == codes "InCEPkts"
    then record e { congested = to_int64_or_zero atoi value }
    else e

-- The loop, over lists of one length.
unfoldable pub read_headers : SimpleAtoi → List Text → List Text → Ecn → Ecn
unfolding read_header
read_headers atoi (header ∷ headers) (value ∷ values) e =
    read_headers atoi headers values (read_header atoi header value e)
read_headers atoi _ _ e = e

-- The loop over the lines: `none` where the table's second line is missing. The default build keeps
-- `assert`, which ends the process.
unfoldable pub netstat_lines : StrSplit → SimpleAtoi → List Text → Outcome (Option Ecn)
unfolding starts_with read_headers
netstat_lines split atoi [] = ok (some no_ecn)
netstat_lines split atoi (line ∷ []) =
    if starts_with line (codes "IpExt:") then ok none else ok (some no_ecn)
netstat_lines split atoi (line ∷ next ∷ lines) =
    let more = netstat_lines split atoi (next ∷ lines) in
    let headers = split blank_tab_newline skip_empty line in
    let values = split blank_tab_newline skip_empty next in
    let table =
      if eqb (length values) (length headers)
      then ok (some (read_headers atoi headers values no_ecn))
      else err terminated in
    if starts_with line (codes "IpExt:") then table else more

-- The product of an `int64_t` and a `size_t` is a `size_t`.
abbrev to_size : ℤ → ℕ
to_size (pos n) = n % u64
to_size (negsuc n) = u64 - 1 - n % u64

module _ {D : Type 0} ⦃fp : Double D⦄ where
  unfoldable pub ecn_metrics : Tags → Ecn → List (Metric D)
  unfolding insert_tags
  ecn_metrics net_tags e =
      let tagged : List (String × Text) → Tags = λ t. insert_tags t net_tags in
      if ltb_ℤ (pos 0) e.ect || ltb_ℤ (pos 0) e.no_ect
      then metric monotonic_counter "net.ip.congestedPackets" (tagged (("proto", codes "v4") ∷ []))
          (fp.of_ℤ e.congested)
        ∷ metric monotonic_counter "net.ip.ectPackets"
            (tagged (("id", codes "capable") ∷ ("proto", codes "v4") ∷ [])) (fp.of_ℤ e.ect)
        ∷ metric monotonic_counter "net.ip.ectPackets"
            (tagged (("id", codes "notCapable") ∷ ("proto", codes "v4") ∷ [])) (fp.of_ℤ e.no_ect)
        ∷ []
      else []

  unfoldable pub netstat_stats :
      StrSplit → SimpleAtoi → Tags → Option (List Text) → Outcome (List (Metric D))
  unfolding netstat_lines ecn_metrics
  netstat_stats split atoi net_tags none = ok []
  netstat_stats split atoi net_tags (some lines) = netstat_lines split atoi lines >>= λ r.
      ok (elim r [ none ↦ [] | some e ↦ ecn_metrics net_tags e ])

  -- The loop over the values of the line; the value behind the last one is read all the same.
  unfoldable pub mem_values : SimpleAtoi → ℕ → List Text → Outcome (List (Metric D))
  unfolding to_int64_or_zero
  mem_values atoi pagesize [] = ok []
  mem_values atoi pagesize (value ∷ values) =
      let more = mem_values atoi pagesize values in
      let memory : Outcome (List (Metric D)) = elim values [
        | [] ↦ err undefined
        | next ∷ _ ↦ more >>= λ ms. ok (
            metric gauge "net.tcp.memory" []
              (of_ℕ (to_size (to_int64_or_zero atoi next) * pagesize % u64))
            ∷ ms)
      ] in
      if value == codes "mem" then memory else more

  unfoldable pub socket_lines : StrSplit → SimpleAtoi → ℕ → List Text → Outcome (List (Metric D))
  unfolding mem_values starts_with
  socket_lines split atoi pagesize [] = ok []
  socket_lines split atoi pagesize (line ∷ lines) =
      let more = socket_lines split atoi pagesize lines in
      if starts_with line (codes "TCP:")
      then mem_values atoi pagesize (split blank_tab_newline skip_empty line)
      else more

  unfoldable pub socket_stats :
      StrSplit → SimpleAtoi → ℕ → Option (List Text) → Outcome (List (Metric D))
  unfolding socket_lines
  socket_stats split atoi pagesize none = ok []
  socket_stats split atoi pagesize (some lines) = socket_lines split atoi pagesize lines
