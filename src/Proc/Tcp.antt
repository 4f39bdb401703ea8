-- ===== src/Proc/Tcp.antt =====
-- proc.cpp: `sum_tcp_states` to `parse_tcp_connections`.
pub mod Counts
use atlas_system_agent.Base.{
  ℕ, zero, suc, ◌+◌, ◌-◌, Bool, true, false, ◌&&◌, ◌||◌, Option, none, some, List, [], ◌∷◌, ◌++◌,
  String, Text, codes, eqb, ltb, if◌then◌else◌, length, get_elem?, replicate,
}
use atlas_system_agent.Base.Int.{ℤ, pos, pos_part, ltb_ℤ, leb_ℤ}
use atlas_system_agent.Base.Numbers.Hex.{strtol_hex, to_int}
use atlas_system_agent.Metrics.{Double, of_ℕ, metric, Metric, gauge, Tags}
use atlas_system_agent.StrSplit.{StrSplit, skip_empty, blank_tab_newline}
use atlas_system_agent.Tags.{insert_tags}

abbrev pub conn_states : ℕ
conn_states = 11

-- The state of a line of the table; `none` where it has fewer than four fields.
unfoldable pub connection_state : StrSplit → Text → Option ℤ
unfolding strtol_hex to_int
connection_state split line =
    let fields = split blank_tab_newline skip_empty line in
    if ltb (length fields) 4
    then none
    else elim (get_elem? fields 3) [ none ↦ none | some st ↦ some (to_int (strtol_hex st)) ]

-- `++connections[i]`
unfoldable pub increment : ℕ → List ℕ → List ℕ
increment i [] = []
increment zero (n ∷ ns) = (n + 1) ∷ ns
increment (suc i) (n ∷ ns) = n ∷ increment i ns

unfoldable pub count_state : Option ℤ → List ℕ → List ℕ
unfolding increment
count_state none connections = connections
count_state (some state) connections =
    if ltb_ℤ (pos 0) state && leb_ℤ state (pos conn_states)
    then increment (pos_part state - 1) connections
    else connections

unfoldable pub count_states : StrSplit → List Text → List ℕ → List ℕ
unfolding connection_state count_state
count_states split [] connections = connections
count_states split (line ∷ lines) connections =
    count_states split lines (count_state (connection_state split line) connections)

-- The first line is the header.
unfoldable pub sum_tcp_states : StrSplit → List Text → List ℕ → List ℕ
unfolding count_states
sum_tcp_states split [] connections = connections
sum_tcp_states split (header ∷ lines) connections = count_states split lines connections

-- The states from 1 to 11, in the order of `make_tcp_gauges`.
abbrev pub state_names : List String
state_names =
    "established" ∷ "synSent" ∷ "synRecv" ∷ "finWait1" ∷ "finWait2" ∷ "timeWait" ∷ "close"
    ∷ "closeWait" ∷ "lastAck" ∷ "listen" ∷ "closing" ∷ []

module _ {D : Type 0} ⦃fp : Double D⦄ where
  unfoldable pub tcpstate_gauge : Tags → String → String → ℕ → Metric D
  unfolding insert_tags
  tcpstate_gauge net_tags proto state n =
      metric gauge "net.tcp.connectionStates"
        (insert_tags (("id", codes state) ∷ ("proto", codes proto) ∷ []) net_tags) (of_ℕ n)

  abbrev pub set_gauges : Tags → String → List String → List ℕ → List (Metric D)
  set_gauges net_tags proto (state ∷ states) (n ∷ ns) =
      tcpstate_gauge net_tags proto state n ∷ set_gauges net_tags proto states ns
  set_gauges net_tags proto _ _ = []

  unfoldable pub update_tcpstates_for_proto :
      StrSplit → Tags → String → Option (List Text) → List (Metric D)
  unfolding sum_tcp_states tcpstate_gauge
  update_tcpstates_for_proto split net_tags proto none = []
  update_tcpstates_for_proto split net_tags proto (some lines) =
      set_gauges net_tags proto state_names (sum_tcp_states split lines (replicate conn_states 0))

  unfoldable pub parse_tcp_connections :
      StrSplit → Tags → Option (List Text) → Option (List Text) → List (Metric D)
  unfolding update_tcpstates_for_proto
  parse_tcp_connections split net_tags tcp tcp6 =
      update_tcpstates_for_proto split net_tags "v4" tcp
      ++ update_tcpstates_for_proto split net_tags "v6" tcp6
