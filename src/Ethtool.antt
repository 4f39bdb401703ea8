-- ===== src/Ethtool.antt =====
-- lib/collectors/ethtool/src/ethtool.cpp: the interfaces of `ip link show` and the counters of
-- `ethtool -S`. The split of a line is a parameter.
pub mod Numbers
use atlas_system_agent.Base.{
  ℕ, Bool, true, false, ◌||◌, Option, none, some, List, [], ◌∷◌, ◌++◌, String, Text, codes, eqb,
  if◌then◌else◌, get_elem?,
}
use atlas_system_agent.Base.Int.{ℤ}
use atlas_system_agent.Base.Numbers.{stoll, scan_number, read_signed, skip_space}
use atlas_system_agent.Base.Outcome.{Outcome, ok, err, terminated, undefined, ◌>>=◌}
use atlas_system_agent.Metrics.{Double, metric, Metric, Kind, gauge, monotonic_counter, Tags}
use atlas_system_agent.Ntp.{Parsed, number, invalid_argument, out_of_range}
use atlas_system_agent.Proc.Network.{without_last}
use atlas_system_agent.StrSplit.{StrSplit, allow_empty, blank}
use atlas_system_agent.Tags.{assign_tag}
use atlas_system_agent.Util.Prefix.{is_prefix}

-- `line.find(needle) != npos`
abbrev pub contains : Text → Text → Bool
contains needle [] = is_prefix needle []
contains needle (c ∷ s) = is_prefix needle (c ∷ s) || contains needle s

abbrev pub colon : ℕ → Bool
colon c = eqb c b':'

abbrev is_indented : Text → Bool
is_indented [] = false
is_indented (c ∷ _) = eqb c b' '

-- The second field of each line with an Ethernet device, without its last byte.
unfoldable pub enumerate_interfaces : StrSplit → List Text → Outcome (List Text)
unfolding without_last
enumerate_interfaces split [] = ok []
enumerate_interfaces split (line ∷ lines) =
    let rest = enumerate_interfaces split lines in
    let device : Outcome (List Text) = elim (get_elem? (split blank allow_empty line) 1) [
      | none ↦ err undefined
      | some name ↦ rest >>= λ names. ok (without_last name ∷ names)
    ] in
    if is_indented line then rest else if contains (codes "eth") line then device else rest

-- `std::stoll`, with the exception that it throws.
unfoldable pub parse_number : Text → Parsed
unfolding stoll read_signed skip_space
parse_number s = elim (scan_number s) [
  | none ↦ invalid_argument
  | some _ ↦ elim (stoll s) [ none ↦ out_of_range | some n ↦ number n ]
]

-- A statistic that is looked for: its key, its meter, and whether its tags name a direction.
pub record Stat : Type 0 where
  pub key : String
  pub kind : Kind
  pub meter : String
  pub direction : Option String

abbrev stat : String → Kind → String → Option String → Stat
stat key kind meter direction = record {
  key = key;
  kind = kind;
  meter = meter;
  direction = direction;
}

-- The ladder of searches.
unfoldable pub stat_of : Text → Option Stat
stat_of line =
    if contains (codes "bw_in_allowance_exceeded:") line
    then some (
        stat "bw_in_allowance_exceeded:" monotonic_counter "net.perf.bwAllowanceExceeded"
          (some "in"))
    else if contains (codes "bw_out_allowance_exceeded:") line
    then some (
        stat "bw_out_allowance_exceeded:" monotonic_counter "net.perf.bwAllowanceExceeded"
          (some "out"))
    else if contains (codes "conntrack_allowance_exceeded:") line
    then some (
        stat "conntrack_allowance_exceeded:" monotonic_counter "net.perf.conntrackAllowanceExceeded"
          none)
    else if contains (codes "conntrack_allowance_available:") line
    then some
        (stat "conntrack_allowance_available:" gauge "net.perf.conntrackAllowanceAvailable" none)
    else if contains (codes "linklocal_allowance_exceeded:") line
    then some (
        stat "linklocal_allowance_exceeded:" monotonic_counter "net.perf.linklocalAllowanceExceeded"
          none)
    else if contains (codes "pps_allowance_exceeded:") line
    then some
        (stat "pps_allowance_exceeded:" monotonic_counter "net.perf.ppsAllowanceExceeded" none)
    else none

module _ {D : Type 0} ⦃fp : Double D⦄ (net_tags : Tags) (iface : Text) where
  unfoldable pub stat_metric : Stat → ℤ → Metric D
  unfolding assign_tag
  stat_metric s n =
      let tags : Tags = assign_tag "iface" iface net_tags in
      let tagged : Tags = elim s.direction [
        | none ↦ tags
        | some d ↦ assign_tag "id" (codes d) tags
      ] in
      metric s.kind s.meter tagged (fp.of_ℤ n)

  -- `update_metric`, and the same of the gauge: only `invalid_argument` is caught, and the caller is
  -- `noexcept`.
  unfoldable pub update_metric : StrSplit → Stat → Text → Outcome (List (Metric D))
  unfolding parse_number stat_metric
  update_metric split s line = elim (get_elem? (split colon allow_empty line) 1) [
    | none ↦ err undefined
    | some field ↦ elim (parse_number field) [
      | number n ↦ ok (stat_metric s n ∷ [])
      | invalid_argument ↦ ok []
      | out_of_range ↦ err terminated
    ]
  ]

  unfoldable pub ethtool_stats : StrSplit → List Text → Outcome (List (Metric D))
  unfolding stat_of update_metric
  ethtool_stats split [] = ok []
  ethtool_stats split (line ∷ lines) = elim (stat_of line) [
    | none ↦ ethtool_stats split lines
    | some s ↦
        update_metric split s line >>= λ ms. ethtool_stats split lines >>= λ more. ok (ms ++ more)
  ]

-- `collect`, for the output of the two programs; the interfaces are kept once they are known.
unfoldable pub collect_interfaces :
    {D : Type 0} ⦃fp : Double D⦄
    → Tags
    → StrSplit
    → (Text → List Text)
    → List Text
    → Outcome (List (Metric D))
unfolding ethtool_stats
collect_interfaces net_tags split nic_stats [] = ok []
collect_interfaces net_tags split nic_stats (iface ∷ ifaces) =
    ethtool_stats net_tags iface split (nic_stats iface) >>= λ ms.
    collect_interfaces net_tags split nic_stats ifaces >>= λ more. ok (ms ++ more)

unfoldable pub collect :
    {D : Type 0} ⦃fp : Double D⦄
    → Tags
    → StrSplit
    → Bool
    → List Text
    → (Text → List Text)
    → List Text
    → Outcome (List Text × List (Metric D))
unfolding enumerate_interfaces collect_interfaces
collect {D} net_tags split can_execute ip_links nic_stats interfaces =
    let known : Outcome (List Text) = elim interfaces [
      | [] ↦ enumerate_interfaces split ip_links
      | i ∷ is ↦ ok (i ∷ is)
    ] in
    let run : Outcome (List Text × List (Metric D)) =
      known >>= λ is. collect_interfaces net_tags split nic_stats is >>= λ ms. ok (is, ms) in
    if can_execute then run else ok (interfaces, [])
