-- ===== src/Proc/Snmp/Printed.antt =====
-- proc.cpp: what `parse_tcp_stats` reads from a printed line, of an old kernel or a new one.
use atlas_system_agent.Base.{
  ℕ, ◌<◌, ◌≡◌, refl, ap, ◌∙◌, List, [], ◌∷◌, ◌++◌, Text, codes, take, All, arith,
}
use atlas_system_agent.Base.Numbers.{u64}
use atlas_system_agent.Base.Outcome.{Outcome, ok, err, undefined}
use atlas_system_agent.Metrics.{Double, of_ℕ, metric, Metric, gauge, Tags}
use atlas_system_agent.Stdio.{sscanf_ulongs}
use atlas_system_agent.Stdio.Decimal.{spaced, scan_ulongs-line, scan_literal-append}
use atlas_system_agent.Proc.Snmp.{with_id, counter_of, tcp_metrics, parse_tcp_stats}

sscanf_ulongs-line :
    (literal : Text) (k : ℕ) (ns : List ℕ)
    → All (λ n. n < u64) ns
    → sscanf_ulongs literal k (literal ++ spaced ns (10 ∷ [])) ≡ take k ns
unfolding sscanf_ulongs
sscanf_ulongs-line literal k ns fits =
    rw (scan_literal-append literal (spaced ns (10 ∷ [])), sscanf_ulongs)
      (scan_ulongs-line k ns fits)

module _ {D : Type 0} ⦃fp : Double D⦄ (net_tags : Tags) where
  -- The numbers behind the twelfth one: the errors received, and the resets sent.
  abbrev pub late_metrics : List ℕ → List (Metric D)
  late_metrics [] = []
  late_metrics (in_errs ∷ []) = counter_of net_tags "net.tcp.errors" (with_id "inErrs") in_errs ∷ []
  late_metrics (in_errs ∷ out_rsts ∷ _) =
      counter_of net_tags "net.tcp.errors" (with_id "inErrs") in_errs
      ∷ counter_of net_tags "net.tcp.errors" (with_id "outRsts") out_rsts
      ∷ []

  -- The metrics of the numbers by their places in the line; twelve are needed.
  abbrev pub tcp_by_place : List ℕ → Outcome (List (Metric D))
  tcp_by_place
        (_ ∷ _ ∷ _ ∷ _ ∷ active ∷ passive ∷ fails ∷ resets ∷ estab ∷ received ∷ sent ∷ retrans
          ∷ late) =
      ok (
        counter_of net_tags "net.tcp.segments" (with_id "in") received
        ∷ counter_of net_tags "net.tcp.segments" (with_id "out") sent
        ∷ counter_of net_tags "net.tcp.errors" (with_id "retransSegs") retrans
        ∷ counter_of net_tags "net.tcp.opens" (with_id "active") active
        ∷ counter_of net_tags "net.tcp.opens" (with_id "passive") passive
        ∷ counter_of net_tags "net.tcp.errors" (with_id "attemptFails") fails
        ∷ counter_of net_tags "net.tcp.errors" (with_id "estabResets") resets
        ∷ metric gauge "net.tcp.currEstab" net_tags (of_ℕ estab)
        ∷ late_metrics late)
  tcp_by_place _ = err undefined

  tcp_metrics-by_place : (values : List ℕ) → tcp_metrics net_tags values ≡ tcp_by_place values
  unfolding tcp_metrics
  tcp_metrics-by_place
        (a ∷ b ∷ c ∷ d ∷ active ∷ passive ∷ fails ∷ resets ∷ estab ∷ received ∷ sent ∷ retrans
          ∷ []) =
      refl
  tcp_metrics-by_place
        (a ∷ b ∷ c ∷ d ∷ active ∷ passive ∷ fails ∷ resets ∷ estab ∷ received ∷ sent ∷ retrans ∷ e
          ∷ []) =
      refl
  tcp_metrics-by_place
        (a ∷ b ∷ c ∷ d ∷ active ∷ passive ∷ fails ∷ resets ∷ estab ∷ received ∷ sent ∷ retrans ∷ e
          ∷ r ∷ late) =
      ground arith
  tcp_metrics-by_place _ = refl

  -- Of a line of numbers that fit 64 bits, the first fourteen become metrics by their places: with
  -- twelve numbers all but the errors received and the resets sent, which a thirteenth and a
  -- fourteenth number add. With fewer than twelve, variables are read that have no value.
  pub parse_tcp_stats-by_place :
      (ns : List ℕ)
      → All (λ n. n < u64) ns
      → parse_tcp_stats net_tags (codes "Tcp:" ++ spaced ns (10 ∷ [])) ≡ tcp_by_place (take 14 ns)
  unfolding parse_tcp_stats
  parse_tcp_stats-by_place ns fits =
      ap (tcp_metrics net_tags) (sscanf_ulongs-line (codes "Tcp:") 14 ns fits)
      ∙ tcp_metrics-by_place (take 14 ns)
