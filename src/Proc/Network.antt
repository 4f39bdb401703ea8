-- ===== src/Proc/Network.antt =====
-- proc.cpp: `network_stats` and `handle_line`, on the bytes of the file as a stream.
pub mod Ends
pub mod Format
pub mod Lines
use atlas_system_agent.Base.{
  ℕ, zero, suc, Bool, true, false, Option, none, some, List, [], ◌∷◌, ◌++◌, Text, String, codes,
  eqb, ltb, if◌then◌else◌, length, get_elem?,
}
use atlas_system_agent.Base.Int.{ℤ, ◌+ℤ◌}
use atlas_system_agent.Base.Outcome.{Outcome, ok, err, undefined, ◌>>=◌}
use atlas_system_agent.Metrics.{Double, metric, Metric, monotonic_counter, Tags}
use atlas_system_agent.Stdio.{scan_token, scan_longs}
use atlas_system_agent.Tags.{emplace_tag}

-- The bytes that are left, and `feof`: a read has met the end.
pub record Stream : Type 0 where
  pub rest : Text
  pub at_end : Bool

abbrev pub stream : Text → Bool → Stream
stream rest at_end = record { rest = rest; at_end = at_end }

abbrev pub is_empty : Text → Bool
is_empty [] = true
is_empty (_ ∷ _) = false

-- A conversion reads up to a byte that it cannot use, so it meets the end where nothing is left.
abbrev pub scanned : Text → Stream
scanned rest = stream rest (is_empty rest)

unfoldable pub discard : Text → Stream
discard [] = stream [] true
discard (c ∷ s) = let more = discard s in if eqb c b'\n' then stream s false else more

unfoldable pub discard_line : Stream → Stream
unfolding discard
discard_line s = discard s.rest

abbrev pub iface_size : ℕ
iface_size = 4096

-- `iface[strlen(iface) - 1] = '\0'`
unfoldable pub without_last : Text → Text
without_last [] = []
without_last (c ∷ []) = []
without_last (c ∷ d ∷ s) = c ∷ without_last (d ∷ s)

-- The variable that the `i`th conversion of `now` assigns, if not that of the call before.
abbrev pub variable : List ℤ → List ℤ → ℕ → Option ℤ
variable now before i = elim (get_elem? now i) [ some v ↦ some v | none ↦ get_elem? before i ]

abbrev pub assigned : Option ℤ → Outcome ℤ
assigned none = err undefined
assigned (some v) = ok v

module _ {D : Type 0} ⦃fp : Double D⦄ where
  abbrev pub counter_of : Tags → String → ℤ → Metric D
  counter_of tags name v = metric monotonic_counter name tags (fp.of_ℤ v)

  -- The first call's counters, of its nine conversions; a variable without a value is read all the same.
  unfoldable pub in_metrics : Tags → Text → List ℤ → Outcome (List (Metric D))
  unfolding emplace_tag
  in_metrics net_tags iface values =
      let tags : Tags = emplace_tag "id" (codes "in") (emplace_tag "iface" iface net_tags) in
      elim values [
        | bytes ∷ packets ∷ errs ∷ drop ∷ fifo ∷ frame ∷ _ ↦ ok (
            counter_of tags "net.iface.bytes" bytes
            ∷ counter_of tags "net.iface.packets" packets
            ∷ counter_of tags "net.iface.errors" (errs +ℤ fifo +ℤ frame)
            ∷ counter_of tags "net.iface.droppedPackets" drop
            ∷ [])
        | _ ↦ err undefined
      ]

  -- The second call's counters, of its eight conversions, for one conversion or more.
  unfoldable pub out_metrics : Tags → Text → List ℤ → List ℤ → Outcome (List (Metric D))
  unfolding emplace_tag
  out_metrics net_tags iface before now =
      let tags : Tags = emplace_tag "iface" iface net_tags in
      let out_tags : Tags = emplace_tag "id" (codes "out") tags in
      do
        bytes ← assigned (variable now before 0)
        packets ← assigned (variable now before 1)
        errs ← assigned (variable now before 2)
        drop ← assigned (variable now before 3)
        fifo ← assigned (variable now before 4)
        colls ← assigned (get_elem? now 5)
        ok (
            counter_of tags "net.iface.collisions" colls
            ∷ counter_of out_tags "net.iface.bytes" bytes
            ∷ counter_of out_tags "net.iface.packets" packets
            ∷ counter_of out_tags "net.iface.errors" (errs +ℤ fifo)
            ∷ counter_of out_tags "net.iface.droppedPackets" drop
            ∷ [])

  abbrev if_any : List ℤ → Outcome (List (Metric D)) → Outcome (List (Metric D))
  if_any [] m = ok []
  if_any (_ ∷ _) m = m

  unfoldable pub handle_line : Tags → Stream → Outcome (List (Metric D) × Stream)
  unfolding in_metrics out_metrics scan_token scan_longs without_last
  handle_line net_tags s = elim (scan_token s.rest) [
    | none ↦ ok ([], scanned [])
    | some (token, rest) ↦
        let (values, rest1) = scan_longs 8 rest in
        let (values2, rest2) = scan_longs 8 rest1 in
        let iface = without_last token in
        let sent = if_any values2 (out_metrics net_tags iface values values2) in
        let read : Outcome (List (Metric D) × Stream) =
          in_metrics net_tags iface values >>= λ received.
          sent >>= λ more. ok (received ++ more, scanned rest2) in
        if ltb (length token) iface_size then read else err undefined
  ]

  -- `while (!feof(fp))`; `none` means that the fuel ran out.
  unfoldable pub network_lines : Tags → ℕ → Stream → Option (Outcome (List (Metric D)))
  unfolding handle_line
  network_lines net_tags zero s = none
  network_lines net_tags (suc fuel) s =
      let round : Option (Outcome (List (Metric D))) = elim (handle_line net_tags s) [
        | err e ↦ some (err e)
        | ok (ms, t) ↦ elim (network_lines net_tags fuel t) [
          | none ↦ none
          | some r ↦ some (r >>= λ more. ok (ms ++ more))
        ]
      ] in
      if s.at_end then some (ok []) else round

  -- The file's bytes; `none` is a file that cannot be opened.
  unfoldable pub network_stats : Tags → Option Text → Option (Outcome (List (Metric D)))
  unfolding discard_line network_lines
  network_stats net_tags none = some (ok [])
  network_stats net_tags (some content) =
      network_lines net_tags (suc (suc (length content)))
        (discard_line (discard_line (stream content false)))
