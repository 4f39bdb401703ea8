-- ===== src/Proc/Network/Lines.antt =====
-- proc.cpp: what `network_stats` reads from a file in the format of the kernel.
use atlas_system_agent.Base.{◌+◌, List, [], ◌∷◌, ◌++◌, codes}
use atlas_system_agent.Base.Int.{pos}
use atlas_system_agent.Metrics.{Double, Metric, Tags}
use atlas_system_agent.Tags.{emplace_tag}
use atlas_system_agent.Proc.Network.{counter_of}
use atlas_system_agent.Proc.Network.Format.{Iface}

module _ {D : Type 0} ⦃fp : Double D⦄ (net_tags : Tags) where
  -- The metrics of an interface: what it received, and what it sent.
  abbrev pub iface_metrics : Iface → List (Metric D)
  iface_metrics i =
      let r = i.received in
      let t = i.sent in
      let tags : Tags = emplace_tag "iface" i.name net_tags in
      let in_tags : Tags = emplace_tag "id" (codes "in") tags in
      let out_tags : Tags = emplace_tag "id" (codes "out") tags in
      counter_of in_tags "net.iface.bytes" (pos r.bytes)
      ∷ counter_of in_tags "net.iface.packets" (pos r.packets)
      ∷ counter_of in_tags "net.iface.errors" (pos (r.errs + r.fifo + r.frame_or_colls))
      ∷ counter_of in_tags "net.iface.droppedPackets" (pos r.drop)
      ∷ counter_of tags "net.iface.collisions" (pos t.frame_or_colls)
      ∷ counter_of out_tags "net.iface.bytes" (pos t.bytes)
      ∷ counter_of out_tags "net.iface.packets" (pos t.packets)
      ∷ counter_of out_tags "net.iface.errors" (pos (t.errs + t.fifo))
      ∷ counter_of out_tags "net.iface.droppedPackets" (pos t.drop)
      ∷ []

  abbrev pub all_metrics : List Iface → List (Metric D)
  all_metrics [] = []
  all_metrics (i ∷ is) = iface_metrics i ++ all_metrics is
