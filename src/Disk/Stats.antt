-- ===== src/Disk/Stats.antt =====
-- disk.cpp: `do_disk_stats`, with the time of the last update. Times are in nanoseconds.
use atlas_system_agent.Base.{ℕ, Bool, Option, none, some, List, ◌++◌, Text, if◌then◌else◌}
use atlas_system_agent.Base.Int.{ℤ, pos, ◌-ℤ◌, div_trunc, ltb_ℤ}
use atlas_system_agent.Base.Outcome.{Outcome, ok, ◌>>=◌}
use atlas_system_agent.Metrics.{Double, Metric}
use atlas_system_agent.MonotonicTimer.{Durations}
use atlas_system_agent.StrSplit.{StrSplit}
use atlas_system_agent.Disk.DiskIo.{State, get_disk_stats, diskio_stats}
use atlas_system_agent.Disk.Mounts.{stats_for_interesting_mps}
use atlas_system_agent.Disk.Space.{Statvfs}

-- The milliseconds since the last update, if there was one.
abbrev delta_millis : ℤ → ℤ → Option ℤ
delta_millis start last_updated =
    if ltb_ℤ (pos 0) last_updated then some (div_trunc (start -ℤ last_updated) 1000000) else none

-- The files that are read, and the clock when the pass begins and ends.
pub record Pass : Type 0 where
  pub filesystems : List Text
  pub mountinfo : Option Text
  pub diskstats : List Text
  pub start : ℤ
  pub finish : ℤ

module _ {D : Type 0} ⦃fp : Double D⦄ (ds : Durations D) (milliseconds : ℕ → ds.Duration)
    (statvfs : Text → Option Statvfs) (split : StrSplit) where
  -- The metrics, the members that are changed and `last_updated_`. A file diskstats that cannot be
  -- opened has no lines.
  unfoldable pub do_disk_stats :
      Bool
      → Pass
      → State ds.Duration × ℤ
      → Option (Outcome (List (Metric D) × State ds.Duration × ℤ))
  unfolding get_disk_stats diskio_stats stats_for_interesting_mps
  do_disk_stats container pass (s, last_updated) =
      elim (stats_for_interesting_mps statvfs container pass.filesystems pass.mountinfo) [
        | none ↦ none
        | some space ↦ some (
            get_disk_stats split pass.diskstats >>= λ stats.
            let (next, io) =
              diskio_stats ds milliseconds (delta_millis pass.start last_updated) stats s in
            ok (space ++ io, next, pass.finish))
      ]
