-- ===== src/Cgroup/Io.antt =====
-- cgroup.cpp: `FindDeviceNames` and `CGroup::IOStats`, on the fields of the lines of the three files.
pub mod Safe
use atlas_system_agent.Base.{
  ℕ, Bool, true, false, Option, none, some, List, [], ◌∷◌, ◌++◌, Text, codes, eqb, length,
  if◌then◌else◌, text_eq,
}
use atlas_system_agent.Base.Dict.{emplace}
use atlas_system_agent.Base.Outcome.{Outcome, ok, err}
use atlas_system_agent.Metrics.{Double}
use atlas_system_agent.Cgroup.Fields.{ParseDouble}
use atlas_system_agent.Cgroup.IoStat.{IoStats, parse_io_lines}
use atlas_system_agent.Cgroup.IoMax.{parse_io_throttle_lines}
use atlas_system_agent.Cgroup.IoMetrics.{Published, update_io_metrics}

abbrev pub Lines : Type 0
Lines = List (List Text)

-- The name of a line of diskstats under its major and minor numbers; the line has 20 fields.
unfoldable pub add_device : List Text → List (Text × Text) → List (Text × Text)
add_device (major ∷ minor ∷ name ∷ rest) names =
    if eqb (length (major ∷ minor ∷ name ∷ rest)) 20
    then emplace (major ++ (b':' ∷ minor)) name names
    else names
add_device _ names = names

unfoldable pub add_devices : Lines → List (Text × Text) → List (Text × Text)
unfolding add_device
add_devices [] names = names
add_devices (fields ∷ lines) names = add_devices lines (add_device fields names)

unfoldable pub find_device_names : Lines → List (Text × Text)
unfolding add_devices
find_device_names lines = add_devices lines []

module _ {D : Type 0} ⦃fp : Double D⦄ (parse_double : ParseDouble D) where
  -- With the readings of io.stat: the previous readings, what is published, and how the call ends.
  unfoldable pub with_stats :
      List (Text × IoStats D)
      → Lines
      → List (Text × IoStats D)
      → List (Text × IoStats D) × Published D
  unfolding parse_io_throttle_lines update_io_metrics
  with_stats [] max_lines previous = (previous, ([], ok tt))
  with_stats (stat ∷ stats) max_lines previous =
      elim (parse_io_throttle_lines parse_double max_lines) [
        | err e ↦ (previous, ([], err e))
        | ok throttles ↦ update_io_metrics (stat ∷ stats) throttles previous
      ]

  -- `CGroup::IOStats`, on diskstats, io.stat and io.max.
  unfoldable pub io_stats :
      Lines → Lines → Lines → List (Text × IoStats D) → List (Text × IoStats D) × Published D
  unfolding find_device_names parse_io_lines with_stats
  io_stats disk_lines stat_lines max_lines previous =
      elim (parse_io_lines parse_double (find_device_names disk_lines) stat_lines) [
        | err e ↦ (previous, ([], err e))
        | ok stats ↦ with_stats stats max_lines previous
      ]
