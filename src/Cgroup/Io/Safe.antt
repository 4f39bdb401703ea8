-- ===== src/Cgroup/Io/Safe.antt =====
-- cgroup.cpp: whatever the files hold, `IOStats` returns.
use atlas_system_agent.Base.{
  ◌≡◌, refl, Bool, true, false, not, Option, none, some, List, [], ◌∷◌, Text, eqb, ltb, length,
  if◌then◌else◌, text_eq, arith,
}
use atlas_system_agent.Base.Dict.{emplace}
use atlas_system_agent.Base.Outcome.{Outcome, ok, err, ◌>>=◌}
use atlas_system_agent.Metrics.{Double}
use atlas_system_agent.Cgroup.Fields.{ParseDouble}
use atlas_system_agent.Cgroup.IoStat.{
  IoStats, is_complete, parse_io_line, collect_io_lines, parse_io_lines,
}
use atlas_system_agent.Cgroup.IoMax.{
  IoThrottle, is_valid_throttle, parse_io_throttle_line, collect_throttles, parse_io_throttle_lines,
}
use atlas_system_agent.Cgroup.IoMetrics.{Published, update_io_metrics}
use atlas_system_agent.Cgroup.IoMetrics.Deltas.{Values, Values-emplace, update_io_metrics_returns}
use atlas_system_agent.Cgroup.Io.{Lines, find_device_names, with_stats, io_stats}

module _ {V : Type 0} (p : V → Bool) where
  -- A parser's result: it returns, and what it returns passes the test.
  abbrev Parsed : Outcome (Option V) → Type 0
  Parsed (ok none) = Unit
  Parsed (ok (some v)) = p v ≡ true
  Parsed (err e) = true ≡ false

  abbrev Mapped : Outcome (Option (List (Text × V))) → Type 0
  Mapped (ok none) = Unit
  Mapped (ok (some m)) = Values p m
  Mapped (err e) = true ≡ false

  -- One round of a loop that goes on with each parsed value.
  Mapped-bind :
      (r : Outcome (Option V)) (rest : V → Outcome (Option (List (Text × V))))
      → Parsed r
      → ((v : V) → p v ≡ true → Mapped (rest v))
      → Mapped (r >>= λ o. elim o [ none ↦ ok none | some v ↦ rest v ])
  Mapped-bind (ok none) rest h k = tt
  Mapped-bind (ok (some v)) rest h k = k v h
  Mapped-bind (err e) rest h k = h

  -- The tests in front of a round: a line that is skipped, and one that fails them all.
  Mapped-tests :
      (skips fails : Bool) (skipped : Outcome (Option (List (Text × V)))) (r : Outcome (Option V))
      (rest : V → Outcome (Option (List (Text × V))))
      → Mapped skipped
      → Parsed r
      → ((v : V) → p v ≡ true → Mapped (rest v))
      → Mapped (
          if skips
          then skipped
          else if fails
          then ok none
          else (r >>= λ o. elim o [ none ↦ ok none | some v ↦ rest v ]))
  Mapped-tests true fails skipped r rest hs h k = hs
  Mapped-tests false true skipped r rest hs h k = tt
  Mapped-tests false false skipped r rest hs h k = Mapped-bind r rest h k

module _ {D : Type 0} ⦃fp : Double D⦄ (parse_double : ParseDouble D) where
  io_line-Parsed :
      (dev_map : List (Text × Text)) (key : Text) (fields : List Text)
      → Parsed is_complete (parse_io_line parse_double dev_map (key ∷ fields))
  unfolding parse_io_line
  io_line-Parsed dev_map key fields = ground arith

  throttle_line-Parsed :
      (device : Text) (fields : List Text)
      → Parsed is_valid_throttle (parse_io_throttle_line parse_double (device ∷ fields))
  unfolding parse_io_throttle_line
  throttle_line-Parsed device fields = ground arith

  io_lines-Mapped :
      (dev_map : List (Text × Text)) (lines : List (List Text)) (acc : List (Text × IoStats D))
      → Values is_complete acc
      → Mapped is_complete (collect_io_lines parse_double dev_map lines acc)
  unfolding collect_io_lines
  io_lines-Mapped dev_map [] acc h = h
  io_lines-Mapped dev_map ([] ∷ lines) acc h = tt
  io_lines-Mapped dev_map ((key ∷ fields) ∷ lines) acc h =
      Mapped-tests is_complete (eqb (length (key ∷ fields)) 1) (ltb (length (key ∷ fields)) 7)
        (collect_io_lines parse_double dev_map lines acc)
        (parse_io_line parse_double dev_map (key ∷ fields))
        (λ s. collect_io_lines parse_double dev_map lines (emplace s.major_minor s acc))
        (io_lines-Mapped dev_map lines acc h) (io_line-Parsed dev_map key fields)
        (λ s complete.
          io_lines-Mapped dev_map lines (emplace s.major_minor s acc)
            (Values-emplace is_complete s.major_minor s acc complete h))

  throttles-Mapped :
      (lines : List (List Text)) (acc : List (Text × IoThrottle D))
      → Values is_valid_throttle acc
      → Mapped is_valid_throttle (collect_throttles parse_double lines acc)
  unfolding collect_throttles
  throttles-Mapped [] acc h = h
  throttles-Mapped ([] ∷ lines) acc h = tt
  throttles-Mapped ((device ∷ fields) ∷ lines) acc h =
      Mapped-tests is_valid_throttle false (not (eqb (length (device ∷ fields)) 5)) (ok none)
        (parse_io_throttle_line parse_double (device ∷ fields))
        (λ s. collect_throttles parse_double lines (emplace s.device s acc)) tt
        (throttle_line-Parsed device fields)
        (λ s valid.
          throttles-Mapped lines (emplace s.device s acc)
            (Values-emplace is_valid_throttle s.device s acc valid h))

  -- The map that both loops end with, empty after a failure.
  abbrev MappedAll : {V : Type 0} → (V → Bool) → Outcome (List (Text × V)) → Type 0
  MappedAll p (ok m) = Values p m
  MappedAll p (err e) = true ≡ false

  all_of :
      {V : Type 0} (p : V → Bool) (r : Outcome (Option (List (Text × V))))
      → Mapped p r
      → MappedAll p (r >>= λ o. ok (elim o [ none ↦ [] | some m ↦ m ]))
  all_of p (ok none) h = tt
  all_of p (ok (some m)) h = h
  all_of p (err e) h = h

  io_lines-MappedAll :
      (dev_map : List (Text × Text)) (lines : Lines)
      → MappedAll is_complete (parse_io_lines parse_double dev_map lines)
  unfolding parse_io_lines
  io_lines-MappedAll dev_map lines =
      all_of is_complete (collect_io_lines parse_double dev_map lines [])
        (io_lines-Mapped dev_map lines [] tt)

  throttles-MappedAll :
      (lines : Lines) → MappedAll is_valid_throttle (parse_io_throttle_lines parse_double lines)
  unfolding parse_io_throttle_lines
  throttles-MappedAll lines =
      all_of is_valid_throttle (collect_throttles parse_double lines [])
        (throttles-Mapped lines [] tt)

  -- A call that returned and left complete readings.
  abbrev pub Returned : List (Text × IoStats D) × Published D → Type 0
  Returned r = (r.1.1 ≡ ok tt) × Values is_complete r.0

  with_stats_returns :
      (stats : List (Text × IoStats D)) (max_lines : Lines) (previous : List (Text × IoStats D))
      → Values is_complete stats
      → Values is_complete previous
      → Returned (with_stats parse_double stats max_lines previous)
  unfolding with_stats
  with_stats_returns [] max_lines previous hs h = (refl, h)
  with_stats_returns (stat ∷ stats) max_lines previous hs h =
      go (parse_io_throttle_lines parse_double max_lines) (throttles-MappedAll max_lines)
    where
      go :
          (r : Outcome (List (Text × IoThrottle D)))
          → MappedAll is_valid_throttle r
          → Returned (elim r [
            | err e ↦ (previous, ([], err e))
            | ok throttles ↦ update_io_metrics (stat ∷ stats) throttles previous
          ])
      go (ok throttles) ht =
          let (done, kept, _) =
            update_io_metrics_returns (stat ∷ stats) throttles previous hs ht h in
          (done, kept)
      go (err e) ht = cc

  -- Whatever diskstats, io.stat and io.max hold, a call of `IOStats` on complete previous readings
  -- returns without an exception or an access out of bounds, and leaves complete readings.
  pub io_stats_returns :
      (disk_lines stat_lines max_lines : Lines) (previous : List (Text × IoStats D))
      → Values is_complete previous
      → Returned (io_stats parse_double disk_lines stat_lines max_lines previous)
  unfolding io_stats
  io_stats_returns disk_lines stat_lines max_lines previous h =
      go (parse_io_lines parse_double (find_device_names disk_lines) stat_lines)
        (io_lines-MappedAll (find_device_names disk_lines) stat_lines)
    where
      go :
          (r : Outcome (List (Text × IoStats D)))
          → MappedAll is_complete r
          → Returned (elim r [
            | err e ↦ (previous, ([], err e))
            | ok stats ↦ with_stats parse_double stats max_lines previous
          ])
      go (ok stats) hs = with_stats_returns stats max_lines previous hs h
      go (err e) hs = cc
