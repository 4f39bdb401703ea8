-- ===== src/Disk/DiskIo.antt =====
-- disk.cpp: `get_disk_stats` and `diskio_stats`. The split of a line is a parameter, a clock reading
-- and `absl::Duration` too. An exception ends the process, since both functions are `noexcept`.
pub mod Readings
use atlas_system_agent.Base.{
  ℕ, ◌+◌, ◌-◌, ◌*◌, ◌%◌, ◌^◌, Bool, true, false, ◌||◌, Option, none, some, List, [], ◌∷◌, ◌++◌,
  Text, codes, String, eqb, ltb, leb, length, get_elem?, if◌then◌else◌, text_eq,
}
use atlas_system_agent.Base.Dict.{find, assign}
use atlas_system_agent.Base.Int.{ℤ, pos, negsuc, ltb_ℤ}
use atlas_system_agent.Base.Numbers.{stoi, strtoul, u64}
use atlas_system_agent.Base.Outcome.{Outcome, ok, err, terminated, ◌>>=◌}
use atlas_system_agent.Metrics.{Double, of_ℕ, metric, Metric, monotonic_counter, gauge, Tags}
use atlas_system_agent.MonotonicTimer
use atlas_system_agent.MonotonicTimer.{MonotonicTimer, Durations}
use atlas_system_agent.StrSplit.{StrSplit, blank_tab, skip_whitespace}

pub record DiskIo : Type 0 where
  pub major : ℤ
  pub minor : ℤ
  pub device : Text
  pub reads_completed : ℕ
  pub reads_merged : ℕ
  pub rsect : ℕ
  pub ms_reading : ℕ
  pub writes_completed : ℕ
  pub writes_merged : ℕ
  pub wsect : ℕ
  pub ms_writing : ℕ
  pub ios_in_progress : ℕ
  pub ms_doing_io : ℕ
  pub weighted_ms_doing_io : ℕ

-- `std::stoi` in a `noexcept` function.
abbrev stoi_or_end : Text → Outcome ℤ
stoi_or_end s = elim (stoi s) [ none ↦ err terminated | some n ↦ ok n ]

-- A line of at least 14 fields: `none` stops the reading, at a negative major number.
unfoldable pub parse_fields : List Text → Outcome (Option DiskIo)
unfolding strtoul stoi
parse_fields fields = do
  major ← stoi_or_end (field 0)
  if ltb_ℤ major (pos 0) then ok none else do
    minor ← stoi_or_end (field 1)
    ok (
        some (record {
          major = major;
          minor = minor;
          device = field 2;
          reads_completed = strtoul (field 3);
          reads_merged = strtoul (field 4);
          rsect = strtoul (field 5);
          ms_reading = strtoul (field 6);
          writes_completed = strtoul (field 7);
          writes_merged = strtoul (field 8);
          wsect = strtoul (field 9);
          ms_writing = strtoul (field 10);
          ios_in_progress = strtoul (field 11);
          ms_doing_io = strtoul (field 12);
          weighted_ms_doing_io = strtoul (field 13);
        }))
  where
    field : ℕ → Text
    field i = elim (get_elem? fields i) [ none ↦ [] | some s ↦ s ]

-- `get_disk_stats`, on the lines of the file.
unfoldable pub get_disk_stats : StrSplit → List Text → Outcome (List DiskIo)
unfolding parse_fields
get_disk_stats split [] = ok []
get_disk_stats split (line ∷ lines) =
    let fields = split blank_tab skip_whitespace line in
    let rest = get_disk_stats split lines in
    if ltb (length fields) 14 then rest else do
      parsed ← parse_fields fields
      elim parsed [ none ↦ ok [] | some io ↦ (do more ← rest; ok (io ∷ more)) ]

-- The conversion of a `u_long` to `int64_t`.
abbrev to_int64 : ℕ → ℤ
to_int64 n = if ltb n (2 ^ 63) then pos n else negsuc (u64 - 1 - n)

-- The members that `diskio_stats` changes: the timers by device, one for reads and one for writes
-- under the two meter ids of the device, and the busy time of each device.
pub record State (T : Type 0) : Type 0 where
  pub monotonic_timers : List (Text × (MonotonicTimer T × MonotonicTimer T))
  pub last_ms_doing_io : List (Text × ℕ)

abbrev pub is_device : ℤ → ℕ → Bool
is_device (pos n) number = eqb n number
is_device _ number = false

abbrev io_tags : String → Text → Tags
io_tags id device = ("id", codes id) ∷ ("dev", device) ∷ []

module _ {D : Type 0} ⦃fp : Double D⦄ (ds : Durations D) (milliseconds : ℕ → ds.Duration) where
  -- `MonotonicTimer(registry, id)`
  abbrev new_timer : MonotonicTimer ds.Duration
  new_timer = record { prev_time = milliseconds 0; prev_count = pos 0 }

  -- The share of the time since the last update, given in milliseconds, if there was one.
  unfoldable pub busy : Option ℤ → DiskIo → List (Text × ℕ) → List (Metric D)
  busy none st last = []
  busy (some delta_millis) st last =
      let last_time : ℕ = elim (find st.device last) [ none ↦ 0 | some t ↦ t ] in
      if leb last_time st.ms_doing_io
      then metric gauge "disk.percentBusy" (("dev", st.device) ∷ [])
          (fp.div (fp.mul (of_ℕ 100) (of_ℕ (st.ms_doing_io - last_time))) (fp.of_ℤ delta_millis))
        ∷ []
      else []

  abbrev bytes : DiskIo → List (Metric D)
  bytes st =
      metric monotonic_counter "disk.io.bytes" (io_tags "read" st.device)
        (of_ℕ (st.rsect * 512 % u64))
      ∷ metric monotonic_counter "disk.io.bytes" (io_tags "write" st.device)
          (of_ℕ (st.wsect * 512 % u64))
      ∷ []

  -- The body of the loop of `diskio_stats`.
  unfoldable pub device_stats :
      Option ℤ → DiskIo → State ds.Duration → State ds.Duration × List (Metric D)
  unfolding busy MonotonicTimer.update
  device_stats delta st s =
      if is_device st.major 7 || is_device st.major 1
      then (s, [])
      else if is_device st.major 9
      then (s, bytes st)
      else let (reads, writes) : MonotonicTimer ds.Duration × MonotonicTimer ds.Duration =
          elim (find st.device s.monotonic_timers) [
            | none ↦ (new_timer, new_timer)
            | some ts ↦ ts
          ] in
        let (reads', read_metrics) =
          MonotonicTimer.update ds "disk.io.ops" (io_tags "read" st.device) reads
            (milliseconds st.ms_reading)
            (to_int64 ((st.reads_completed + st.reads_merged) % u64)) in
        let (writes', write_metrics) =
          MonotonicTimer.update ds "disk.io.ops" (io_tags "write" st.device) writes
            (milliseconds st.ms_writing)
            (to_int64 ((st.writes_completed + st.writes_merged) % u64)) in
        (
          record {
            monotonic_timers = assign st.device (reads', writes') s.monotonic_timers;
            last_ms_doing_io = assign st.device st.ms_doing_io s.last_ms_doing_io;
          },
          bytes st ++ (read_metrics ++ (write_metrics ++ busy delta st s.last_ms_doing_io)),
        )

  unfoldable pub diskio_stats :
      Option ℤ → List DiskIo → State ds.Duration → State ds.Duration × List (Metric D)
  unfolding device_stats
  diskio_stats delta [] s = (s, [])
  diskio_stats delta (st ∷ stats) s =
      let (s₁, metrics) = device_stats delta st s in
      let (s₂, more) = diskio_stats delta stats s₁ in (s₂, metrics ++ more)
