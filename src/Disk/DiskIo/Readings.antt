-- ===== src/Disk/DiskIo/Readings.antt =====
-- disk.cpp: the busy times that a pass of `diskio_stats` leaves for the next one.
use atlas_system_agent.Base.{
  ℕ, ◌≡◌, refl, ap, ◌∙◌, Bool, ◌||◌, not, Option, some, List, [], ◌∷◌, Text, if◌then◌else◌, text_eq,
  text_beq, arith,
}
use atlas_system_agent.Base.Dict.{find, find-assign}
use atlas_system_agent.Base.Int.{ℤ}
use atlas_system_agent.Metrics.{Double}
use atlas_system_agent.MonotonicTimer.{Durations}
use atlas_system_agent.Disk.DiskIo.{DiskIo, State, is_device, device_stats, diskio_stats}

-- A device with timing statistics: not a loop, RAM or multiple device.
abbrev pub is_timed : DiskIo → Bool
is_timed st = not (is_device st.major 7 || (is_device st.major 1 || is_device st.major 9))

-- The busy time of the device in its last timed reading, or the earlier one.
abbrev pub last_reading : Text → List DiskIo → Option ℕ → Option ℕ
last_reading device [] before = before
last_reading device (st ∷ stats) before = last_reading device stats (
    if is_timed st
    then (if text_beq st.device device then some st.ms_doing_io else before)
    else before)

module _ (D : Type 0) ⦃fp : Double D⦄ (ds : Durations D) (milliseconds : ℕ → ds.Duration) where
  device_stats-find :
      (delta : Option ℤ) (st : DiskIo) (device : Text) (s : State ds.Duration)
      → find device (device_stats ds milliseconds delta st s).0.last_ms_doing_io ≡ (
          if is_timed st
          then (if text_beq st.device device
              then some st.ms_doing_io
              else find device s.last_ms_doing_io)
          else find device s.last_ms_doing_io)
  unfolding device_stats
  device_stats-find delta st device s =
      let found = find-assign st.device device st.ms_doing_io s.last_ms_doing_io in ground arith

  -- After a pass, the busy time that is kept for a device is that of its last reading with timing
  -- statistics, and without one it is unchanged.
  pub diskio_stats-find :
      (delta : Option ℤ) (stats : List DiskIo) (device : Text) (s : State ds.Duration)
      → find device (diskio_stats ds milliseconds delta stats s).0.last_ms_doing_io
        ≡ last_reading device stats (find device s.last_ms_doing_io)
  unfolding diskio_stats
  diskio_stats-find delta [] device s = refl
  diskio_stats-find delta (st ∷ stats) device s =
      diskio_stats-find delta stats device (device_stats ds milliseconds delta st s).0
      ∙ ap (last_reading device stats) (device_stats-find delta st device s)
