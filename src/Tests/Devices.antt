-- ===== src/Tests/Devices.antt =====
-- lib/collectors/disk, ntp and pressure_stall: small inputs.
use atlas_system_agent.Base.{
  ℕ, zero, suc, ◌+◌, ◌-◌, ◌*◌, ◌^◌, ◌≤◌, ◌<◌, ◌≡◌, ◌≢◌, refl, Bool, true, false, Option, none, some,
  List, [], ◌∷◌, ◌++◌, Text, codes, arith, text_beq, text_eq, nat_eq, if◌then◌else◌, All,
}
use atlas_system_agent.Base.Int.{ℤ, pos, ◌-ℤ◌}
use atlas_system_agent.Base.Outcome.{ok, err, terminated}
use atlas_system_agent.Base.Numbers.{skip_space, read_signed, read_digits, digits_onto}
use atlas_system_agent.Metrics.{whole}
use atlas_system_agent.Stdio.{after_number, skip_digits}
use atlas_system_agent.Util.{starts_with, token}
use atlas_system_agent.MonotonicTimer.{Durations}
use atlas_system_agent.StrSplit.{str_split}
use atlas_system_agent.Disk.MountPoints.{MountPoint, filter_interesting_mount_points}
use atlas_system_agent.Disk.MountPoints.Shortest.{IsKept, filter_interesting_mount_points-IsKept}
use atlas_system_agent.Disk.Mounts.{
  get_mount_points, get_nodev_filesystems, mount_rounds, mount_round, read_mount, read_unsigned,
  read_string, read_char, ignore, drop_through, is_unwanted,
}
use atlas_system_agent.Disk.Mounts.Ends.{get_mount_points-ends}
use atlas_system_agent.Disk.DiskIo.{DiskIo, State}
use atlas_system_agent.Disk.Space.{Statvfs}
use atlas_system_agent.Ntp.{Clock, sample_sources}
use atlas_system_agent.Ntp.Samples.{any_out_of_range, latest, sample_sources_lem}
use atlas_system_agent.Pressure.Totals.{Stall, File}

abbrev mount : ℕ → Text → MountPoint
mount minor path = record {
  device_major = 202;
  device_minor = minor;
  mount_point = path;
  device = codes "/dev/xvda";
  fs_type = codes "ext4";
}

abbrev mounts : List MountPoint
mounts = mount 1 (codes "/foo/bar") ∷ mount 2 (codes "/run/x") ∷ mount 1 (codes "/foo") ∷ []

filter_interesting_mount_points-IsKept_example :
    All (IsKept mounts) (filter_interesting_mount_points mounts)
filter_interesting_mount_points-IsKept_example = filter_interesting_mount_points-IsKept mounts

abbrev durations : Durations ℤ
durations = record { Duration = ℤ; minus = ◌-ℤ◌; to_double_seconds = λ d. d }

abbrev disk : ℕ → Text → ℕ → DiskIo
disk major device busy = record {
  major = pos major;
  minor = pos 0;
  device = device;
  reads_completed = 1;
  reads_merged = 0;
  rsect = 8;
  ms_reading = 2;
  writes_completed = 1;
  writes_merged = 0;
  wsect = 8;
  ms_writing = 2;
  ios_in_progress = 0;
  ms_doing_io = busy;
  weighted_ms_doing_io = 4;
}

abbrev no_disks : State ℤ
no_disks = record { monotonic_timers = []; last_ms_doing_io = [] }

abbrev volume : Statvfs
volume = record { f_blocks = 1000; f_bsize = 4096; f_bfree = 250; f_files = 10; f_ffree = 3 }

-- Times as whole seconds.
abbrev seconds_clock : Clock ℤ
seconds_clock = record { Time = ℤ; seconds_before = ◌-ℤ◌; age = ◌-ℤ◌ }

abbrev source : Text → Text × ℤ
source last_rx = (codes "^,*,ntp1,2,6,377," ++ last_rx, pos 500)

sample_sources_lem_example :
    sample_sources seconds_clock str_split
      (codes "ntp1")
      (source (codes "17") ∷ source (codes "99999999999999999999") ∷ [])
      (pos 1)
    ≡ (if any_out_of_range ℤ seconds_clock str_split
          (codes "ntp1")
          (source (codes "17") ∷ source (codes "99999999999999999999") ∷ [])
        then err terminated
        else ok (
            latest ℤ seconds_clock str_split
              (codes "ntp1")
              (source (codes "17") ∷ source (codes "99999999999999999999") ∷ [])
              (pos 1)))
sample_sources_lem_example =
    sample_sources_lem ℤ seconds_clock str_split (codes "ntp1")
      (source (codes "17") ∷ source (codes "99999999999999999999") ∷ []) (pos 1)

-- A field that does not fit `long long` ends the process.
sample_sources_overflow :
    any_out_of_range ℤ seconds_clock str_split
      (codes "ntp1")
      (source (codes "99999999999999999999") ∷ [])
    ≡ true
unfolding any_out_of_range atlas_system_agent.Ntp.last_rx_field str_split
    atlas_system_agent.Base.text_beq atlas_system_agent.Ntp.parse_last_rx
sample_sources_overflow = refl

abbrev stall : Text → ℕ → Stall
stall kind total = record {
  kind = kind;
  avg10 = codes "avg10=0.00";
  avg60 = codes "avg60=0.00";
  avg300 = codes "avg300=0.00";
  total = total;
}

pressure_file : File
pressure_file = record {
  some_line = stall (codes "some") 123;
  full_line = stall (codes "full") 45;
  some_fits = omega arith;
  full_fits = omega arith;
}

abbrev filesystems : List Text
filesystems = codes "nodev\tproc\n" ∷ codes "\text4\n" ∷ codes "nodev\ttmpfs\n" ∷ []

abbrev mountinfo : Text
mountinfo =
    codes "36 35 202:1 / /foo rw,noatime - ext4 /dev/xvda rw\n37 35 0:4 / /proc rw - proc proc rw\n"

get_mount_points-ends_example : get_mount_points false filesystems (some mountinfo) ≢ none
get_mount_points-ends_example = get_mount_points-ends false filesystems (some mountinfo)

-- The mount of proc is left out.
get_mount_points_foo :
    get_mount_points false filesystems (some mountinfo) ≡ some (mount 1 (codes "/foo") ∷ [])
unfolding get_mount_points get_nodev_filesystems mount_rounds mount_round read_mount read_unsigned
    read_string read_char ignore drop_through is_unwanted starts_with token skip_space after_number
    skip_digits read_signed read_digits digits_onto text_beq
get_mount_points_foo = refl
