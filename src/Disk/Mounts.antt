-- ===== src/Disk/Mounts.antt =====
-- disk.cpp: `get_nodev_filesystems` and `get_mount_points`, on the bytes of the files, and the entry
-- points over the mount points. Of an input stream the model keeps the rest, eofbit and failbit.
pub mod Ends
use atlas_system_agent.Base.{
  ℕ, zero, suc, ◌-◌, ◌^◌, Bool, true, false, not, ◌&&◌, ◌||◌, Option, none, some, List, [], ◌∷◌,
  ◌++◌, Text, codes, eqb, ltb, if◌then◌else◌, length, take, drop, text_beq,
}
use atlas_system_agent.Base.Numbers.{scan_number, skip_space, read_signed}
use atlas_system_agent.Metrics.{Double, Metric}
use atlas_system_agent.Stdio.{after_number}
use atlas_system_agent.Util.{starts_with, token}
use atlas_system_agent.Disk.MountPoints.{MountPoint, filter_interesting_mount_points}
use atlas_system_agent.Disk.Space.{Statvfs, update_stats_for}

-- The buffers that `fgets` fills, with the newline at the end. The set is a list of names.
unfoldable pub get_nodev_filesystems : List Text → List Text
unfolding starts_with
get_nodev_filesystems [] = []
get_nodev_filesystems (line ∷ lines) =
    let rest = get_nodev_filesystems lines in
    let name = take (length line - 6 - 1) (drop 6 line) in
    if ltb (length line) 7
    then rest
    else if starts_with line (codes "nodev\t")
    then name ∷ rest
    else rest

-- The file systems that are left out: tmpfs is not, and in a container build neither is overlay.
unfoldable pub is_unwanted : Bool → List Text → Text → Bool
is_unwanted container [] fs_type = false
is_unwanted container (name ∷ names) fs_type =
    let rest = is_unwanted container names fs_type in
    let kept = text_beq name (codes "tmpfs") || (container && text_beq name (codes "overlay")) in
    if text_beq name fs_type && not kept then true else rest

pub record InStream : Type 0 where
  pub rest : Text
  pub eof : Bool
  pub failed : Bool

abbrev pub in_stream : Text → Bool → Bool → InStream
in_stream rest eof failed = record { rest = rest; eof = eof; failed = failed }

abbrev pub good : InStream → Bool
good s = not s.eof && not s.failed

-- An operation on a stream that is not good only sets failbit.
abbrev pub fail : InStream → InStream
fail s = in_stream s.rest s.eof true

abbrev pub at_end : Text → Bool
at_end [] = true
at_end (_ ∷ _) = false

-- `in >> value` for an `unsigned`; `none` where it fails.
unfoldable pub read_unsigned : InStream → Option ℕ × InStream
unfolding after_number skip_space read_signed
read_unsigned s =
    let left = after_number s.rest in
    let bad : Option ℕ × InStream = (none, in_stream left (at_end left) true) in
    let read : Option ℕ × InStream = elim (scan_number s.rest) [
      | none ↦ bad
      | some (minus, n) ↦
          let value = if minus then (if eqb n 0 then 0 else 2 ^ 32 - n) else n in
          if ltb n (2 ^ 32) then (some value, in_stream left (at_end left) false) else bad
    ] in
    if good s then read else (none, fail s)

-- `in >> s` for a string; it stays empty where it fails.
unfoldable pub read_string : InStream → Text × InStream
unfolding token skip_space
read_string s =
    let (t, left) = token (skip_space s.rest) in
    let read : Text × InStream = elim t [
      | [] ↦ ([], in_stream left true true)
      | c ∷ u ↦ (c ∷ u, in_stream left (at_end left) false)
    ] in
    if good s then read else ([], fail s)

-- `in >> ch`
unfoldable pub read_char : InStream → InStream
unfolding skip_space
read_char s =
    let read : InStream = elim (skip_space s.rest) [
      | [] ↦ in_stream [] true true
      | c ∷ left ↦ in_stream left false false
    ] in
    if good s then read else fail s

unfoldable pub drop_through : ℕ → Text → InStream
drop_through delim [] = in_stream [] true false
drop_through delim (c ∷ s) =
    let more = drop_through delim s in if eqb c delim then in_stream s false false else more

-- `in.ignore(max, delim)`
unfoldable pub ignore : ℕ → InStream → InStream
unfolding drop_through
ignore delim s = if good s then drop_through delim s.rest else fail s

abbrev pub or_zero : Option ℕ → ℕ
or_zero none = 0
or_zero (some n) = n

-- The end of the round of a mount point whose root is "/".
unfoldable pub read_mount : Bool → List Text → ℕ → ℕ → InStream → List MountPoint × InStream
unfolding read_string ignore is_unwanted
read_mount container nodev major minor s =
    let path = read_string s in
    let fs_type = read_string (ignore b'-' path.1) in
    let device = read_string fs_type.1 in
    let mp : MountPoint = record {
      device_major = major;
      device_minor = minor;
      mount_point = path.0;
      device = device.0;
      fs_type = fs_type.0;
    } in
    let next = ignore b'\n' device.1 in
    if is_unwanted container nodev fs_type.0 then ([], next) else (mp ∷ [], next)

-- A round from its second extraction on. A root is read only where the numbers in front of it are.
unfoldable pub mount_round : Bool → List Text → InStream → List MountPoint × InStream
unfolding read_unsigned read_char read_string read_mount ignore
mount_round container nodev s =
    let major = read_unsigned (read_unsigned s).1 in
    let minor = read_unsigned (read_char major.1) in
    let root = read_string minor.1 in
    if text_beq root.0 (codes "/")
    then read_mount container nodev (or_zero major.0) (or_zero minor.0) root.1
    else ([], ignore b'\n' root.1)

-- `while (in)`; `none` means that the fuel ran out.
unfoldable pub mount_rounds : Bool → List Text → ℕ → InStream → Option (List MountPoint)
unfolding read_unsigned mount_round
mount_rounds container nodev zero s = none
mount_rounds container nodev (suc fuel) s =
    let first = read_unsigned s in
    let round = mount_round container nodev first.1 in
    let more : Option (List MountPoint) = elim (mount_rounds container nodev fuel round.1) [
      | none ↦ none
      | some mps ↦ some (round.0 ++ mps)
    ] in
    if s.failed then some [] else if first.1.eof then some [] else more

-- Is it a container build, the lines of proc/filesystems and the bytes of proc/self/mountinfo; `none`
-- is a file that cannot be opened.
unfoldable pub get_mount_points : Bool → List Text → Option Text → Option (List MountPoint)
unfolding get_nodev_filesystems mount_rounds
get_mount_points container filesystems none = some []
get_mount_points container filesystems (some content) =
    mount_rounds container (get_nodev_filesystems filesystems) (suc (suc (length content)))
      (in_stream content false false)

module _ {D : Type 0} ⦃fp : Double D⦄ (statvfs : Text → Option Statvfs) where
  unfoldable pub stats_of : List MountPoint → List (Metric D)
  unfolding update_stats_for
  stats_of [] = []
  stats_of (mp ∷ mps) = update_stats_for (statvfs mp.mount_point) mp ++ stats_of mps

  -- `stats_for_interesting_mps` with `update_stats_for`, which is all of `titus_disk_stats` and of
  -- `k8s_disk_stats`.
  unfoldable pub stats_for_interesting_mps :
      Bool → List Text → Option Text → Option (List (Metric D))
  unfolding get_mount_points stats_of filter_interesting_mount_points
  stats_for_interesting_mps container filesystems mountinfo =
      elim (get_mount_points container filesystems mountinfo) [
        | none ↦ none
        | some mps ↦ some (stats_of (filter_interesting_mount_points mps))
      ]
