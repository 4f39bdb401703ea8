-- ===== src/Disk/MountPoints.antt =====
-- disk.cpp: `filter_interesting_mount_points` and the names
-- of disks. The result is listed in the order in which the devices were met; the order of the source's
-- hash map is not specified.
pub mod Shortest
use atlas_system_agent.Base.{
  ℕ, suc, ◌+◌, ◌*◌, ◌^◌, Bool, true, false, ◌||◌, Option, none, some, List, [], ◌∷◌, ◌++◌, map,
  Text, codes, String, eqb, ltb, length, drop, take, if◌then◌else◌, text_beq, nat_eq,
}
use atlas_system_agent.Base.Dict.{find, assign}
use atlas_system_agent.Util.{starts_with}

pub record MountPoint : Type 0 where
  pub device_major : ℕ
  pub device_minor : ℕ
  pub mount_point : Text
  pub device : Text
  pub fs_type : Text

abbrev any_prefix : Text → List Text → Bool
any_prefix line [] = false
any_prefix line (p ∷ ps) = starts_with line p || any_prefix line ps

abbrev ignored_prefixes : List Text
ignored_prefixes =
    codes "/dev"
    ∷ codes "/mnt/docker"
    ∷ codes "/mnt/jenkins"
    ∷ codes "/mnt/kubelet"
    ∷ codes "/proc"
    ∷ codes "/run"
    ∷ codes "/sys"
    ∷ codes "/tmp/buildkit"
    ∷ codes "/var/lib"
    ∷ []

-- The numbers of loop, RAM and multiple devices.
abbrev pub loop_device : ℕ
loop_device = 7

abbrev pub ram_device : ℕ
ram_device = 1

abbrev pub multiple_device : ℕ
multiple_device = 9

-- The tests at which the loop goes on to the next mount point.
unfoldable pub is_ignored : MountPoint → Bool
unfolding starts_with
is_ignored mp =
    (eqb mp.device_major loop_device || eqb mp.device_major ram_device)
    || any_prefix mp.mount_point ignored_prefixes

-- Both numbers are 32 bits wide, so the shift and the bitwise or are a sum.
abbrev pub device_key : MountPoint → ℕ
device_key mp = mp.device_major * 2 ^ 32 + mp.device_minor

abbrev pub Candidates : Type 0
Candidates = List (ℕ × MountPoint)

-- The body of the loop.
unfoldable pub consider : MountPoint → Candidates → Candidates
unfolding is_ignored
consider mp candidates =
    if is_ignored mp then candidates else elim (find (device_key mp) candidates) [
      | none ↦ assign (device_key mp) mp candidates
      | some candidate ↦
          if ltb (length mp.mount_point) (length candidate.mount_point)
          then assign (device_key mp) mp candidates
          else candidates
    ]

unfoldable pub consider_all : List MountPoint → Candidates → Candidates
unfolding consider
consider_all [] candidates = candidates
consider_all (mp ∷ mps) candidates = consider_all mps (consider mp candidates)

unfoldable pub filter_interesting_mount_points : List MountPoint → List MountPoint
unfolding consider_all
filter_interesting_mount_points mount_points = map (λ kv. kv.1) (consider_all mount_points [])

unfoldable pub get_id_from_mountpoint : Text → Text
get_id_from_mountpoint mp = if eqb (length mp) 1 then codes "root" else drop 1 mp

unfoldable pub get_dev_from_device : Text → Text
get_dev_from_device device =
    if text_beq (take 5 device) (codes "/dev/") then drop 5 device else device
