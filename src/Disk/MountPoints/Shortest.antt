-- ===== src/Disk/MountPoints/Shortest.antt =====
-- disk.cpp: what `filter_interesting_mount_points` keeps.
use atlas_system_agent.Base.{
  ℕ, ◌≤◌, ◌≡◌, refl, sym, subst, true, false, ◌||◌, not, leb, ◌∙◌, Option, none, some, List, [],
  ◌∷◌, map, eqb, ltb, length, if◌then◌else◌, nat_eq, arith, All,
}
use atlas_system_agent.Base.Dict.{
  find, assign, find-assign, UniqueKeys, assign-UniqueKeys, find-entries,
}
use atlas_system_agent.Disk.MountPoints.{
  MountPoint, is_ignored, device_key, Candidates, consider, consider_all,
  filter_interesting_mount_points,
}

-- The shorter of the best path so far and a mount point, for the device `key`.
abbrev pub better : ℕ → MountPoint → Option MountPoint → Option MountPoint
better key mp best =
    if is_ignored mp
    then best
    else if eqb (device_key mp) key
    then elim best [
      | none ↦ some mp
      | some c ↦ if ltb (length mp.mount_point) (length c.mount_point) then some mp else some c
    ]
    else best

-- The first of the shortest mount points of the device that are not ignored.
abbrev pub shortest : ℕ → List MountPoint → Option MountPoint → Option MountPoint
shortest key [] best = best
shortest key (mp ∷ mps) best = shortest key mps (better key mp best)

consider-find :
    (key : ℕ) (mp : MountPoint) (m : Candidates)
    → find key (consider mp m) ≡ better key mp (find key m)
unfolding consider
consider-find key mp m = ground (arith, find-assign (device_key mp) key mp m)

-- The candidate of each device is the first of its shortest mount points that are not ignored.
pub consider_all-find :
    (mps : List MountPoint) (key : ℕ) (m : Candidates)
    → find key (consider_all mps m) ≡ shortest key mps (find key m)
unfolding consider_all
consider_all-find [] key m = refl
consider_all-find (mp ∷ mps) key m =
    rw (sym (consider-find key mp m)) (consider_all-find mps key (consider mp m))

-- A mount point that is ignored, of another device, or with a path at least as long as `len`.
abbrev pub IsBehind : ℕ → ℕ → MountPoint → Type 0
IsBehind key len mp =
    is_ignored mp || (not (eqb (device_key mp) key) || leb len (length mp.mount_point)) ≡ true

-- A candidate of the device.
abbrev Good : ℕ → Option MountPoint → Type 0
Good key none = Unit
Good key (some c) = (is_ignored c ≡ false) × (device_key c ≡ key)

better-Good :
    (key : ℕ) (mp : MountPoint) (best : Option MountPoint)
    → Good key best
    → Good key (better key mp best)
better-Good key mp none h = ground arith
better-Good key mp (some c) h = ground arith

-- The new candidate is no longer than the old one, and than the mount point.
abbrev AtMost : ℕ → Option MountPoint → Type 0
AtMost len none = Unit
AtMost len (some c) = len ≤ length c.mount_point

better-AtMost :
    (key len : ℕ) (mp : MountPoint) (best : Option MountPoint)
    → AtMost len (better key mp best)
    → IsBehind key len mp × AtMost len best
better-AtMost key len mp none h = ground arith
better-AtMost key len mp (some c) h = ground arith

shortest_lem :
    (key : ℕ) (mps : List MountPoint) (best : Option MountPoint) (mp : MountPoint)
    → Good key best
    → shortest key mps best ≡ some mp
    → (is_ignored mp ≡ false)
      × (device_key mp ≡ key)
      × All (IsBehind key (length mp.mount_point)) mps
      × AtMost (length mp.mount_point) best
shortest_lem key [] none mp g e = cc
shortest_lem key [] (some c) mp g e = ground (arith, e)
shortest_lem key (q ∷ mps) best mp g e =
    let rest = shortest_lem key mps (better key q best) mp (better-Good key q best g) e in
    let now = better-AtMost key (length mp.mount_point) q best rest.3 in
    (rest.0, rest.1, (now.0, rest.2), now.1)

-- Each candidate stands under the key of its device, once.
abbrev IsKeyed : Candidates → Type 0
IsKeyed m = All (λ kv. kv.0 ≡ device_key kv.1) m

assign-IsKeyed :
    (mp : MountPoint) (m : Candidates) → IsKeyed m → IsKeyed (assign (device_key mp) mp m)
unfolding assign
assign-IsKeyed mp [] h = (refl, tt)
assign-IsKeyed mp ((k, c) ∷ m) (h, hs) = ground (arith, assign-IsKeyed mp m hs)

consider-IsKeyed :
    (mp : MountPoint) (m : Candidates)
    → IsKeyed m × UniqueKeys m
    → IsKeyed (consider mp m) × UniqueKeys (consider mp m)
unfolding consider
consider-IsKeyed mp m h =
    ground (arith, assign-IsKeyed mp m h.0, assign-UniqueKeys (device_key mp) mp m h.1)

consider_all-IsKeyed :
    (mps : List MountPoint) (m : Candidates)
    → IsKeyed m × UniqueKeys m
    → IsKeyed (consider_all mps m) × UniqueKeys (consider_all mps m)
unfolding consider_all
consider_all-IsKeyed [] m h = h
consider_all-IsKeyed (mp ∷ mps) m h =
    consider_all-IsKeyed mps (consider mp m) (consider-IsKeyed mp m h)

-- A mount point that stays: not ignored, and no other of its device has a shorter path.
abbrev pub IsKept : List MountPoint → MountPoint → Type 0
IsKept mps mp = (is_ignored mp ≡ false) × All (IsBehind (device_key mp) (length mp.mount_point)) mps

IsKept-entries :
    (mps : List MountPoint) (all part : Candidates)
    → ((key : ℕ) → find key all ≡ shortest key mps none)
    → IsKeyed part
    → All (λ kv. find kv.0 all ≡ some kv.1) part
    → All (IsKept mps) (map (λ kv. kv.1) part)
IsKept-entries mps all [] h k f = tt
IsKept-entries mps all ((key, mp) ∷ part) h (k, ks) (f, fs) =
    let at = shortest_lem key mps none mp tt (sym (h key) ∙ f) in
    (
      (at.0, subst (λ j. All (IsBehind j (length mp.mount_point)) mps) k at.2),
      IsKept-entries mps all part h ks fs,
    )

-- Every mount point that is kept is not ignored, and no mount point of its device that is not
-- ignored has a shorter path.
pub filter_interesting_mount_points-IsKept :
    (mps : List MountPoint) → All (IsKept mps) (filter_interesting_mount_points mps)
unfolding filter_interesting_mount_points find
filter_interesting_mount_points-IsKept mps =
    let keyed = consider_all-IsKeyed mps [] (tt, tt) in
    let m = consider_all mps [] in
    IsKept-entries mps m m (λ key. consider_all-find mps key []) keyed.0 (find-entries m keyed.1)
