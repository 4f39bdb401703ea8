-- ===== src/Disk/Mounts/Ends.antt =====
-- disk.cpp: the loop of `get_mount_points` ends.
use atlas_system_agent.Base.{
  ℕ, zero, suc, ◌≤◌, ◌<◌, ◌≡◌, ◌≢◌, refl, Bool, false, Option, none, some, List, [], ◌∷◌, ◌++◌,
  Text, length, arith, if◌then◌else◌, if_cases, Option-cases, text_beq, codes, inl, inr,
}
use atlas_system_agent.Base.Numbers.{read_signed, read_digits, scan_number, skip_space}
use atlas_system_agent.Stdio.{after_number, after_sign, skip_digits}
use atlas_system_agent.Stdio.Lengths.{
  length-after_number, length-skip_space, length-skip_digits, length-token,
}
use atlas_system_agent.Disk.MountPoints.{MountPoint}
use atlas_system_agent.Disk.Mounts.{
  InStream, in_stream, read_unsigned, read_string, read_char, ignore, drop_through, read_mount,
  mount_round, mount_rounds, get_mount_points, get_nodev_filesystems, is_unwanted, or_zero,
}

-- The rounds that a stream may still give, at most.
abbrev weight : InStream → ℕ
weight s = if s.failed then 0 else suc (length s.rest)

signed_digits :
    (t : Text) {r : Bool × ℕ}
    → read_signed t ≡ some r
    → length (skip_digits (after_sign t)) < length t
unfolding read_signed read_digits skip_digits
signed_digits [] e = absurd (cc)
signed_digits (c ∷ t) e = ground (arith, length-skip_digits t)

number_taken :
    (s : Text) {r : Bool × ℕ} → scan_number s ≡ some r → length (after_number s) < length s
unfolding after_number
number_taken s e = omega (arith, signed_digits (skip_space s) e, length-skip_space s)

weight-read_unsigned : (s : InStream) → weight (read_unsigned s).1 ≤ weight s
unfolding read_unsigned
weight-read_unsigned s = ground (arith, length-after_number s.rest)

weight-read_char : (s : InStream) → weight (read_char s) ≤ weight s
unfolding read_char
weight-read_char s = ground (arith, length-skip_space s.rest)

weight-read_string : (s : InStream) → weight (read_string s).1 ≤ weight s
unfolding read_string
weight-read_string s = ground (arith, length-skip_space s.rest, length-token (skip_space s.rest))

weight-drop_through : (delim : ℕ) (s : Text) → weight (drop_through delim s) ≤ suc (length s)
unfolding drop_through
weight-drop_through delim [] = omega arith
weight-drop_through delim (c ∷ s) = ground (arith, weight-drop_through delim s)

weight-ignore : (delim : ℕ) (s : InStream) → weight (ignore delim s) ≤ weight s
unfolding ignore
weight-ignore delim s = ground (arith, weight-drop_through delim s.rest)

weight-read_mount :
    (container : Bool) (nodev : List Text) (major minor : ℕ) (s : InStream)
    → weight (read_mount container nodev major minor s).1 ≤ weight s
unfolding read_mount
weight-read_mount container nodev major minor s =
    let path = (read_string s).1 in
    let dash = ignore b'-' path in
    let fs_type = read_string dash in
    let device = (read_string fs_type.1).1 in
    let bound : weight (ignore b'\n' device) ≤ weight s = omega (
      arith,
      weight-read_string s,
      weight-ignore b'-' path,
      weight-read_string dash,
      weight-read_string fs_type.1,
      weight-ignore b'\n' device,
    ) in
    if_cases (λ (r : List MountPoint × InStream). weight r.1 ≤ weight s)
      (is_unwanted container nodev fs_type.0) _ _ (λ _. bound) (λ _. bound)

weight-mount_round :
    (container : Bool) (nodev : List Text) (s : InStream)
    → weight (mount_round container nodev s).1 ≤ weight s
unfolding mount_round
weight-mount_round container nodev s =
    let second = (read_unsigned s).1 in
    let major = read_unsigned second in
    let colon = read_char major.1 in
    let minor = read_unsigned colon in
    let root = read_string minor.1 in
    let bound : weight root.1 ≤ weight s = omega (
      arith,
      weight-read_unsigned s,
      weight-read_unsigned second,
      weight-read_char major.1,
      weight-read_unsigned colon,
      weight-read_string minor.1,
    ) in
    if_cases (λ (r : List MountPoint × InStream). weight r.1 ≤ weight s)
      (text_beq root.0 (codes "/")) _ _
      (λ _. omega (
        arith,
        bound,
        weight-read_mount container nodev (or_zero major.0) (or_zero minor.0) root.1,
      ))
      (λ _. omega (arith, bound, weight-ignore b'\n' root.1))

-- A round that goes on has taken a number, or its stream has failed.
first_taken :
    (s : InStream)
    → s.failed ≡ false
    → (read_unsigned s).1.eof ≡ false
    → weight (read_unsigned s).1 < weight s
unfolding read_unsigned
first_taken s going more = elim (Option-cases (scan_number s.rest)) [
  | inl e ↦ ground arith
  | inr (r, e) ↦ ground (arith, number_taken s.rest e)
]

appended :
    (front : List MountPoint) (r : Option (List MountPoint))
    → r ≢ none
    → (elim r as (λ _. Option (List MountPoint)) [ none ↦ none | some mps ↦ some (front ++ mps) ])
      ≢ none
appended front none h = absurd (h refl)
appended front (some mps) h = ground arith

mount_rounds-ends :
    (container : Bool) (nodev : List Text) (fuel : ℕ) (s : InStream)
    → weight s < fuel
    → mount_rounds container nodev fuel s ≢ none
unfolding mount_rounds
mount_rounds-ends container nodev zero s h = absurd (omega arith)
mount_rounds-ends container nodev (suc fuel) s h =
    let P = λ (r : Option (List MountPoint)). r ≢ none in
    let first = (read_unsigned s).1 in
    let round = mount_round container nodev first in
    if_cases P s.failed _ _ (λ _. ground arith)
      (λ going.
        if_cases P first.eof _ _ (λ _. ground arith)
          (λ more. appended round.0 _ (
            mount_rounds-ends container nodev fuel round.1 (
              omega
                (arith, h, weight-mount_round container nodev first, first_taken s going more)))))

-- The loop of get_mount_points ends on every file, whatever its streams fail to read.
pub get_mount_points-ends :
    (container : Bool) (filesystems : List Text) (mountinfo : Option Text)
    → get_mount_points container filesystems mountinfo ≢ none
unfolding get_mount_points
get_mount_points-ends container filesystems none = ground arith
get_mount_points-ends container filesystems (some content) =
    mount_rounds-ends container (get_nodev_filesystems filesystems) (suc (suc (length content)))
      (in_stream content false false) (omega arith)
