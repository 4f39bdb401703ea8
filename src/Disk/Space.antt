-- ===== src/Disk/Space.antt =====
-- disk.cpp: `update_stats_for`. The answer of `statvfs` is a parameter.
use atlas_system_agent.Base.{
  ℕ, ◌+◌, ◌-◌, ◌*◌, ◌%◌, ◌≤◌, ◌<◌, ◌≡◌, Option, none, some, List, [], ◌∷◌, ltb, if◌then◌else◌,
  arith,
}
use atlas_system_agent.Base.Numbers.{u64}
use atlas_system_agent.Metrics.{Double, of_ℕ, metric, Metric, gauge, Tags}
use atlas_system_agent.Disk.MountPoints.{MountPoint, get_id_from_mountpoint, get_dev_from_device}

-- `struct statvfs`: its members are 64 bits wide.
pub record Statvfs : Type 0 where
  pub f_blocks : ℕ
  pub f_bsize : ℕ
  pub f_bfree : ℕ
  pub f_files : ℕ
  pub f_ffree : ℕ

-- Subtraction of unsigned 64-bit numbers.
abbrev pub sub_u64 : ℕ → ℕ → ℕ
sub_u64 a b = (a + (u64 - b)) % u64

unfoldable pub bytes_total : Statvfs → ℕ
bytes_total st = st.f_blocks * st.f_bsize % u64

unfoldable pub bytes_free : Statvfs → ℕ
bytes_free st = st.f_bfree * st.f_bsize % u64

unfoldable pub bytes_used : Statvfs → ℕ
unfolding bytes_total bytes_free
bytes_used st = sub_u64 (bytes_total st) (bytes_free st)

module _ {D : Type 0} ⦃fp : Double D⦄ where
  abbrev percent : ℕ → ℕ → D
  percent part whole = fp.div (fp.mul (of_ℕ 100) (of_ℕ part)) (of_ℕ whole)

  unfoldable pub update_stats_for : Option Statvfs → MountPoint → List (Metric D)
  unfolding bytes_total bytes_free bytes_used get_id_from_mountpoint get_dev_from_device
  update_stats_for none mp = []
  update_stats_for (some st) mp =
      let tags : Tags =
        ("id", get_id_from_mountpoint mp.mount_point)
        ∷ ("dev", get_dev_from_device mp.device)
        ∷ [] in
      metric gauge "disk.bytesFree" tags (of_ℕ (bytes_free st))
      ∷ metric gauge "disk.bytesUsed" tags (of_ℕ (bytes_used st))
      ∷ metric gauge "disk.bytesMax" tags (of_ℕ (bytes_total st))
      ∷ metric gauge "disk.bytesPercentUsed" tags (percent (bytes_used st) (bytes_total st))
      ∷ (if ltb 0 st.f_files
          then metric gauge "disk.inodesFree" tags (of_ℕ st.f_ffree)
            ∷ metric gauge "disk.inodesUsed" tags (of_ℕ (sub_u64 st.f_files st.f_ffree))
            ∷ metric gauge "disk.inodesPercentUsed" tags
                (percent (sub_u64 st.f_files st.f_ffree) st.f_files)
            ∷ []
          else [])

-- Of a file system whose free blocks are among its blocks, and whose size fits 64 bits, the used and
-- the free bytes add up to all bytes, and the used bytes are those of the blocks that are not free.
pub bytes_used_lem :
    (st : Statvfs)
    → st.f_bfree ≤ st.f_blocks
    → st.f_blocks * st.f_bsize < u64
    → (bytes_used st + bytes_free st ≡ bytes_total st)
      × (bytes_used st ≡ (st.f_blocks - st.f_bfree) * st.f_bsize)
unfolding bytes_total bytes_free bytes_used
bytes_used_lem st free fits =
    let le : st.f_bfree * st.f_bsize ≤ st.f_blocks * st.f_bsize = grind arith in grind arith
