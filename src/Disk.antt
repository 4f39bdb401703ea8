-- ===== src/Disk.antt =====
-- lib/collectors/disk/src/disk.cpp: the mount points that are watched and the disk metrics.
pub mod MountPoints
pub mod DiskIo
pub mod Space
pub mod Mounts
pub mod Stats
