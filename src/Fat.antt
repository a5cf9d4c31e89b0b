-- ===== src/Fat.antt =====
-- src/kernel/fat.hpp and fat.cpp: the FAT32 volume that the loader leaves in memory.
pub mod Volume
pub mod Chain
pub mod Cluster
pub mod Extend
pub mod Grow
pub mod Allocate
pub mod File
pub mod Name
pub mod Directory
pub mod Tests
