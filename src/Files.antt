-- ===== src/Files.antt =====
-- Files: the disk and the partitions of core/files/partitions.
pub mod VirtualDisk
pub mod Partition
pub mod Fat32
pub mod LongName
pub mod MasterBootRecord
