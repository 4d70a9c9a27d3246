-- ===== src/Blocks.antt =====
-- crates/wavedb-storage/src/{block,alloc}.rs: block runs, their descriptors and the allocator.
pub mod Descriptor
pub mod Extents
pub mod Alloc
