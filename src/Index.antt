-- ===== src/Index.antt =====
-- crates/wavedb-core/src/index: the order-preserving keys and the bounds of the B+tree.
pub mod Bytes
pub mod Key
pub mod Bound
pub mod NodeKey
