-- ===== src/Fuzzy.antt =====
-- crates/wavedb-core/src/fuzzy: the exact step of a fuzzy search, and the length filter before it.
pub mod Distance
pub mod Filter
