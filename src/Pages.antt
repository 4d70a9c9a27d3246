-- ===== src/Pages.antt =====
-- crates/wavedb-storage: the page store over the blocks of its file.
pub mod Buckets
pub mod Map
pub mod Fault
pub mod Framed
pub mod Dictionary
pub mod Page
pub mod Directory
pub mod Storage
pub mod Store
pub mod Plan
pub mod Edit
pub mod MetaLog
pub mod Chunk
