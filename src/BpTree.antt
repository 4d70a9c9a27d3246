-- ===== src/BpTree.antt =====
-- crates/wavedb-core/src/index: the B+tree whose nodes are values of a store.
pub mod Fault
pub mod Key
pub mod Node
pub mod Search
pub mod Insert
pub mod Remove
pub mod Shape
pub mod Order
pub mod Routing
pub mod Contains
pub mod Walk
