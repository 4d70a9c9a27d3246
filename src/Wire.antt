-- ===== src/Wire.antt =====
-- crates/wavedb-wire and crates/wavedb-wire-derive: the `WaveWire` codec.
pub mod Error
pub mod Cursor
pub mod Codec
pub mod Scalars
pub mod Dynamic
pub mod Compose
pub mod Derive
