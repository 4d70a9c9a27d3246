-- ===== src/Ids.antt =====
-- crates/wavedb-core/src/{u48,id,local_id}.rs: tenants and record identifiers.
pub mod U48
pub mod Id
pub mod LocalId
pub mod Laws
