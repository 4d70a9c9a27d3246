-- ===== src/Ids/Id.antt =====
-- crates/wavedb-core/src/id.rs: the 128-bit composite `Id`, as the raw number that it holds.
--   [ KEY (u64) | TENANT (u48) | FLAG (1) | SALT (15) ]
-- A shift is a product or a quotient, a mask is a remainder, and the fields that `|` joins overlap in
-- no bit, so they are added.
use wavedb.Base.{ℕ, ◌+◌, ◌*◌, ◌/◌, ◌%◌, ◌^◌, Bool, true, false, ◌==◌, Option, none, some}
use wavedb.Base.{if◌then◌else◌}
use wavedb.Ids.U48.{from_truncated}
use wavedb.Wire.Codec.{WaveWire}
use wavedb.Wire.Scalars.{uint}
use wavedb.Wire.Derive.{derive_struct}

pub record CompositeId : Type 0 where
  pub raw : ℕ

-- `u128::from(flag)`.
abbrev pub bit : Bool → ℕ
bit true = 1
bit false = 0

unfoldable pub new : ℕ → ℕ → Bool → ℕ → CompositeId
new key tenant flag salt = record {
  raw = key * 2 ^ 64 + tenant * 2 ^ 16 + bit flag * 2 ^ 15 + salt % 2 ^ 15;
}

unfoldable pub key : CompositeId → ℕ
key id = id.raw / 2 ^ 64 % 2 ^ 64

unfoldable pub tenant : CompositeId → ℕ
unfolding from_truncated
tenant id = from_truncated (id.raw / 2 ^ 16 % 2 ^ 64)

unfoldable pub flag : CompositeId → Bool
flag id = id.raw / 2 ^ 15 % 2 == 1

unfoldable pub salt : CompositeId → ℕ
salt id = id.raw % 2 ^ 15

unfoldable pub created_at : CompositeId → Option ℕ
unfolding flag key
created_at id = if flag id then none else some (key id)

unfoldable pub struct_hash_key : CompositeId → Option ℕ
unfolding flag key
struct_hash_key id = if flag id then some (key id) else none

-- The derived codec of a tuple struct over a `u128`.
unfoldable pub id_wire : WaveWire CompositeId
unfolding derive_struct uint
id_wire = derive_struct (λ raw. record { raw = raw }) (λ id. id.raw) (uint 16)
