-- ===== src/Ids/LocalId.antt =====
-- crates/wavedb-core/src/local_id.rs: an `Id` with its tenant stripped.
--   [ KEY (u64) | FLAG (1) | SALT (15) ]
use wavedb.Base.{ℕ, ◌+◌, ◌*◌, ◌/◌, ◌%◌, ◌^◌, Bool, ◌==◌}
use wavedb.Ids.Id
use wavedb.Ids.Id.{CompositeId, bit}
use wavedb.Wire.Codec.{WaveWire}
use wavedb.Wire.Scalars.{uint}
use wavedb.Wire.Compose.{pair}
use wavedb.Wire.Derive.{derive_struct}

pub record LocalId : Type 0 where
  pub key : ℕ
  pub lower : ℕ

unfoldable pub new : ℕ → Bool → ℕ → LocalId
new key flag salt = record { key = key; lower = bit flag * 2 ^ 15 + salt % 2 ^ 15 }

unfoldable pub flag : LocalId → Bool
flag l = l.lower / 2 ^ 15 % 2 == 1

unfoldable pub salt : LocalId → ℕ
salt l = l.lower % 2 ^ 15

-- `id.raw() & 0xFFFF`.
unfoldable pub from_id : CompositeId → LocalId
from_id id = record { key = Id.key id; lower = id.raw % 2 ^ 16 }

unfoldable pub to_id : LocalId → ℕ → CompositeId
unfolding flag salt
to_id l tenant = Id.new l.key tenant (flag l) (salt l)

-- The derived codec: `key` in 8 bytes, then `lower` in 2.
unfoldable pub local_id_wire : WaveWire LocalId
unfolding derive_struct pair uint
local_id_wire =
    derive_struct (λ t. record { key = t.0; lower = t.1 }) (λ l. (l.key, l.lower))
      (pair (uint 8) (uint 2))
