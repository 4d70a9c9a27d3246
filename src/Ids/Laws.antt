-- ===== src/Ids/Laws.antt =====
-- The fields of an `Id`, its order, and the way to a `LocalId` and back.
use wavedb.Base.{
  ℕ, ◌+◌, ◌*◌, ◌/◌, ◌%◌, ◌^◌, ◌<◌, ◌≡◌, refl, ap, arith, Bool, true, false, ltb, ◌==◌, ◌&&◌, ◌||◌,
}
use wavedb.Ids.Id
use wavedb.Ids.Id.{CompositeId, bit, id_wire}
use wavedb.Ids.LocalId.{LocalId, local_id_wire, from_id, to_id}
use wavedb.Wire.Codec.Laws.{IsWire}
use wavedb.Wire.Scalars.Laws.{uint-IsWire}
use wavedb.Wire.Compose.Laws.{pair-IsWire}
use wavedb.Wire.Derive.Laws.{derive_struct-IsWire}

-- The widths of the fields of an id.
abbrev pub KeyFits : ℕ → Type 0
KeyFits k = k < 2 ^ 64

abbrev pub TenantFits : ℕ → Type 0
TenantFits t = t < 2 ^ 48

module _ (k t : ℕ) (f : Bool) (s : ℕ) where
  pub key-new : KeyFits k → TenantFits t → Id.key (Id.new k t f s) ≡ k
  unfolding Id.key Id.new
  key-new hk ht = ground arith

  pub tenant-new : KeyFits k → TenantFits t → Id.tenant (Id.new k t f s) ≡ t
  unfolding Id.tenant Id.new
  tenant-new hk ht = ground arith

  pub flag-new : KeyFits k → TenantFits t → Id.flag (Id.new k t f s) ≡ f
  unfolding Id.flag Id.new
  flag-new hk ht = ground arith

  pub salt-new : KeyFits k → TenantFits t → Id.salt (Id.new k t f s) ≡ s % 2 ^ 15
  unfolding Id.salt Id.new
  salt-new hk ht = ground arith

  -- With a key of 64 and a tenant of 48 bits, the four fields of an `Id` read back what `new` was
  -- given, the salt cut to its 15 bits.
  pub fields-new :
      KeyFits k
      → TenantFits t
      → (Id.key (Id.new k t f s) ≡ k)
        × (Id.tenant (Id.new k t f s) ≡ t)
        × (Id.flag (Id.new k t f s) ≡ f)
        × (Id.salt (Id.new k t f s) ≡ s % 2 ^ 15)
  fields-new hk ht = (key-new hk ht, tenant-new hk ht, flag-new hk ht, salt-new hk ht)

raw_fields :
    (r : ℕ)
    → r < 2 ^ 128
    → r / 2 ^ 64 % 2 ^ 64 * 2 ^ 64
        + r / 2 ^ 16 % 2 ^ 64 % 2 ^ 48 * 2 ^ 16
        + bit (r / 2 ^ 15 % 2 == 1) * 2 ^ 15
        + r % 2 ^ 15 % 2 ^ 15
      ≡ r
raw_fields r h = ground arith

-- Every 128-bit id is put together again from its fields.
pub new-fields :
    (id : CompositeId)
    → id.raw < 2 ^ 128
    → Id.new (Id.key id) (Id.tenant id) (Id.flag id) (Id.salt id) ≡ id
unfolding Id.new Id.key Id.tenant Id.flag Id.salt
new-fields id h = ap (λ r. record { raw = r }) (raw_fields id.raw h)

-- Ids are ordered by their key first: a smaller key makes a smaller id, whatever the other fields.
pub raw-lt_of_key :
    (k k' t t' : ℕ) (f f' : Bool) (s s' : ℕ)
    → TenantFits t
    → k < k'
    → (Id.new k t f s).raw < (Id.new k' t' f' s').raw
unfolding Id.new
raw-lt_of_key k k' t t' true f' s s' ht h = omega arith
raw-lt_of_key k k' t t' false f' s s' ht h = omega arith

-- The derived order of `LocalId`: by key, then by flag and salt.
abbrev pub lt_local : LocalId → LocalId → Bool
lt_local a b = ltb a.key b.key || (a.key == b.key && ltb a.lower b.lower)

-- For 128-bit ids of one tenant, the order of the ids is the order of their local ids.
pub from_id_order :
    (a b : CompositeId)
    → a.raw < 2 ^ 128
    → b.raw < 2 ^ 128
    → Id.tenant a ≡ Id.tenant b
    → ltb a.raw b.raw ≡ lt_local (from_id a) (from_id b)
unfolding Id.tenant from_id Id.key
from_id_order a b ha hb e = ground arith

-- Putting back its tenant undoes `from_id`, for every 128-bit id.
pub to_id-from_id :
    (id : CompositeId) (t : ℕ) → id.raw < 2 ^ 128 → Id.tenant id ≡ t → to_id (from_id id) t ≡ id
unfolding to_id from_id Id.new Id.key Id.tenant
to_id-from_id id t h e = ap (λ r. record { raw = r }) (ground arith)

-- `from_id` undoes `to_id`, in any tenant.
pub from_id-to_id :
    (l : LocalId) (t : ℕ)
    → l.key < 2 ^ 64
    → l.lower < 2 ^ 16
    → TenantFits t
    → from_id (to_id l t) ≡ l
unfolding to_id from_id Id.new Id.key
from_id-to_id l t hk hl ht = ground arith

pub id_wire-IsWire : IsWire id_wire (λ id. id.raw < 256 ^ 16)
unfolding id_wire
id_wire-IsWire = derive_struct-IsWire _ (uint-IsWire 16) (λ id. refl)

pub local_id_wire-IsWire : IsWire local_id_wire (λ l. (l.key < 256 ^ 8) × (l.lower < 256 ^ 2))
unfolding local_id_wire
local_id_wire-IsWire =
    derive_struct-IsWire _ (pair-IsWire (uint-IsWire 8) (uint-IsWire 2)) (λ l. refl)
