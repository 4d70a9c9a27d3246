-- ===== src/Blocks/Descriptor.antt =====
-- crates/wavedb-storage/src/block.rs: `Run` and the 64-bit `BlockDescriptor`, as the raw number that
-- it holds: start (40 bits), count (20 bits), occupation (4 bits). The masked fields that `|` joins
-- overlap in no bit, so they are added.
use wavedb.Base.{
  ℕ, ◌+◌, ◌-◌, ◌*◌, ◌/◌, ◌%◌, ◌^◌, ◌≤◌, ◌<◌, ◌≡◌, refl, ap, arith, Bool, not, ◌==◌, min,
  if◌then◌else◌,
}
use wavedb.Wire.Codec.{WaveWire}
use wavedb.Wire.Codec.Laws.{IsWire}
use wavedb.Wire.Scalars.{uint}
use wavedb.Wire.Scalars.Laws.{uint-IsWire}
use wavedb.Wire.Derive.{derive_struct}
use wavedb.Wire.Derive.Laws.{derive_struct-IsWire}

abbrev pub block_size : ℕ
block_size = 4096

pub record Run : Type 0 where
  pub start : ℕ
  pub count : ℕ

-- `Run::end`.
abbrev pub run_end : Run → ℕ
run_end r = r.start + r.count

abbrev pub byte_len : Run → ℕ
byte_len r = r.count * block_size

pub record BlockDescriptor : Type 0 where
  pub raw : ℕ

-- `BlockDescriptor::new`, without its debug assertions.
unfoldable pub new : ℕ → ℕ → ℕ → BlockDescriptor
new start count occupation = record {
  raw = start % 2 ^ 40 * 2 ^ 24 + count % 2 ^ 20 * 2 ^ 4 + occupation % 2 ^ 4;
}

unfoldable pub start : BlockDescriptor → ℕ
start d = d.raw / 2 ^ 24 % 2 ^ 40

unfoldable pub count : BlockDescriptor → ℕ
count d = d.raw / 2 ^ 4 % 2 ^ 20

unfoldable pub occupation : BlockDescriptor → ℕ
occupation d = d.raw % 2 ^ 4

unfoldable pub is_allocated : BlockDescriptor → Bool
unfolding count
is_allocated d = not (count d == 0)

unfoldable pub run : BlockDescriptor → Run
unfolding start count
run d = record { start = start d; count = count d }

unfoldable pub with_occupation : BlockDescriptor → ℕ → BlockDescriptor
unfolding new start count
with_occupation d o = new (start d) (count d) o

-- `used.saturating_mul(16) / capacity`, cut at 15.
unfoldable pub occupation_of : ℕ → ℕ → ℕ
occupation_of used capacity =
    if capacity == 0 then 0 else min (min (used * 16) (2 ^ 64 - 1) / capacity) 15

unfoldable pub from_run_used : Run → ℕ → BlockDescriptor
unfolding new
from_run_used r used_bytes = new r.start r.count (occupation_of used_bytes (byte_len r))

unfoldable pub descriptor_wire : WaveWire BlockDescriptor
descriptor_wire = derive_struct (λ raw. record { raw = raw }) (λ d. d.raw) (uint 8)

-- The fields of a descriptor are those that it was packed from, cut to their widths.
pub descriptor_fields-new :
    (s c o : ℕ)
    → (start (new s c o) ≡ s % 2 ^ 40)
      × (count (new s c o) ≡ c % 2 ^ 20)
      × (occupation (new s c o) ≡ o % 2 ^ 4)
unfolding start count occupation new
descriptor_fields-new s c o = (omega arith, omega arith, omega arith)

raw_parts :
    (r : ℕ)
    → r < 2 ^ 64
    → r / 2 ^ 24 % 2 ^ 40 % 2 ^ 40 * 2 ^ 24
        + r / 2 ^ 4 % 2 ^ 20 % 2 ^ 20 * 2 ^ 4
        + r % 2 ^ 4 % 2 ^ 4
      ≡ r
raw_parts r h = omega arith

-- Every 64-bit block descriptor is packed again from its fields.
pub descriptor_new-fields :
    (d : BlockDescriptor) → d.raw < 2 ^ 64 → new (start d) (count d) (occupation d) ≡ d
unfolding start count occupation new
descriptor_new-fields d h = ap (λ r. record { raw = r }) (raw_parts d.raw h)

-- A new gauge leaves the run as it was.
pub run-with_occupation : (d : BlockDescriptor) (o : ℕ) → run (with_occupation d o) ≡ run d
unfolding run with_occupation
run-with_occupation d o = ground arith

occupation_of-le : (used capacity : ℕ) → occupation_of used capacity ≤ 15
unfolding occupation_of
occupation_of-le used capacity = ground arith

-- The descriptor of a run with a 40-bit start and a 20-bit count gives back the run and the gauge
-- of its use.
pub from_run_used_fields :
    (r : Run) (used : ℕ)
    → r.start < 2 ^ 40
    → r.count < 2 ^ 20
    → (run (from_run_used r used) ≡ r)
      × (occupation (from_run_used r used) ≡ occupation_of used (byte_len r))
unfolding run from_run_used occupation
from_run_used_fields r used hs hc =
    (ground arith, omega (arith, occupation_of-le used (byte_len r)))

saturated_le : (a b : ℕ) → a ≤ b → min (a * 16) (2 ^ 64 - 1) ≤ min (b * 16) (2 ^ 64 - 1)
saturated_le a b h = omega arith

div_mono : (a b c : ℕ) → 0 < c → a ≤ b → a / c ≤ b / c
div_mono a b c pos h = grind arith

-- The gauge never falls as more of a run is used.
pub occupation_of_mono :
    (a b capacity : ℕ) → a ≤ b → occupation_of a capacity ≤ occupation_of b capacity
unfolding occupation_of
occupation_of_mono a b capacity h = ground (
  arith,
  div_mono (min (a * 16) (2 ^ 64 - 1)) (min (b * 16) (2 ^ 64 - 1)) capacity,
  saturated_le a b h,
)

pub descriptor_wire-IsWire : IsWire descriptor_wire (λ d. d.raw < 256 ^ 8)
unfolding descriptor_wire
descriptor_wire-IsWire = derive_struct-IsWire _ (uint-IsWire 8) (λ d. refl)
