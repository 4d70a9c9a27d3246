-- ===== src/Pages/Page.antt =====
-- crates/wavedb-storage/src/page.rs: the page of one bucket.
-- The compressor is a crate that the repository only calls.
pub mod Laws
use wavedb.Base.{
  ℕ, zero, suc, ◌%◌, ◌^◌, ◌<◌, ◌≡◌, refl, arith, List, [], ◌∷◌, length, Bool, ltb, Option, none,
  some, if◌then◌else◌,
}
use wavedb.Ids.Id.{CompositeId}
use wavedb.Journal.Frame.{bytes_wire}
use wavedb.Wire.Codec.{WaveWire, to_wire, from_wire, to_wire_checked, from_wire_checked}
use wavedb.Wire.Scalars.{uint}
use wavedb.Wire.Dynamic.{vec}
use wavedb.Wire.Compose.{pair}
use wavedb.Wire.Derive.{derive_struct, Variants, derive_enum}
use wavedb.Pages.Map.{Map}
use wavedb.Pages.Map
use wavedb.Pages.Fault.{
  StorageResult, ok, err, corrupt, or_corrupt, page_length_truncated, page_length_out_of_range,
  page_envelope, page_dictionary_state_unknown, page_decompress, page_body, ◌>>=◌,
}
use wavedb.Pages.Framed.{framed, unframed}
use wavedb.Pages.Dictionary.{Dictionary}
use wavedb.Pages.Dictionary

pub data PagePayload : Type 0 where
  raw : List ℕ → PagePayload
  zstd : ℕ → ℕ → List ℕ → PagePayload

abbrev pub payload_tag : PagePayload → ℕ
payload_tag (raw bytes) = 0
payload_tag (zstd dict_len raw_len bytes) = 1

abbrev pub PayloadFields : ℕ → Type 0
PayloadFields zero = List ℕ
PayloadFields (suc t) = ℕ × (ℕ × List ℕ)

abbrev pub payload_fields : (v : PagePayload) → PayloadFields (payload_tag v)
payload_fields (raw bytes) = bytes
payload_fields (zstd dict_len raw_len bytes) = (dict_len, (raw_len, bytes))

abbrev pub build_payload : (t : ℕ) → PayloadFields t → PagePayload
build_payload zero bytes = raw bytes
build_payload (suc t) (dict_len, (raw_len, bytes)) = zstd dict_len raw_len bytes

abbrev pub payload_field_wire : (t : ℕ) → WaveWire (PayloadFields t)
payload_field_wire zero = bytes_wire
payload_field_wire (suc t) = pair (uint 4) (pair (uint 4) bytes_wire)

abbrev pub payload_variants : Variants PagePayload
payload_variants = record {
  count = 2;
  Fields = PayloadFields;
  field_wire = payload_field_wire;
  tag = payload_tag;
  fields = payload_fields;
  build = build_payload;
}

unfoldable pub payload_wire : WaveWire PagePayload
payload_wire = derive_enum payload_variants

pub record PageEnvelope : Type 0 where
  pub struct_hash : ℕ
  pub payload : PagePayload

unfoldable pub envelope_wire : WaveWire PageEnvelope
envelope_wire =
    derive_struct (λ t. record { struct_hash = t.0; payload = t.1 })
      (λ e. (e.struct_hash, e.payload)) (pair (uint 8) payload_wire)

-- `struct PageBody`.
unfoldable pub body_wire : WaveWire (List (ℕ × List ℕ))
body_wire = derive_struct (λ l. l) (λ l. l) (vec (pair (uint 16) bytes_wire))

pub record SlotPage : Type 0 where
  pub struct_hash : ℕ
  pub records : Map (List ℕ)

unfoldable pub new : ℕ → SlotPage
new struct_hash = record { struct_hash = struct_hash; records = [] }

unfoldable pub upsert : CompositeId → List ℕ → SlotPage → SlotPage
upsert id bytes p = record p { records = Map.insert id.raw bytes p.records }

unfoldable pub get : CompositeId → SlotPage → Option (List ℕ)
get id p = Map.get id.raw p.records

unfoldable pub remove : CompositeId → SlotPage → SlotPage
remove id p = record p { records = Map.remove id.raw p.records }

-- `zstd::bulk` and the crc. A compressor may fail; a decompressor is given the length to expect.
pub record Codecs : Type 0 where
  pub crc : List ℕ → ℕ
  pub compress : List ℕ → List ℕ → StorageResult (List ℕ)
  pub decompress : List ℕ → List ℕ → ℕ → Option (List ℕ)

-- `collect()` into a map, which keeps the last of two entries with one key.
abbrev pub collect : Map (List ℕ) → List (ℕ × List ℕ) → Map (List ℕ)
collect m [] = m
collect m ((k, v) ∷ l) = collect (Map.insert k v m) l

module _ (c : Codecs) where
  -- The compressed payload, where it is smaller. Both lengths are cast by `as u32`.
  unfoldable pub smaller : Dictionary → List ℕ → List ℕ → PagePayload
  smaller dict plain packed =
      if ltb (length packed) (length plain)
      then zstd (length dict.buf % 2 ^ 32) (length plain % 2 ^ 32) packed
      else raw plain

  unfoldable pub payload_of : Dictionary → Bool → List ℕ → StorageResult PagePayload
  unfolding smaller
  payload_of dict compressed plain =
      if compressed
      then (do packed ← c.compress dict.buf plain; ok (smaller dict plain packed))
      else ok (raw plain)

  unfoldable pub to_bytes : Dictionary → Bool → SlotPage → StorageResult (List ℕ)
  unfolding payload_of
  to_bytes dict compressed p = do
    payload ← payload_of dict compressed (to_wire body_wire p.records)
    ok (
        framed (
          to_wire_checked c.crc envelope_wire
            (record { struct_hash = p.struct_hash; payload = payload })))

  abbrev pub decompressed : Option (List ℕ) → ℕ → List ℕ → StorageResult (List ℕ)
  decompressed none raw_len bytes = err (corrupt page_dictionary_state_unknown)
  decompressed (some state) raw_len bytes = elim (c.decompress state bytes raw_len) [
    | none ↦ err (corrupt page_decompress)
    | some plain ↦ ok plain
  ]

  unfoldable pub plain_of : Dictionary → PagePayload → StorageResult (List ℕ)
  plain_of dict (raw plain) = ok plain
  plain_of dict (zstd dict_len raw_len bytes) =
      decompressed (Dictionary.state dict_len dict) raw_len bytes

  unfoldable pub from_bytes : Dictionary → List ℕ → StorageResult SlotPage
  unfolding plain_of
  from_bytes dict buf = do
    body ← unframed page_length_truncated page_length_out_of_range buf
    envelope ← or_corrupt page_envelope (from_wire_checked c.crc envelope_wire body)
    plain ← plain_of dict envelope.payload
    records ← or_corrupt page_body (from_wire body_wire plain)
    ok (record { struct_hash = envelope.struct_hash; records = collect [] records })
