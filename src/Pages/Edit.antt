-- ===== src/Pages/Edit.antt =====
-- crates/wavedb-storage/src/edit.rs: the log of the addresses, one chunk for each settle round.
pub mod Restores
use wavedb.Base.{
  ℕ, zero, suc, ◌+◌, ◌-◌, ◌%◌, ◌^◌, List, [], ◌∷◌, ◌++◌, map, Bool, true, false, length, replicate,
  ltb, Option, none, some, if◌then◌else◌,
}
use wavedb.Blocks.Descriptor.{BlockDescriptor, Run, is_allocated, run}
use wavedb.Wire.Codec.{WaveWire, to_wire_checked, from_wire_checked}
use wavedb.Wire.Scalars.{uint}
use wavedb.Wire.Dynamic.{vec, option}
use wavedb.Wire.Compose.{pair}
use wavedb.Wire.Derive.{derive_struct}
use wavedb.Pages.Map.{Map}
use wavedb.Pages.Map
use wavedb.Pages.Fault.{
  StorageResult, ok, err, stuck, corrupt, or_corrupt, edit_chunk, edit_chunk_header,
  edit_chunk_length, edit_chunk_bucket_out_of_range, edit_chain_too_long, ◌>>=◌,
}
use wavedb.Pages.Framed.{framed, unframed}
use wavedb.Pages.Directory.{File, descriptor}

abbrev pub max_edit_chunks : ℕ
max_edit_chunks = 1024

pub record SlotEdit : Type 0 where
  pub struct_hash : ℕ
  pub buckets : ℕ
  pub changed : List (ℕ × ℕ)
  pub dict : Option ℕ

pub record EditChunk : Type 0 where
  pub prev : ℕ
  pub slots : List SlotEdit

abbrev pub SlotEditFields : Type 0
SlotEditFields = ℕ × (ℕ × (List (ℕ × ℕ) × Option ℕ))

abbrev pub slot_edit : SlotEditFields → SlotEdit
slot_edit (hash, (buckets, (changed, dict))) = record {
  struct_hash = hash;
  buckets = buckets;
  changed = changed;
  dict = dict;
}

abbrev pub slot_edit_fields : SlotEdit → SlotEditFields
slot_edit_fields e = (e.struct_hash, (e.buckets, (e.changed, e.dict)))

unfoldable pub slot_edit_wire : WaveWire SlotEdit
slot_edit_wire =
    derive_struct slot_edit slot_edit_fields
      (pair (uint 8) (pair (uint 4) (pair (vec (pair (uint 4) (uint 8))) (option (uint 8)))))

unfoldable pub chunk_wire : WaveWire EditChunk
chunk_wire =
    derive_struct (λ t. record { prev = t.0; slots = t.1 }) (λ c. (c.prev, c.slots))
      (pair (uint 8) (vec slot_edit_wire))

unfoldable pub encode : (List ℕ → ℕ) → EditChunk → List ℕ
encode crc chunk = framed (to_wire_checked crc chunk_wire chunk)

unfoldable pub read_chunk : (List ℕ → ℕ) → File → Run → StorageResult EditChunk
read_chunk crc file r = do
  bytes ← file r
  body ← unframed edit_chunk_header edit_chunk_length bytes
  or_corrupt edit_chunk (from_wire_checked crc chunk_wire body)

-- The loop of `walk`: `seen` chunks are in `chain`, the newest last. A round pushes a chunk, and the
-- round behind `max_edit_chunks` and one more fails, so two more rounds than those are enough.
unfoldable pub walk_loop :
    ℕ
    → (List ℕ → ℕ)
    → File
    → BlockDescriptor
    → ℕ
    → List BlockDescriptor
    → StorageResult (List BlockDescriptor)
unfolding read_chunk
walk_loop zero crc file cursor seen chain = stuck
walk_loop (suc fuel) crc file cursor seen chain = elim (is_allocated cursor) [
  | false ↦ ok chain
  | true ↦ elim (ltb max_edit_chunks seen) [
    | true ↦ err (corrupt edit_chain_too_long)
    | false ↦ (do
      chunk ← read_chunk crc file (run cursor)
      walk_loop fuel crc file (record { raw = chunk.prev }) (suc seen) (cursor ∷ chain))
  ]
]

-- The chain is built from the front, so it needs no reversal at the end.
unfoldable pub walk : (List ℕ → ℕ) → File → BlockDescriptor → StorageResult (List BlockDescriptor)
unfolding walk_loop
walk crc file head = walk_loop (max_edit_chunks + 2) crc file head 0 []

-- Each bucket from `i` on with its address. `bucket as u32` wraps.
abbrev pub buckets_from : ℕ → List BlockDescriptor → List (ℕ × ℕ)
buckets_from i [] = []
buckets_from i (d ∷ slots) = (i % 2 ^ 32, d.raw) ∷ buckets_from (suc i) slots

unfoldable pub every_bucket : List BlockDescriptor → List (ℕ × ℕ)
every_bucket slots = buckets_from 0 slots

abbrev pub raw_of : Option BlockDescriptor → ℕ
raw_of none = 0
raw_of (some d) = d.raw

-- The buckets that a plan has pages for, with the addresses that the plan's directory has. A plan has
-- pages for buckets of its directory only, where `descriptor` does not panic.
unfoldable pub changed_buckets : Map (List ℕ) → List BlockDescriptor → List (ℕ × ℕ)
changed_buckets [] slots = []
changed_buckets ((bucket, bytes) ∷ pages) slots =
    (bucket % 2 ^ 32, raw_of (descriptor slots bucket)) ∷ changed_buckets pages slots

-- `planned_edit`, for a plan's directory and pages, with what the round knows of the dictionary.
unfoldable pub planned_edit : ℕ → List BlockDescriptor → Map (List ℕ) → Bool → Option ℕ → SlotEdit
unfolding every_bucket changed_buckets
planned_edit struct_hash slots pages full dict = record {
  struct_hash = struct_hash;
  buckets = length slots % 2 ^ 32;
  changed = if full then every_bucket slots else changed_buckets pages slots;
  dict = dict;
}

pub record Replay : Type 0 where
  pub slots : Map (List ℕ)
  pub dicts : Map ℕ

-- `entry(hash).or_default()`.
abbrev pub or_default : Option (List ℕ) → List ℕ
or_default none = []
or_default (some addresses) = addresses

-- `resize(buckets, 0)`, if that is longer.
abbrev pub resized : ℕ → List ℕ → List ℕ
resized buckets addresses =
    if ltb (length addresses) buckets
    then addresses ++ replicate (buckets - length addresses) 0
    else addresses

-- `*addresses.get_mut(bucket)? = raw`.
abbrev pub put_address : ℕ → ℕ → List ℕ → StorageResult (List ℕ)
put_address bucket raw [] = err (corrupt edit_chunk_bucket_out_of_range)
put_address zero raw (a ∷ addresses) = ok (raw ∷ addresses)
put_address (suc bucket) raw (a ∷ addresses) = do
  rest ← put_address bucket raw addresses
  ok (a ∷ rest)

abbrev pub put_addresses : List (ℕ × ℕ) → List ℕ → StorageResult (List ℕ)
put_addresses [] addresses = ok addresses
put_addresses ((bucket, raw) ∷ changed) addresses = do
  addresses ← put_address bucket raw addresses
  put_addresses changed addresses

abbrev pub put_dict : Option ℕ → ℕ → Map ℕ → Map ℕ
put_dict none hash dicts = dicts
put_dict (some dict) hash dicts = Map.insert hash dict dicts

-- The edit of one type. What an error leaves in the state is dropped by the caller.
unfoldable pub apply_edit : SlotEdit → Replay → StorageResult Replay
apply_edit edit r = do
  addresses ←
      put_addresses edit.changed
        (resized edit.buckets (or_default (Map.get edit.struct_hash r.slots)))
  ok (record {
    slots = Map.insert edit.struct_hash addresses r.slots;
    dicts = put_dict edit.dict edit.struct_hash r.dicts;
  })

abbrev pub apply_edits : List SlotEdit → Replay → StorageResult Replay
apply_edits [] r = ok r
apply_edits (edit ∷ edits) r = do r ← apply_edit edit r; apply_edits edits r

unfoldable pub apply : EditChunk → Replay → StorageResult Replay
unfolding apply_edit
apply chunk r = apply_edits chunk.slots r
