-- ===== src/Runs/Pages.antt =====
-- A small store, its pages and its address log.
use wavedb.Base.{
  ℕ, zero, suc, ◌≡◌, ◌≢◌, ◌↔◌, ◌⊎◌, inl, inr, refl, sym, ap, ◌∙◌, arith, List, [], ◌∷◌, ◌++◌, All,
  true, ◌&&◌, ◌==◌, length, take, drop, append-take-drop, Option, none, some, if◌then◌else◌,
  Bool-cases,
}
use wavedb.Ids.Id.{CompositeId}
use wavedb.Journal.Frame.{Write, put, remove, expect}
use wavedb.Wire.Codec.{to_wire, to_wire_checked}
use wavedb.Wire.Cursor.{from_le_bytes, to_le_bytes}
use wavedb.Wire.Derive.{derive_struct, derive_enum, enum_heap_size}
use wavedb.Wire.Dynamic.{vec}
use wavedb.Wire.Compose.{pair}
use wavedb.Wire.Scalars.{uint}
use wavedb.Pages.Map
use wavedb.Pages.Map.{Map, has}
use wavedb.Pages.Fault.{StorageResult, ok, err, stuck}
use wavedb.Pages.Fault
use wavedb.Pages.Buckets.{ilog2, bucket_index, next_split_bucket, split_bit, hash_bit}
use wavedb.Pages.Buckets.Laws.{bucket_index-suc}
use wavedb.Pages.Dictionary.{Dictionary}
use wavedb.Pages.Page.{
  SlotPage, Codecs, PagePayload, raw, zstd, payload_of, to_bytes, from_bytes, body_wire,
  envelope_wire,
}
use wavedb.Pages.Page
use wavedb.Pages.Page.Laws.{AreCodecs, from_bytes-to_bytes_grown}
use wavedb.Pages.Directory.{Seed, Env, File}
use wavedb.Pages.Storage.{StructStorage}
use wavedb.Pages.Storage
use wavedb.Pages.Store.{PageStore, apply_inner, read_of, bytes_eq}
use wavedb.Pages.Store.Effect.{over, written}
use wavedb.Pages.Store.Routing.{IsRegistered}
use wavedb.Pages.Store.Apply.{Holds, apply_inner_atomic, apply_inner-ok_iff, bytes_eq_iff}

-- A text compressor that drops the dictionary where a page begins with it.
abbrev pub pack : List ℕ → List ℕ → StorageResult (List ℕ)
pack dict plain =
    if bytes_eq (take (length dict) plain) dict
    then ok (1 ∷ drop (length dict) plain)
    else ok (0 ∷ plain)

abbrev unpack : List ℕ → List ℕ → ℕ → Option (List ℕ)
unpack dict [] len = none
unpack dict (zero ∷ packed) len = some packed
unpack dict (suc k ∷ packed) len = some (dict ++ packed)

unpack-pack :
    (dict plain packed : List ℕ)
    → pack dict plain ≡ ok packed
    → unpack dict packed (length plain) ≡ some plain
unpack-pack dict plain packed e = elim (Bool-cases (bytes_eq (take (length dict) plain) dict)) [
  | inl front ↦
      let same : take (length dict) plain ≡ dict = (bytes_eq_iff _ dict).0 front in
      let shape : 1 ∷ drop (length dict) plain ≡ packed = ok_eq (rw front at e) in
      rw (← shape) (
        ap some (
          ap (λ d. d ++ drop (length dict) plain) (sym same)
          ∙ append-take-drop (length dict) plain))
  | inr other ↦ let shape : 0 ∷ plain ≡ packed = ok_eq (rw other at e) in rw (← shape) refl
]
  where
    ok_eq : {a b : List ℕ} → ok a ≡ ok b → a ≡ b
    ok_eq h = cc

abbrev pub codecs : Codecs
codecs = record { crc = λ bytes. 5; compress = pack; decompress = unpack }

codecs-AreCodecs : AreCodecs codecs
codecs-AreCodecs = record { is_u32 = λ bytes. omega arith; decompress-compress = unpack-pack }

-- The hash is the first byte of the id.
abbrev first_byte : List ℕ → Seed → ℕ
first_byte [] seed = 0
first_byte (b ∷ bytes) seed = b

abbrev pub env : Env
env = record { codecs = codecs; hash_seeded = first_byte }

abbrev pub no_file : File
no_file r = err (Fault.io 1)

abbrev pub id : ℕ → CompositeId
id n = record { raw = n }

-- A record of the type 7.
abbrev pub value : ℕ → List ℕ
value n = 7 ∷ 0 ∷ 0 ∷ 0 ∷ 0 ∷ 0 ∷ 0 ∷ 0 ∷ n ∷ []

bucket_index-suc_example : bucket_index 6 13 ≡ (
    if (bucket_index 5 13 == next_split_bucket 5) && (hash_bit 13 (split_bit 5) == 1)
    then 5
    else bucket_index 5 13)
bucket_index-suc_example = bucket_index-suc 5 13 (omega arith) (omega arith)

moved : bucket_index 6 13 ≡ 5
unfolding bucket_index ilog2
moved = refl

abbrev store : PageStore
store = record {
  file = no_file;
  journal = record { file = []; ts = 1; end = 0; syncs = 0 };
  types = record (Storage.new 7) { cache = (4, value 1) ∷ [] } ∷ [];
  seed = (0, 0, 0, 0);
  pending = [];
  window = 0;
}

abbrev batch : List Write
batch = expect 7 (id 4) (some (value 1)) ∷ put (id 5) (value 2) ∷ remove 7 (id 4) ∷ []

abbrev after : StorageResult (Unit {0}) × PageStore
after = apply_inner env 0 batch store

apply_inner_atomic_example :
    ((after.0 ≡ ok tt)
      × ((h : ℕ) (j : CompositeId)
          → read_of env after.1 h j ≡ over (written batch h j) (read_of env store h j)))
    ⊎ ((after.0 ≢ ok tt) × (after.1 ≡ store))
apply_inner_atomic_example = apply_inner_atomic env 0 batch store

apply_inner-ok_iff_example :
    (after.0 ≡ ok tt) ↔ (All (IsRegistered store.types) batch × All (Holds env store) batch)
apply_inner-ok_iff_example = apply_inner-ok_iff env 0 batch store

accepted : after.0 ≡ ok tt
unfolding apply_inner Storage.new from_le_bytes read_of Map.get
accepted = refl

written_read : read_of env after.1 7 (id 5) ≡ ok (some (value 2))
unfolding apply_inner read_of Storage.new from_le_bytes Map.get Map.remove Map.insert
written_read = refl

removed_read : read_of env after.1 7 (id 4) ≡ ok none
unfolding apply_inner read_of Storage.new from_le_bytes Map.get Map.remove Map.insert
removed_read = refl

-- A guard that does not hold leaves the store alone.
refused :
    apply_inner env 0 (expect 7 (id 4) none ∷ batch) store ≡ (err (Fault.conflict (id 4)), store)
unfolding apply_inner Storage.new from_le_bytes read_of Map.get
refused = refl

-- A guard on a type that the store does not have is refused, though it expects nothing to be there.
not_registered :
    apply_inner env 0 (expect 8 (id 4) none ∷ []) store
    ≡ (err (Fault.unregistered_struct_hash 8), store)
unfolding apply_inner Storage.new
not_registered = refl

-- A page under a dictionary that has grown since.
abbrev page : SlotPage
page = record { struct_hash = 7; records = (4, value 1) ∷ (5, value 2) ∷ [] }

abbrev plain : List ℕ
plain = to_wire body_wire page.records

abbrev dict : Dictionary
dict = record { buf = take 2 plain }

-- The packed page, which is one byte shorter.
abbrev packed : PagePayload
packed = zstd 2 (length plain) (1 ∷ drop 2 plain)

from_bytes-to_bytes_grown_example :
    (bytes : List ℕ) × (to_bytes codecs dict true page ≡ ok bytes)
    × (from_bytes codecs (record { buf = dict.buf ++ 3 ∷ [] }) (bytes ++ 0 ∷ 0 ∷ []) ≡ ok page)
unfolding to_wire body_wire derive_struct vec to_le_bytes pair uint payload_of enum_heap_size
    to_wire_checked envelope_wire Page.payload_wire derive_enum
from_bytes-to_bytes_grown_example =
    from_bytes-to_bytes_grown codecs-AreCodecs dict (3 ∷ []) (0 ∷ 0 ∷ []) true page packed
      (omega arith) (omega arith) refl (omega arith) (omega arith) (omega arith) (omega arith)
