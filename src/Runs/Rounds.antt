-- ===== src/Runs/Rounds.antt =====
-- The plan of a round, and the chunks of the addresses.
use wavedb.Base.{
  ℕ, zero, suc, ◌<◌, ◌≡◌, inl, inr, refl, arith, List, [], ◌∷◌, ◌++◌, All, true, false, ◌==◌, ◌^◌,
  length, take, drop, none, some, if◌then◌else◌, Bool-cases, subst,
}
use wavedb.Ids.Id.{CompositeId}
use wavedb.Blocks.Descriptor.{BlockDescriptor, is_allocated, run}
use wavedb.Wire.Codec.{to_wire, to_wire_checked}
use wavedb.Wire.Cursor.{from_le_bytes, to_le_bytes}
use wavedb.Wire.Derive.{derive_struct, derive_enum}
use wavedb.Wire.Dynamic.{vec}
use wavedb.Wire.Compose.{pair}
use wavedb.Wire.Scalars.{uint}
use wavedb.Pages.Map
use wavedb.Pages.Map.{Map, has}
use wavedb.Pages.Fault.{ok, err, stuck}
use wavedb.Pages.Buckets.{ilog2, bucket_index, next_split_bucket, split_bit}
use wavedb.Pages.Dictionary.{Dictionary, DictState}
use wavedb.Pages.Page.{
  SlotPage, Codecs, PagePayload, raw, zstd, payload_of, to_bytes, from_bytes, body_wire,
  envelope_wire,
}
use wavedb.Pages.Page
use wavedb.Pages.Directory.{Seed, File, empty, new, descriptor, bucket_of, read_page}
use wavedb.Pages.Storage.{StructStorage}
use wavedb.Pages.Storage
use wavedb.Pages.Store.{slot_index, bytes_eq}
use wavedb.Pages.Edit.{
  apply, Replay, EditChunk, apply_edit, planned_edit, read_chunk, walk, or_default, encode,
}
use wavedb.Pages.Edit.Restores.{apply_edit-planned_edit}
use wavedb.Pages.Chunk.{chunk_of, slot_at}
use wavedb.Pages.Chunk.Named.{AreFound, IsSmall, slots_after}
use wavedb.Pages.Chunk.Snapshot.{raws_of, apply-chunk_of}
use wavedb.Pages.MetaLog.{MetaLog, record_chunk, wants_snapshot, head}
use wavedb.Pages.MetaLog.Chain.{IsLog, walk-record_chunk}
use wavedb.Pages.Plan.{SlotPlan, Staging, Splitting, plan_pages}
use wavedb.Pages.Plan.Stage.{page_in, listed}
use wavedb.Pages.Plan.Images.{AreImages}
use wavedb.Pages.Plan.Total.{Compresses}
use wavedb.Pages.Plan.Keeps.{plan_pages_keeps}
use wavedb.Runs.Pages.{codecs, env, no_file, id, value}

-- A round of a type that was never settled, whose buckets are split as far as a round goes.
abbrev slot : StructStorage
slot = record {
  struct_hash = 7;
  cache = (4, value 1) ∷ (5, value 2) ∷ [];
  dir = none;
  dict = record { enabled = true; dict = record { buf = [] }; desc = empty };
  dead = [];
}

abbrev seed : Seed
seed = (0, 0, 0, 0)

abbrev round : List CompositeId
round = id 4 ∷ id 5 ∷ id 6 ∷ []

abbrev no_plan : Staging × Splitting
no_plan = (
  record { staged = []; dict = slot.dict; cleared = []; grew = false },
  record { dir = new seed; staged = []; pages = [] },
)

abbrev planned : Staging × Splitting
planned = elim (plan_pages env no_file slot seed 0 round) [
  | ok p ↦ p
  | err e ↦ no_plan
  | stuck ↦ no_plan
]

empty_page : (b : ℕ) → b < 1 → read_page env (new seed) 7 no_file b slot.dict ≡ ok (Page.new 7)
unfolding read_page is_allocated
empty_page zero h = refl
empty_page (suc b) h = absurd (omega (arith, h))

-- Every split that a round may make is made.
split_to_the_end : length planned.1.dir.slots ≡ 65
unfolding plan_pages Map.get read_page bucket_of bucket_index to_le_bytes ilog2 is_allocated
    Storage.get Map.insert to_bytes wavedb.Pages.Dictionary.sample_state to_wire body_wire
    derive_struct vec Page.remove Map.remove Page.upsert Page.new pair uint next_split_bucket
    wavedb.Pages.Framed.framed to_wire_checked envelope_wire Page.payload_wire derive_enum split_bit
split_to_the_end = refl

codecs-Compresses : Compresses codecs
codecs-Compresses dict plain = elim (Bool-cases (bytes_eq (take (length dict) plain) dict)) [
  | inl front ↦ (1 ∷ drop (length dict) plain, rw front refl)
  | inr other ↦ (0 ∷ plain, rw other refl)
]

plan_pages_keeps_example :
    (p : Staging × Splitting) × (plan_pages env no_file slot seed 0 round ≡ ok p)
    × AreImages env p.0.dict p.1.staged p.1.pages
    × ((j : CompositeId)
        → Page.get j (page_in (λ b. Page.new 7) p.1.staged (bucket_of env p.1.dir j.raw))
          ≡ (if listed round j then Storage.get j slot else Page.get j (Page.new 7)))
plan_pages_keeps_example =
    plan_pages_keeps env no_file slot seed 0 round (λ b. Page.new 7) codecs-Compresses empty_page
      (omega arith) (omega arith)

-- A round that puts a page into the second of three buckets, over the addresses of two.
abbrev two : List BlockDescriptor
two = record { raw = 11 } ∷ record { raw = 12 } ∷ []

abbrev three : List BlockDescriptor
three = record { raw = 11 } ∷ record { raw = 22 } ∷ record { raw = 13 } ∷ []

abbrev known : Replay
known = record { slots = (7, 11 ∷ 12 ∷ []) ∷ []; dicts = [] }

abbrev changed : Map (List ℕ)
changed = (1, []) ∷ (2, []) ∷ []

others_kept :
    (b : ℕ) → b < 3 → has b changed ≡ false → (b < 2) × (descriptor three b ≡ descriptor two b)
unfolding Map.get
others_kept zero h e = (omega arith, refl)
others_kept (suc zero) h e = absurd (cc)
others_kept (suc (suc zero)) h e = absurd (cc)
others_kept (suc (suc (suc b))) h e = absurd (omega (arith, h))

apply_edit-planned_edit_example :
    (r' : Replay) × (apply_edit (planned_edit 7 three changed false none) known ≡ ok r')
    × ((h : ℕ)
        → Map.get h r'.slots ≡ (if 7 == h then some (11 ∷ 22 ∷ 13 ∷ []) else Map.get h known.slots))
unfolding Map.get
apply_edit-planned_edit_example =
    apply_edit-planned_edit 7 two three changed none known (omega arith) (omega arith)
      (omega arith, (omega arith, tt)) others_kept refl

-- A log of one snapshot, which a small round goes on.
abbrev first_chunk : EditChunk
first_chunk = record { prev = 0; slots = [] }

abbrev snapshot : BlockDescriptor
snapshot = record { raw = 16777232 }

abbrev edit : BlockDescriptor
edit = record { raw = 33554448 }

abbrev second_chunk : EditChunk
second_chunk = record { prev = snapshot.raw; slots = [] }

abbrev log_file : File
log_file r =
    if r.start == 1
    then ok (encode codecs.crc first_chunk ++ 0 ∷ [])
    else ok (encode codecs.crc second_chunk ++ 0 ∷ [])

abbrev log : MetaLog
log = record { snapshot = snapshot; edits = []; edit_blocks = 0 }

first_read : read_chunk codecs.crc log_file (run snapshot) ≡ ok first_chunk
unfolding read_chunk run wavedb.Pages.Framed.unframed encode wavedb.Pages.Framed.framed to_le_bytes
    to_wire_checked wavedb.Pages.Edit.chunk_wire derive_struct pair uint vec from_le_bytes
    wavedb.Wire.Codec.from_wire_checked wavedb.Wire.Cursor.take wavedb.Wire.Cursor.new
    wavedb.Wire.Cursor.u32
first_read = refl

second_read : read_chunk codecs.crc log_file (run edit) ≡ ok second_chunk
unfolding read_chunk run wavedb.Pages.Framed.unframed encode wavedb.Pages.Framed.framed to_le_bytes
    to_wire_checked wavedb.Pages.Edit.chunk_wire derive_struct pair uint vec from_le_bytes
    wavedb.Wire.Codec.from_wire_checked wavedb.Wire.Cursor.take wavedb.Wire.Cursor.new
    wavedb.Wire.Cursor.u32
second_read = refl

log-IsLog : IsLog codecs.crc log_file log
unfolding head is_allocated
log-IsLog = record { bounded = omega arith; linked = (refl, refl, (first_chunk, first_read, refl)) }

walk-record_chunk_example :
    IsLog codecs.crc log_file (record_chunk edit (wants_snapshot log) log).0
    × (walk codecs.crc log_file
          (record { raw = head (record_chunk edit (wants_snapshot log) log).0 })
        ≡ ok (snapshot ∷ edit ∷ []))
unfolding head is_allocated wants_snapshot
walk-record_chunk_example =
    walk-record_chunk codecs.crc log_file log_file log edit second_chunk log-IsLog (refl, tt) refl
      second_read refl

-- A snapshot over a type with a plan and one without.
abbrev planned_type : StructStorage
planned_type = Storage.new 7

abbrev settled_type : StructStorage
settled_type = record (Storage.new 9) { dir = some (record { slots = two; seed = seed }) }

abbrev types : List StructStorage
types = planned_type ∷ settled_type ∷ []

abbrev work : SlotPlan
work = record {
  idx = 0;
  dir = record { slots = three; seed = seed };
  pages = changed;
  dict = none;
  cleared = [];
}

types-AreFound : AreFound types
unfolding slot_index Storage.new
types-AreFound zero s a =
    let same : planned_type ≡ s = cc in
    subst (λ t. slot_index t.struct_hash types ≡ some 0) same refl
types-AreFound (suc zero) s a =
    let same : settled_type ≡ s = cc in
    subst (λ t. slot_index t.struct_hash types ≡ some 1) same refl
types-AreFound (suc (suc i)) s a = absurd (cc)

types-AreSmall : All IsSmall types
unfolding Storage.new
types-AreSmall = (
  λ dir e. absurd (cc),
  (
    λ dir e.
        let same : record { slots = two; seed = seed } ≡ dir = cc in
        subst (λ d. length d.slots < 2 ^ 32) same (omega arith),
    tt,
  ),
)

apply-chunk_of_example :
    (chunk : EditChunk) × (chunk_of types (work ∷ []) true [] 0 ≡ ok chunk)
    × (r : Replay) × (apply chunk (record { slots = []; dicts = [] }) ≡ ok r)
    × ((i : ℕ) (s : StructStorage)
        → slot_at types i ≡ some s
        → Map.get s.struct_hash r.slots ≡ raws_of (slots_after types (work ∷ []) i))
unfolding Storage.new
apply-chunk_of_example =
    apply-chunk_of types (work ∷ []) [] 0 types-AreFound
      ((refl, (planned_type, refl), omega arith), tt) types-AreSmall
