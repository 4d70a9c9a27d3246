-- ===== src/Journal/Frame.antt =====
-- The frames of the journal: `JournalFrame` and `CommitFrame` of
-- crates/wavedb-storage/src/journal.rs, and `Write` of crates/wavedb-core/src/store.rs, with their
-- derived codecs.
use wavedb.Base.{ℕ, zero, suc, ◌^◌, ◌<◌, ◌≡◌, refl, arith, List, All, Option}
use wavedb.Ids.Id.{CompositeId, id_wire}
use wavedb.Ids.Laws.{id_wire-IsWire}
use wavedb.Wire.Codec.{WaveWire}
use wavedb.Wire.Codec.Laws.{IsWire}
use wavedb.Wire.Scalars.{uint}
use wavedb.Wire.Scalars.Laws.{uint-IsWire}
use wavedb.Wire.Dynamic.{vec, vec_heap_size, option}
use wavedb.Wire.Dynamic.Laws.{vec-IsWire}
use wavedb.Wire.Dynamic.Options.{OptionFits, option-IsWire}
use wavedb.Wire.Compose.{pair}
use wavedb.Wire.Compose.Laws.{pair-IsWire}
use wavedb.Wire.Derive.{derive_struct, Variants, enum_heap_size, derive_enum}
use wavedb.Wire.Derive.Laws.{derive_struct-IsWire, AreVariants, derive_enum-IsWire}

pub data Write : Type 0 where
  put : CompositeId → List ℕ → Write
  remove : ℕ → CompositeId → Write
  expect : ℕ → CompositeId → Option (List ℕ) → Write

abbrev pub write_tag : Write → ℕ
write_tag (put id bytes) = 0
write_tag (remove hash id) = 1
write_tag (expect hash id bytes) = 2

abbrev pub WriteFields : ℕ → Type 0
WriteFields zero = CompositeId × List ℕ
WriteFields (suc zero) = ℕ × CompositeId
WriteFields (suc (suc t)) = ℕ × (CompositeId × Option (List ℕ))

abbrev pub write_fields : (v : Write) → WriteFields (write_tag v)
write_fields (put id bytes) = (id, bytes)
write_fields (remove hash id) = (hash, id)
write_fields (expect hash id bytes) = (hash, (id, bytes))

abbrev pub build_write : (t : ℕ) → WriteFields t → Write
build_write zero (id, bytes) = put id bytes
build_write (suc zero) (hash, id) = remove hash id
build_write (suc (suc t)) (hash, (id, bytes)) = expect hash id bytes

-- `Vec<u8>`.
abbrev pub bytes_wire : WaveWire (List ℕ)
bytes_wire = vec (uint 1)

abbrev pub write_field_wire : (t : ℕ) → WaveWire (WriteFields t)
write_field_wire zero = pair id_wire bytes_wire
write_field_wire (suc zero) = pair (uint 8) id_wire
write_field_wire (suc (suc t)) = pair (uint 8) (pair id_wire (option bytes_wire))

abbrev pub write_variants : Variants Write
write_variants = record {
  count = 3;
  Fields = WriteFields;
  field_wire = write_field_wire;
  tag = write_tag;
  fields = write_fields;
  build = build_write;
}

unfoldable pub write_wire : WaveWire Write
write_wire = derive_enum write_variants

pub record CommitFrame : Type 0 where
  pub journal_ts : ℕ
  pub head : ℕ

unfoldable pub commit_wire : WaveWire CommitFrame
commit_wire =
    derive_struct (λ t. record { journal_ts = t.0; head = t.1 }) (λ c. (c.journal_ts, c.head))
      (pair (uint 8) (uint 8))

pub data JournalFrame : Type 0 where
  batch : List Write → JournalFrame
  commit : CommitFrame → JournalFrame

abbrev pub frame_tag : JournalFrame → ℕ
frame_tag (batch writes) = 0
frame_tag (commit c) = 1

abbrev pub FrameFields : ℕ → Type 0
FrameFields zero = List Write
FrameFields (suc t) = CommitFrame

abbrev pub frame_fields : (v : JournalFrame) → FrameFields (frame_tag v)
frame_fields (batch writes) = writes
frame_fields (commit c) = c

abbrev pub build_frame : (t : ℕ) → FrameFields t → JournalFrame
build_frame zero writes = batch writes
build_frame (suc t) c = commit c

abbrev pub frame_field_wire : (t : ℕ) → WaveWire (FrameFields t)
frame_field_wire zero = vec write_wire
frame_field_wire (suc t) = commit_wire

abbrev pub frame_variants : Variants JournalFrame
frame_variants = record {
  count = 2;
  Fields = FrameFields;
  field_wire = frame_field_wire;
  tag = frame_tag;
  fields = frame_fields;
  build = build_frame;
}

unfoldable pub journal_frame_wire : WaveWire JournalFrame
journal_frame_wire = derive_enum frame_variants

-- Numbers of their width, and lengths that fit 32 bits.
abbrev pub BytesFit : List ℕ → Type 0
BytesFit bytes = All (λ b. b < 256 ^ 1) bytes × (vec_heap_size (uint 1) bytes < 2 ^ 32)

pub bytes-IsWire : IsWire bytes_wire BytesFit
unfolding uint
bytes-IsWire = vec-IsWire (uint-IsWire 1) (omega arith)

abbrev pub WriteFieldsFit : (t : ℕ) → WriteFields t → Type 0
WriteFieldsFit zero f = (f.0.raw < 256 ^ 16) × BytesFit f.1
WriteFieldsFit (suc zero) f = (f.0 < 256 ^ 8) × (f.1.raw < 256 ^ 16)
WriteFieldsFit (suc (suc t)) f =
    (f.0 < 256 ^ 8) × ((f.1.0.raw < 256 ^ 16) × OptionFits bytes-IsWire f.1.1)

write_field_law : (t : ℕ) → IsWire (write_field_wire t) (WriteFieldsFit t)
write_field_law zero = pair-IsWire id_wire-IsWire bytes-IsWire
write_field_law (suc zero) = pair-IsWire (uint-IsWire 8) id_wire-IsWire
write_field_law (suc (suc t)) =
    pair-IsWire (uint-IsWire 8) (pair-IsWire id_wire-IsWire (option-IsWire bytes-IsWire))

abbrev pub WriteFits : Write → Type 0
WriteFits v = WriteFieldsFit (write_tag v) (write_fields v)

write_tag-lt : (v : Write) → write_tag v < 3
write_tag-lt (put id bytes) = omega arith
write_tag-lt (remove hash id) = omega arith
write_tag-lt (expect hash id bytes) = omega arith

build_write-fields : (v : Write) → build_write (write_tag v) (write_fields v) ≡ v
build_write-fields (put id bytes) = refl
build_write-fields (remove hash id) = refl
build_write-fields (expect hash id bytes) = refl

pub write-AreVariants : AreVariants write_variants WriteFits
write-AreVariants = record {
  FieldsFit = WriteFieldsFit;
  field_law = write_field_law;
  fields_fit = λ v fits. fits;
  tag_lt = write_tag-lt;
  build-fields = build_write-fields;
}

abbrev pub WriteFitsWire : Write → Type 0
WriteFitsWire v = WriteFits v × (enum_heap_size write_variants v < 2 ^ 32)

pub write_wire-IsWire : IsWire write_wire WriteFitsWire
unfolding write_wire
write_wire-IsWire = derive_enum-IsWire write-AreVariants

commit_wire-IsWire : IsWire commit_wire (λ c. (c.journal_ts < 256 ^ 8) × (c.head < 256 ^ 8))
unfolding commit_wire
commit_wire-IsWire =
    derive_struct-IsWire _ (pair-IsWire (uint-IsWire 8) (uint-IsWire 8)) (λ c. refl)

abbrev pub FrameFieldsFit : (t : ℕ) → FrameFields t → Type 0
FrameFieldsFit zero writes = All WriteFitsWire writes × (vec_heap_size write_wire writes < 2 ^ 32)
FrameFieldsFit (suc t) c = (c.journal_ts < 256 ^ 8) × (c.head < 256 ^ 8)

write_wire_size : 0 < write_wire.stack_size
unfolding write_wire derive_enum
write_wire_size = omega arith

frame_field_law : (t : ℕ) → IsWire (frame_field_wire t) (FrameFieldsFit t)
frame_field_law zero = vec-IsWire write_wire-IsWire write_wire_size
frame_field_law (suc t) = commit_wire-IsWire

frame_tag-lt : (v : JournalFrame) → frame_tag v < 2
frame_tag-lt (batch writes) = omega arith
frame_tag-lt (commit c) = omega arith

build_frame-fields : (v : JournalFrame) → build_frame (frame_tag v) (frame_fields v) ≡ v
build_frame-fields (batch writes) = refl
build_frame-fields (commit c) = refl

frame-AreVariants : AreVariants frame_variants (λ v. FrameFieldsFit (frame_tag v) (frame_fields v))
frame-AreVariants = record {
  FieldsFit = FrameFieldsFit;
  field_law = frame_field_law;
  fields_fit = λ v fits. fits;
  tag_lt = frame_tag-lt;
  build-fields = build_frame-fields;
}

abbrev pub FrameFits : JournalFrame → Type 0
FrameFits v =
    FrameFieldsFit (frame_tag v) (frame_fields v) × (enum_heap_size frame_variants v < 2 ^ 32)

-- A journal frame whose numbers have their width and whose lengths fit 32 bits reads back from its
-- derived encoding, and its sizes are as computed.
pub journal_frame_wire-IsWire : IsWire journal_frame_wire FrameFits
unfolding journal_frame_wire
journal_frame_wire-IsWire = derive_enum-IsWire frame-AreVariants
