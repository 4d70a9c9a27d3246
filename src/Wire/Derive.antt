-- ===== src/Wire/Derive.antt =====
-- crates/wavedb-wire-derive/src: what `#[derive(WaveWire)]` expands to. A macro is modelled by the
-- implementation that it generates.
pub mod Laws
pub mod Ending
use wavedb.Base.{ℕ, ◌+◌, ◌%◌, ◌^◌, List, [], ◌∷◌, ◌++◌, ltb, if◌then◌else◌, Bool}
use wavedb.Wire.Error.{Result, ok, err, invalid_tag, ◌>>=◌}
use wavedb.Wire.Cursor.{Cursor, take, u8, u32, to_le_bytes}
use wavedb.Wire.Codec.{WaveWire, to_wire, from_wire}

-- A struct is encoded as the tuple of its fields, in declaration order.
module _ {ℓ κ} {A : Type ℓ} {B : Type κ} (make : A → B) (fields : B → A) (w : WaveWire A) where
  unfoldable pub derive_struct : WaveWire B
  derive_struct = record {
    stack_size = w.stack_size;
    heap_size = λ v. w.heap_size (fields v);
    encode_stack = λ v. w.encode_stack (fields v);
    encode_heap = λ v. w.encode_heap (fields v);
    decode = λ stack heap. do
      (a, stack', heap') ← w.decode stack heap
      ok (make a, stack', heap');
  }

-- The variants of an enum `E`: `Fields t` is the tuple of the fields of the variant with tag `t`,
-- its place in declaration order. A variant with no fields has the unit type.
pub record Variants (E : Type 0) : Type 1 where
  pub count : ℕ
  pub Fields : ℕ → Type 0
  pub field_wire : (t : ℕ) → WaveWire (Fields t)
  pub tag : E → ℕ
  pub fields : (v : E) → Fields (tag v)
  pub build : (t : ℕ) → Fields t → E

module _ {E : Type 0} (d : Variants E) where
  -- The fields of the active variant as a unit: their stacks, then their heaps.
  unfoldable pub enum_heap_size : E → ℕ
  enum_heap_size v =
      (d.field_wire (d.tag v)).stack_size + (d.field_wire (d.tag v)).heap_size (d.fields v)

  -- The `match` on the tag. An arm splits the payload at the stack size of its fields, as
  -- `from_wire` does.
  unfoldable pub decode_arm : ℕ → List ℕ → Result E
  decode_arm t payload =
      if ltb t d.count
      then (do a ← from_wire (d.field_wire t) payload; ok (d.build t a))
      else err (invalid_tag t)

  -- An enum of which a variant has fields.
  unfoldable pub derive_enum : WaveWire E
  unfolding enum_heap_size decode_arm
  derive_enum = record {
    stack_size = 1 + 4;
    heap_size = enum_heap_size;
    encode_stack = λ v. d.tag v ∷ to_le_bytes 4 (enum_heap_size v % 2 ^ 32);
    encode_heap = λ v. to_wire (d.field_wire (d.tag v)) (d.fields v);
    decode = λ stack heap. do
      (t, stack') ← u8 stack
      (payload_len, stack'') ← u32 stack'
      (payload, heap') ← take payload_len heap
      v ← decode_arm t payload
      ok (v, stack'', heap');
  }

-- An enum with no fields, from its tags.
module _ {E : Type 0} (tag : E → ℕ) (of_tag : ℕ → Result E) where
  unfoldable pub derive_plain_enum : WaveWire E
  derive_plain_enum = record {
    stack_size = 1;
    heap_size = λ v. 0;
    encode_stack = λ v. tag v ∷ [];
    encode_heap = λ v. [];
    decode = λ stack heap. do
      (t, stack') ← u8 stack
      v ← of_tag t
      ok (v, stack', heap);
  }
