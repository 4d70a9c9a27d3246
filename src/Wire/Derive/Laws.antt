-- ===== src/Wire/Derive/Laws.antt =====
-- The derived implementations keep the trait's promise where the implementations of the fields do.
use wavedb.Base.{
  ℕ, suc, ◌%◌, ◌<◌, ◌^◌, ◌≡◌, refl, sym, ap, ◌∙◌, arith, [], ◌∷◌, ◌++◌, append-nil, lt→ltb,
}
use wavedb.Wire.Error.{Result, ok}
use wavedb.Wire.Cursor.{to_le_bytes}
use wavedb.Wire.Cursor.Laws.{
  advance, advance-advance, advance-zero, take_next, rest_next, u8_next, u32_next,
  length-to_le_bytes,
}
use wavedb.Wire.Codec.{WaveWire, to_wire, from_wire}
use wavedb.Wire.Codec.Laws.{IsWire}
use wavedb.Wire.Codec.RoundTrip.{from_wire-to_wire, length-to_wire}
use wavedb.Wire.Derive.{
  derive_struct, Variants, enum_heap_size, decode_arm, derive_enum, derive_plain_enum,
}

module _ {ℓ κ} {A : Type ℓ} {B : Type κ} (make : A → B) {fields : B → A} {w : WaveWire A}
    {Fits : A → Type 0} (law : IsWire w Fits) (make-fields : (v : B) → make (fields v) ≡ v) where
  pub derive_struct-IsWire : IsWire (derive_struct make fields w) (λ v. Fits (fields v))
  unfolding derive_struct
  derive_struct-IsWire = record {
    length_stack = λ v. law.length_stack (fields v);
    length_heap = λ v. law.length_heap (fields v);
    decode_encode = λ v sc hc s h fits es eh.
        rw (law.decode_encode (fields v) sc hc s h fits es eh)
          (λ i. ok (make-fields v i, advance w.stack_size sc, advance (w.heap_size (fields v)) hc));
  }

-- The promises about an enum's variants.
pub record AreVariants {E : Type 0} (d : Variants E) (Fits : E → Type 0) : Type 1 where
  pub FieldsFit : (t : ℕ) → d.Fields t → Type 0
  pub field_law : (t : ℕ) → IsWire (d.field_wire t) (FieldsFit t)
  pub fields_fit : (v : E) → Fits v → FieldsFit (d.tag v) (d.fields v)
  pub tag_lt : (v : E) → d.tag v < d.count
  pub build-fields : (v : E) → d.build (d.tag v) (d.fields v) ≡ v

module _ {E : Type 0} {d : Variants E} {Fits : E → Type 0} (law : AreVariants d Fits) where
  decode_arm-to_wire :
      (v : E)
      → Fits v
      → decode_arm d (d.tag v) (to_wire (d.field_wire (d.tag v)) (d.fields v)) ≡ ok v
  unfolding decode_arm
  decode_arm-to_wire v fits =
      rw (lt→ltb (d.tag v) d.count (law.tag_lt v), whole) (ap ok (law.build-fields v))
    where
      whole :
          from_wire (d.field_wire (d.tag v)) (to_wire (d.field_wire (d.tag v)) (d.fields v))
          ≡ ok (d.fields v)
      whole =
          rw append-nil at
            (from_wire-to_wire (law.field_law (d.tag v)) (d.fields v) [] (law.fields_fit v fits))

  -- The derived codec of an enum with fields keeps the trait's promise where the codecs of its
  -- variants' fields do and the tags are below the number of variants: a value reads back when its
  -- fields fit and its payload is below 2 ^ 32 bytes.
  pub derive_enum-IsWire : IsWire (derive_enum d) (λ v. Fits v × (enum_heap_size d v < 2 ^ 32))
  unfolding derive_enum
  derive_enum-IsWire = record {
    length_stack = λ v. ap suc (length-to_le_bytes 4 (enum_heap_size d v % 2 ^ 32));
    length_heap = λ v. length-to_wire (law.field_law (d.tag v)) (d.fields v);
    decode_encode = λ v sc hc s h fits es eh.
        let n = enum_heap_size d v in
        let slot : to_le_bytes 4 (n % 2 ^ 32) ++ s ≡ to_le_bytes 4 n ++ s =
          ap (λ k. to_le_bytes 4 k ++ s) (omega arith) in
        rw (u8_next (d.tag v) sc (to_le_bytes 4 (n % 2 ^ 32) ++ s) es) (
          rw (u32_next n (advance 1 sc) s fits.1 (rest_next 1 sc (d.tag v ∷ []) _ es refl ∙ slot)) (
            rw
              (take_next n hc (to_wire (d.field_wire (d.tag v)) (d.fields v)) h eh
                (length-to_wire (law.field_law (d.tag v)) (d.fields v)))
              (rw (decode_arm-to_wire v fits.0)
                (ap (λ c. ok (v, c, advance n hc)) (advance-advance 1 4 sc)))));
  }

module _ {E : Type 0} {tag : E → ℕ} (of_tag : ℕ → Result E)
    (of_tag-tag : (v : E) → of_tag (tag v) ≡ ok v) where
  pub derive_plain_enum-IsWire : IsWire (derive_plain_enum tag of_tag) (λ v. Unit)
  unfolding derive_plain_enum
  derive_plain_enum-IsWire = record {
    length_stack = λ v. refl;
    length_heap = λ v. refl;
    decode_encode = λ v sc hc s h fits es eh.
        rw (u8_next (tag v) sc s es)
          (rw (of_tag-tag v) (ap (λ c. ok (v, advance 1 sc, c)) (sym (advance-zero hc))));
  }
