-- ===== src/Wire/Derive/Ending.antt =====
-- The derived decodes end where those of the fields do.
use wavedb.Base.{
  ℕ, ◌≢◌, refl, arith, List, Bool-cases, inl, inr, ltb, length, take as take_list, drop,
}
use wavedb.Wire.Error.{Result, ok, err, stuck, bind-ne-stuck}
use wavedb.Wire.Cursor.{Cursor, new, take, u8, u32}
use wavedb.Wire.Codec.{WaveWire, value, from_wire, from_wire_checked}
use wavedb.Wire.Codec.Laws.{Ends}
use wavedb.Wire.Dynamic.Ending.{take-ne-stuck, u8-ne-stuck, u32-ne-stuck}
use wavedb.Wire.Derive.{derive_struct, Variants, decode_arm, derive_enum}

value-ne-stuck {ℓ} : {A : Type ℓ} (r : Result (A × Cursor × Cursor)) → r ≢ stuck → value r ≢ stuck
value-ne-stuck (ok (a, sc, hc)) h e = cc
value-ne-stuck (err x) h e = cc
value-ne-stuck stuck h e = h refl

module _ {ℓ} {A : Type ℓ} (w : WaveWire A) (ends : Ends w) where
  pub from_wire-ne-stuck : (bytes : List ℕ) → from_wire w bytes ≢ stuck
  unfolding from_wire
  from_wire-ne-stuck bytes = elim (Bool-cases (ltb (length bytes) w.stack_size)) [
    | inl short ↦ rw short (λ e. cc)
    | inr enough ↦ rw enough (
        value-ne-stuck
          (w.decode (new (take_list w.stack_size bytes)) (new (drop w.stack_size bytes)))
          (ends (new (take_list w.stack_size bytes)) (new (drop w.stack_size bytes))))
  ]

  pub from_wire_checked-ne-stuck :
      (crc : List ℕ → ℕ) (bytes : List ℕ) → from_wire_checked crc w bytes ≢ stuck
  unfolding from_wire_checked
  from_wire_checked-ne-stuck crc bytes e = ground (arith, from_wire-ne-stuck (drop 4 bytes))

module _ {ℓ κ} {A : Type ℓ} {B : Type κ} (make : A → B) (fields : B → A) (w : WaveWire A) where
  pub derive_struct-Ends : Ends w → Ends (derive_struct make fields w)
  unfolding derive_struct
  derive_struct-Ends ends sc hc = bind-ne-stuck (w.decode sc hc) _ (ends sc hc) (λ t e. cc)

module _ {E : Type 0} (d : Variants E) (ends : (t : ℕ) → Ends (d.field_wire t)) where
  decode_arm-ne-stuck : (t : ℕ) (payload : List ℕ) → decode_arm d t payload ≢ stuck
  unfolding decode_arm
  decode_arm-ne-stuck t payload = elim (Bool-cases (ltb t d.count)) [
    | inl known ↦ rw known (
        bind-ne-stuck (from_wire (d.field_wire t) payload) _
          (from_wire-ne-stuck (d.field_wire t) (ends t) payload) (λ a e. cc))
    | inr unknown ↦ rw unknown (λ e. cc)
  ]

  pub derive_enum-Ends : Ends (derive_enum d)
  unfolding derive_enum
  derive_enum-Ends sc hc = bind-ne-stuck (u8 sc) _ (u8-ne-stuck sc) λ t.
      bind-ne-stuck (u32 t.1) _ (u32-ne-stuck t.1) λ n.
        bind-ne-stuck (take n.0 hc) _ (take-ne-stuck n.0 hc)
          λ p. bind-ne-stuck (decode_arm d t.0 p.0) _ (decode_arm-ne-stuck t.0 p.0) (λ v e. cc)
