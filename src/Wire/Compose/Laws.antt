-- ===== src/Wire/Compose/Laws.antt =====
-- A pair keeps the trait's promise where its members do.
use wavedb.Base.{◌≡◌, ◌++◌, sym, ◌∙◌, arith, append_assoc, length-append}
use wavedb.Wire.Error.{ok, bind-ne-stuck}
use wavedb.Wire.Cursor.Laws.{advance, advance-advance, rest_next}
use wavedb.Wire.Codec.{WaveWire, to_wire, to_wire_pair}
use wavedb.Wire.Codec.Laws.{IsWire, Ends}
use wavedb.Wire.Compose.{pair}

module _ {ℓ κ} {A : Type ℓ} {B : Type κ} {wa : WaveWire A} {wb : WaveWire B} {FitsA : A → Type 0}
    {FitsB : B → Type 0} (la : IsWire wa FitsA) (lb : IsWire wb FitsB) where
  -- A pair keeps the trait's promise where its two parts do.
  pub pair-IsWire : IsWire (pair wa wb) (λ v. FitsA v.0 × FitsB v.1)
  unfolding pair
  pair-IsWire = record {
    length_stack = λ v. omega (
      arith,
      length-append (wa.encode_stack v.0) (wb.encode_stack v.1),
      la.length_stack v.0,
      lb.length_stack v.1,
    );
    length_heap = λ v. omega (
      arith,
      length-append (wa.encode_heap v.0) (wb.encode_heap v.1),
      la.length_heap v.0,
      lb.length_heap v.1,
    );
    decode_encode = λ v sc hc s h fits es eh.
        let es' = es ∙ append_assoc (wa.encode_stack v.0) (wb.encode_stack v.1) s in
        let eh' = eh ∙ append_assoc (wa.encode_heap v.0) (wb.encode_heap v.1) h in
        rw
          (la.decode_encode v.0 sc hc (wb.encode_stack v.1 ++ s) (wb.encode_heap v.1 ++ h) fits.0
            es' eh')
          (rw
            (lb.decode_encode v.1 (advance wa.stack_size sc) (advance (wa.heap_size v.0) hc) s h
              fits.1 (rest_next _ sc (wa.encode_stack v.0) _ es' (la.length_stack v.0))
              (rest_next _ hc (wa.encode_heap v.0) _ eh' (la.length_heap v.0)))
            (λ i. ok (
              v,
              advance-advance wa.stack_size wb.stack_size sc i,
              advance-advance (wa.heap_size v.0) (wb.heap_size v.1) hc i,
            )));
  }

module _ {ℓ κ} {A : Type ℓ} {B : Type κ} (wa : WaveWire A) (wb : WaveWire B) where
  -- `to_wire_pair` of two values writes the bytes that `to_wire` writes for their pair.
  pub to_wire_pair-to_wire : (a : A) (b : B) → to_wire_pair wa wb a b ≡ to_wire (pair wa wb) (a, b)
  unfolding to_wire_pair to_wire pair
  to_wire_pair-to_wire a b =
      sym (
        append_assoc (wa.encode_stack a) (wb.encode_stack b) (wa.encode_heap a ++ wb.encode_heap b))

  pub pair-Ends : Ends wa → Ends wb → Ends (pair wa wb)
  unfolding pair
  pair-Ends ea eb sc hc =
      bind-ne-stuck (wa.decode sc hc) _ (ea sc hc)
        λ t. bind-ne-stuck (wb.decode t.1 t.2) _ (eb t.1 t.2) λ u e. cc
