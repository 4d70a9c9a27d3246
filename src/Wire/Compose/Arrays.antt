-- ===== src/Wire/Compose/Arrays.antt =====
-- An array keeps the trait's promise where its elements do.
use wavedb.Base.{
  ℕ, suc, ◌+◌, ◌*◌, ◌≡◌, refl, sym, ap, ◌∙◌, arith, List, [], ◌∷◌, ◌++◌, length, length-append,
  append_assoc, append-nil, All, take_front, drop_front, le→ltb, ◌≤◌,
}
use wavedb.Wire.Error.{ok}
use wavedb.Wire.Cursor.{Cursor}
use wavedb.Wire.Cursor.Laws.{rest, advance, advance-advance, advance-zero, rest_next, rest-new}
use wavedb.Wire.Codec.{WaveWire, to_wire, from_wire}
use wavedb.Wire.Codec.Laws.{IsWire}
use wavedb.Wire.Compose.{array, array_loop, array_heap_size, array_encode_stack, array_encode_heap}

module _ {ℓ} {A : Type ℓ} {w : WaveWire A} {Fits : A → Type 0} (law : IsWire w Fits) where
  length-array_encode_stack :
      (es : List A) → length (array_encode_stack w es) ≡ length es * w.stack_size
  unfolding array_encode_stack
  length-array_encode_stack [] = omega arith
  length-array_encode_stack (e ∷ es) = omega (
    arith,
    length-append (w.encode_stack e) (array_encode_stack w es),
    law.length_stack e,
    length-array_encode_stack es,
  )

  length-array_encode_heap : (es : List A) → length (array_encode_heap w es) ≡ array_heap_size w es
  unfolding array_encode_heap array_heap_size
  length-array_encode_heap [] = refl
  length-array_encode_heap (e ∷ es) = omega (
    arith,
    length-append (w.encode_heap e) (array_encode_heap w es),
    law.length_heap e,
    length-array_encode_heap es,
  )

  array_loop_reads :
      (es out : List A) (sc hc : Cursor) (s h : List ℕ)
      → All Fits es
      → rest sc ≡ array_encode_stack w es ++ s
      → rest hc ≡ array_encode_heap w es ++ h
      → array_loop w (length es) out sc hc
        ≡ ok (out ++ es, advance (length es * w.stack_size) sc, advance (array_heap_size w es) hc)
  unfolding array_loop array_encode_stack array_encode_heap array_heap_size
  array_loop_reads [] out sc hc s h fits es eh = λ i. ok (
    sym (append-nil out) i,
    (sym (advance-zero sc) ∙ ap (λ n. advance n sc) no_units) i,
    sym (advance-zero hc) i,
  )
    where
      no_units : 0 ≡ 0 * w.stack_size
      no_units = omega arith
  array_loop_reads (e ∷ es) out sc hc s h fits se he =
      rw
        (law.decode_encode e sc hc (array_encode_stack w es ++ s) (array_encode_heap w es ++ h)
          fits.0 se' he')
        (array_loop_reads es (out ++ (e ∷ [])) (advance w.stack_size sc)
            (advance (w.heap_size e) hc) s h fits.1
            (rest_next _ sc (w.encode_stack e) _ se' (law.length_stack e))
            (rest_next _ hc (w.encode_heap e) _ he' (law.length_heap e))
          ∙ λ i. ok (
            append_assoc out (e ∷ []) es i,
            (advance-advance w.stack_size (length es * w.stack_size) sc
                  ∙ ap (λ n. advance n sc) units)
                i,
            advance-advance (w.heap_size e) (array_heap_size w es) hc i,
          ))
    where
      units : w.stack_size + length es * w.stack_size ≡ suc (length es) * w.stack_size
      units = omega arith

      se' : rest sc ≡ w.encode_stack e ++ (array_encode_stack w es ++ s)
      se' = se ∙ append_assoc (w.encode_stack e) (array_encode_stack w es) s

      he' : rest hc ≡ w.encode_heap e ++ (array_encode_heap w es ++ h)
      he' = he ∙ append_assoc (w.encode_heap e) (array_encode_heap w es) h

  -- An array whose elements fit reads back from its encoding, whatever bytes follow, where the
  -- elements' type keeps the trait's promise.
  pub from_wire-to_wire-array :
      (es : List A) (extra : List ℕ)
      → All Fits es
      → from_wire (array w (length es)) (to_wire (array w (length es)) es ++ extra) ≡ ok es
  unfolding from_wire to_wire array
  from_wire-to_wire-array es extra fits = rw (append_assoc) (
      rw
        (take_front _ (array_encode_stack w es) (array_encode_heap w es ++ extra)
          (length-array_encode_stack es))
        (rw
          (drop_front _ (array_encode_stack w es) (array_encode_heap w es ++ extra)
            (length-array_encode_stack es))
          (rw (le→ltb _ _ room) (
            rw (
              array_loop_reads es [] _ _ [] extra fits
                (rest-new (array_encode_stack w es) ∙ sym (append-nil (array_encode_stack w es)))
                (rest-new (array_encode_heap w es ++ extra)))))))
    where
      room :
          length es * w.stack_size
          ≤ length (array_encode_stack w es ++ (array_encode_heap w es ++ extra))
      room = omega (
        arith,
        length-append (array_encode_stack w es) (array_encode_heap w es ++ extra),
        length-array_encode_stack es,
      )
