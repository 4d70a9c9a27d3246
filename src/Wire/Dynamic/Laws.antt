-- ===== src/Wire/Dynamic/Laws.antt =====
-- `String`, `Vec<T>` and `Option<T>` keep the trait's promise where their elements do.
use wavedb.Base.{
  ℕ, zero, suc, ◌+◌, ◌-◌, ◌%◌, ◌^◌, ◌≤◌, ◌<◌, ◌≡◌, refl, sym, ap, ◌∙◌, arith, List, [], ◌∷◌, ◌++◌,
  length, take as take_list, drop, true, le→ltb, lt→ltb, append_assoc, append-nil, length-append,
  take_front, drop_front, drop-drop, length-drop, All,
}
use wavedb.Wire.Error.{ok}
use wavedb.Wire.Cursor.{new, to_le_bytes}
use wavedb.Wire.Cursor.Laws.{rest-new, advance, take_next, u32_next, length-to_le_bytes}
use wavedb.Wire.Codec.{WaveWire}
use wavedb.Wire.Codec.Laws.{IsWire}
use wavedb.Wire.Dynamic.{string, vec_heap_size, vec_encode_heap, vec_loop, vec}
use wavedb.Wire.Dynamic.Utf8.{is_utf8}

-- The text is UTF-8, and its length is a `u32`.
abbrev pub StringFits : List ℕ → Type 0
StringFits s = (is_utf8 s ≡ true) × (length s < 2 ^ 32)

length_slot : (n : ℕ) → n < 2 ^ 32 → n % 2 ^ 32 ≡ n
length_slot n h = omega arith

-- `String` keeps the trait's promise: a valid UTF-8 string below 2 ^ 32 bytes reads back, leaving
-- the bytes that follow.
pub string-IsWire : IsWire string StringFits
unfolding string
string-IsWire = record {
  length_stack = λ s. length-to_le_bytes 4 (length s % 2 ^ 32);
  length_heap = λ s. refl;
  decode_encode = λ s sc hc st h fits es eh.
      rw
        (u32_next (length s) sc st fits.1
          (es ∙ ap (λ n. to_le_bytes 4 n ++ st) (length_slot (length s) fits.1)))
        (rw (take_next (length s) hc s h eh refl) (rw (fits.0) refl));
}

module _ {ℓ} {A : Type ℓ} {w : WaveWire A} {Fits : A → Type 0} (law : IsWire w Fits) where
  length-vec_encode_heap : (es : List A) → length (vec_encode_heap w es) ≡ vec_heap_size w es
  unfolding vec_encode_heap vec_heap_size
  length-vec_encode_heap [] = refl
  length-vec_encode_heap (e ∷ es) = omega (
    arith,
    length-append (w.encode_stack e) (w.encode_heap e ++ vec_encode_heap w es),
    length-append (w.encode_heap e) (vec_encode_heap w es),
    law.length_stack e,
    law.length_heap e,
    length-vec_encode_heap es,
  )

  -- One round on a region whose unread part begins with the unit of `e`.
  vec_loop_step :
      (fuel : ℕ) (region : List ℕ) (cur : ℕ) (out : List A) (e : A) (tail : List ℕ)
      → 0 < w.stack_size
      → Fits e
      → drop cur region ≡ w.encode_stack e ++ (w.encode_heap e ++ tail)
      → vec_loop w (suc fuel) region cur out
        ≡ vec_loop w fuel region (cur + (w.stack_size + w.heap_size e)) (out ++ (e ∷ []))
  unfolding vec_loop new
  vec_loop_step fuel region cur out e tail pos fits at =
      rw
        (
          lt→ltb cur (length region) (omega (arith, room)),
          le→ltb (length region) (cur + w.stack_size) (omega (arith, room)),
        )
        (rw (drop-drop cur w.stack_size region) (
          rw at (
            rw (front, behind)
              (rw decoded (ap (λ n. vec_loop w fuel region n (out ++ (e ∷ []))) (omega arith))))))
    where
      unread : List ℕ
      unread = w.encode_heap e ++ tail

      room : w.stack_size ≤ length region - cur
      room = omega (
        arith,
        ap length at,
        length-drop cur region,
        length-append (w.encode_stack e) unread,
        law.length_stack e,
      )

      front : take_list w.stack_size (w.encode_stack e ++ unread) ≡ w.encode_stack e
      front = take_front _ (w.encode_stack e) unread (law.length_stack e)

      behind : drop w.stack_size (w.encode_stack e ++ unread) ≡ unread
      behind = drop_front _ (w.encode_stack e) unread (law.length_stack e)

      decoded :
          w.decode (new (w.encode_stack e)) (new unread)
          ≡ ok (
            e,
            advance w.stack_size (new (w.encode_stack e)),
            advance (w.heap_size e) (new unread),
          )
      decoded =
          law.decode_encode e _ _ [] tail fits
            (rest-new (w.encode_stack e) ∙ sym (append-nil (w.encode_stack e))) (rest-new unread)

  unit_room :
      (e : A) (es : List A) (region : List ℕ) (cur : ℕ)
      → drop cur region ≡ vec_encode_heap w (e ∷ es)
      → w.stack_size ≤ length region - cur
  unfolding vec_encode_heap
  unit_room e es region cur at = omega (
    arith,
    ap length at,
    length-drop cur region,
    length-append (w.encode_stack e) (w.encode_heap e ++ vec_encode_heap w es),
    law.length_stack e,
  )

  next_unit :
      (e : A) (es : List A) (region : List ℕ) (cur : ℕ)
      → drop cur region ≡ vec_encode_heap w (e ∷ es)
      → drop (cur + (w.stack_size + w.heap_size e)) region ≡ vec_encode_heap w es
  unfolding vec_encode_heap
  next_unit e es region cur at =
      drop-drop cur (w.stack_size + w.heap_size e) region
      ∙ rw at (
          drop-drop w.stack_size (w.heap_size e) _
          ∙ rw
              (drop_front _ (w.encode_stack e) (w.encode_heap e ++ vec_encode_heap w es)
                (law.length_stack e))
              (drop_front _ (w.encode_heap e) (vec_encode_heap w es) (law.length_heap e)))

  end_reached :
      (region : List ℕ) (cur : ℕ) → drop cur region ≡ vec_encode_heap w [] → length region ≤ cur
  unfolding vec_encode_heap
  end_reached region cur at = omega (arith, ap length at, length-drop cur region)

  vec_loop_end :
      (fuel : ℕ) (region : List ℕ) (cur : ℕ) (out : List A)
      → length region ≤ cur
      → vec_loop w fuel region cur out ≡ ok out
  unfolding vec_loop
  vec_loop_end zero region cur out h = rw (le→ltb cur (length region) h)
  vec_loop_end (suc fuel) region cur out h = rw (le→ltb cur (length region) h)

  -- The loop reads back the units that stand behind `cur`, up to the end of the region.
  vec_loop-vec_encode_heap :
      (es : List A) (fuel : ℕ) (region : List ℕ) (cur : ℕ) (out : List A)
      → 0 < w.stack_size
      → All Fits es
      → length region ≤ cur + fuel
      → drop cur region ≡ vec_encode_heap w es
      → vec_loop w fuel region cur out ≡ ok (out ++ es)
  unfolding vec_encode_heap
  vec_loop-vec_encode_heap [] fuel region cur out pos fits enough at =
      vec_loop_end fuel region cur out (end_reached region cur at) ∙ ap ok (sym (append-nil out))
  vec_loop-vec_encode_heap (e ∷ es) zero region cur out pos fits enough at =
      absurd (omega (arith, unit_room e es region cur at))
  vec_loop-vec_encode_heap (e ∷ es) (suc fuel) region cur out pos (fe, fes) enough at =
      vec_loop_step fuel region cur out e (vec_encode_heap w es) pos fe at
      ∙ vec_loop-vec_encode_heap es fuel region (cur + (w.stack_size + w.heap_size e))
          (out ++ (e ∷ [])) pos fes (omega arith) (next_unit e es region cur at)
      ∙ ap ok (append_assoc out (e ∷ []) es)

  -- `Vec<T>` keeps the trait's promise where `T` does and its stack is not empty: sizes are as
  -- computed, and a vector whose elements fit and whose heap is below 2 ^ 32 bytes reads back,
  -- leaving the bytes that follow.
  pub vec-IsWire :
      0 < w.stack_size → IsWire (vec w) (λ es. All Fits es × (vec_heap_size w es < 2 ^ 32))
  unfolding vec
  vec-IsWire pos = record {
    length_stack = λ es. length-to_le_bytes 4 (vec_heap_size w es % 2 ^ 32);
    length_heap = length-vec_encode_heap;
    decode_encode = λ es sc hc st h fits se he.
        rw
          (u32_next (vec_heap_size w es) sc st fits.1
            (se ∙ ap (λ n. to_le_bytes 4 n ++ st) (length_slot (vec_heap_size w es) fits.1)))
          (rw
            (take_next (vec_heap_size w es) hc (vec_encode_heap w es) h he
              (length-vec_encode_heap es))
            (rw (
              vec_loop-vec_encode_heap es (length (vec_encode_heap w es)) (vec_encode_heap w es) 0
                [] pos fits.0 (omega arith) refl)));
  }
