-- ===== src/Wire/Dynamic/Options.antt =====
-- `Option<T>` keeps the trait's promise where `T` does.
use wavedb.Base.{
  ℕ, ◌≡◌, refl, sym, ap, ◌∙◌, arith, List, [], ◌∷◌, ◌++◌, length, Option, none, some, append_assoc,
  append-nil, length-append,
}
use wavedb.Wire.Error.{ok}
use wavedb.Wire.Cursor.{Cursor, new}
use wavedb.Wire.Cursor.Laws.{
  rest, rest-new, advance, advance-zero, advance-advance, take_next, rest_next, u8_next,
}
use wavedb.Wire.Codec.{WaveWire}
use wavedb.Wire.Codec.Laws.{IsWire}
use wavedb.Wire.Dynamic.{option, option_flag, option_heap_size, option_encode_heap}

module _ {ℓ} {A : Type ℓ} {w : WaveWire A} {Fits : A → Type 0} (law : IsWire w Fits) where
  abbrev pub OptionFits : Option A → Type 0
  OptionFits none = Unit
  OptionFits (some v) = Fits v

  -- `Option<T>` keeps the trait's promise where `T` does.
  pub option-IsWire : IsWire (option w) OptionFits
  unfolding option
  option-IsWire = record { length_stack = λ v. refl; length_heap = lengths; decode_encode = reads }
    where
      lengths : (v : Option A) → length (option_encode_heap w v) ≡ option_heap_size w v
      lengths none = refl
      lengths (some v) = omega (
        arith,
        length-append (w.encode_stack v) (w.encode_heap v),
        law.length_stack v,
        law.length_heap v,
      )

      reads :
          (v : Option A) (sc hc : Cursor) (s h : List ℕ)
          → OptionFits v
          → rest sc ≡ option_flag w v ∷ s
          → rest hc ≡ option_encode_heap w v ++ h
          → (option w).decode sc hc ≡ ok (v, advance 1 sc, advance (option_heap_size w v) hc)
      reads none sc hc s h fits es eh =
          rw (u8_next 0 sc s es) (ap (λ c. ok (none, advance 1 sc, c)) (sym (advance-zero hc)))
      reads (some v) sc hc s h fits es eh = rw (u8_next 1 sc s es) (
          rw
            (take_next w.stack_size hc (w.encode_stack v) (w.encode_heap v ++ h) whole
              (law.length_stack v))
            (rw (decoded) (
              ap (λ c. ok (some v, advance 1 sc, c))
                (advance-advance w.stack_size (w.heap_size v) hc))))
        where
          whole : rest hc ≡ w.encode_stack v ++ (w.encode_heap v ++ h)
          whole = eh ∙ append_assoc (w.encode_stack v) (w.encode_heap v) h

          decoded :
              w.decode (new (w.encode_stack v)) (advance w.stack_size hc)
              ≡ ok (
                v,
                advance w.stack_size (new (w.encode_stack v)),
                advance (w.heap_size v) (advance w.stack_size hc),
              )
          decoded =
              law.decode_encode v _ _ [] h fits
                (rest-new (w.encode_stack v) ∙ sym (append-nil (w.encode_stack v)))
                (rest_next w.stack_size hc (w.encode_stack v) (w.encode_heap v ++ h) whole
                  (law.length_stack v))
