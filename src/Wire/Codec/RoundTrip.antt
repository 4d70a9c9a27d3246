-- ===== src/Wire/Codec/RoundTrip.antt =====
-- `from_wire` after `to_wire`, plain and with the crc prefix, for every lawful implementation.
use wavedb.Base.{ℕ, ◌+◌, ◌≤◌, ◌<◌, ◌^◌, ◌≡◌, refl, sym, ap, ◌∙◌, arith}
use wavedb.Base.{List, [], ◌++◌, length, le→ltb, ==_iff, append_assoc}
use wavedb.Base.{length-append, take_front, drop_front}
use wavedb.Wire.Error.{ok}
use wavedb.Wire.Cursor.{new, to_le_bytes}
use wavedb.Wire.Cursor.Laws.{rest-new, advance, length-to_le_bytes, from_le_bytes-to_le_bytes}
use wavedb.Wire.Codec.{WaveWire, value, to_wire, from_wire, to_wire_checked, from_wire_checked}
use wavedb.Wire.Codec.Laws.{IsWire}
use mathlib.Core.List.{append-nil}

module _ {ℓ} {A : Type ℓ} {w : WaveWire A} {Fits : A → Type 0} (law : IsWire w Fits) where
  -- Where an implementation keeps the trait's promise, a value that fits reads back from its
  -- encoding, whatever bytes follow.
  pub from_wire-to_wire :
      (v : A) (extra : List ℕ) → Fits v → from_wire w (to_wire w v ++ extra) ≡ ok v
  unfolding to_wire from_wire
  from_wire-to_wire v extra fits = rw (append_assoc) (
      rw (take_front _ (w.encode_stack v) (w.encode_heap v ++ extra) (law.length_stack v)) (
        rw (drop_front _ (w.encode_stack v) (w.encode_heap v ++ extra) (law.length_stack v))
          (rw (le→ltb _ _ room) (ap value decoded))))
    where
      room : w.stack_size ≤ length (w.encode_stack v ++ (w.encode_heap v ++ extra))
      room =
          omega
            (arith, length-append (w.encode_stack v) (w.encode_heap v ++ extra), law.length_stack v)

      decoded :
          w.decode (new (w.encode_stack v)) (new (w.encode_heap v ++ extra))
          ≡ ok (
            v,
            advance w.stack_size (new (w.encode_stack v)),
            advance (w.heap_size v) (new (w.encode_heap v ++ extra)),
          )
      decoded =
          law.decode_encode v _ _ [] extra fits
            (rest-new (w.encode_stack v) ∙ sym (append-nil (w.encode_stack v)))
            (rest-new (w.encode_heap v ++ extra))

  -- The encoding has the length that is computed before it is written.
  pub length-to_wire : (v : A) → length (to_wire w v) ≡ w.stack_size + w.heap_size v
  unfolding to_wire
  length-to_wire v = omega (
    arith,
    length-append (w.encode_stack v) (w.encode_heap v),
    law.length_stack v,
    law.length_heap v,
  )

  module _ (crc : List ℕ → ℕ) (is_u32 : (bytes : List ℕ) → crc bytes < 2 ^ 32) where
    -- Where an implementation keeps the trait's promise and the checksum has 32 bits, a value that
    -- fits reads back from its checked encoding.
    pub from_wire_checked-to_wire_checked :
        (v : A) → Fits v → from_wire_checked crc w (to_wire_checked crc w v) ≡ ok v
    unfolding to_wire_checked from_wire_checked
    from_wire_checked-to_wire_checked v fits =
        rw (take_front _ prefix bytes (length-to_le_bytes 4 (crc bytes))) (
          rw (drop_front _ prefix bytes (length-to_le_bytes 4 (crc bytes))) (
            rw (from_le_bytes-to_le_bytes 4 (crc bytes) (is_u32 bytes))
              (rw (le→ltb _ _ room, (==_iff _ (crc bytes)).1 refl) decoded)))
      where
        bytes : List ℕ
        bytes = to_wire w v

        prefix : List ℕ
        prefix = to_le_bytes 4 (crc bytes)

        room : 4 ≤ length (prefix ++ bytes)
        room = omega (arith, length-append prefix bytes, length-to_le_bytes 4 (crc bytes))

        decoded : from_wire w bytes ≡ ok v
        decoded = rw append-nil at (from_wire-to_wire v [] fits)
