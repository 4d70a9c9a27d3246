-- ===== src/Wire/Codec.antt =====
-- crates/wavedb-wire/src/lib.rs: the trait `WaveWire` and the entry points over it.
-- A method that appends to a buffer gives the bytes that it appends.
pub mod Laws
pub mod RoundTrip
use wavedb.Base.{ℕ, ◌+◌, List, ◌++◌, length, take as take_list, drop, ltb, ◌==◌, if◌then◌else◌}
use wavedb.Wire.Error.{Result, ok, err, stuck, unexpected_eof, crc_mismatch, ◌>>=◌}
use wavedb.Wire.Cursor.{Cursor, new, to_le_bytes, from_le_bytes}

-- `trait WaveWire`. `decode` moves both cursors on.
pub record WaveWire {ℓ} (A : Type ℓ) : Type ℓ where
  pub stack_size : ℕ
  pub heap_size : A → ℕ
  pub encode_stack : A → List ℕ
  pub encode_heap : A → List ℕ
  pub decode : Cursor → Cursor → Result (A × Cursor × Cursor)

-- The value that a decode ends with.
abbrev pub value {ℓ} : {A : Type ℓ} → Result (A × Cursor × Cursor) → Result A
value (ok (a, sc, hc)) = ok a
value (err e) = err e
value stuck = stuck

module _ {ℓ} {A : Type ℓ} (w : WaveWire A) where
  unfoldable pub to_wire : A → List ℕ
  to_wire v = w.encode_stack v ++ w.encode_heap v

  -- `bytes.split_at(T::STACK_SIZE)`.
  unfoldable pub from_wire : List ℕ → Result A
  from_wire bytes =
      if ltb (length bytes) w.stack_size
      then err unexpected_eof
      else value (w.decode (new (take_list w.stack_size bytes)) (new (drop w.stack_size bytes)))

unfoldable pub to_wire_pair {ℓ κ} :
    {A : Type ℓ} {B : Type κ} → WaveWire A → WaveWire B → A → B → List ℕ
to_wire_pair wa wb a b =
    wa.encode_stack a ++ (wb.encode_stack b ++ (wa.encode_heap a ++ wb.encode_heap b))

abbrev pub crc_prefix_len : ℕ
crc_prefix_len = 4

-- `crc32fast::hash` is a crate that the repository only calls.
module _ {ℓ} {A : Type ℓ} (crc : List ℕ → ℕ) (w : WaveWire A) where
  unfoldable pub to_wire_checked : A → List ℕ
  unfolding to_wire
  to_wire_checked v = to_le_bytes crc_prefix_len (crc (to_wire w v)) ++ to_wire w v

  unfoldable pub from_wire_checked : List ℕ → Result A
  unfolding from_wire
  from_wire_checked bytes =
      let stored = from_le_bytes (take_list crc_prefix_len bytes) in
      let computed = crc (drop crc_prefix_len bytes) in
      if ltb (length bytes) crc_prefix_len
      then err unexpected_eof
      else if stored == computed
      then from_wire w (drop crc_prefix_len bytes)
      else err (crc_mismatch stored computed)
