-- ===== src/Wire/Dynamic.antt =====
-- crates/wavedb-wire/src/impls.rs: `String`, `Vec<T>` and `Option<T>`, whose payload is in the heap.
pub mod Utf8
pub mod Laws
pub mod Options
pub mod Ending
use wavedb.Base.{
  ℕ, zero, suc, ◌+◌, ◌%◌, ◌^◌, List, [], ◌∷◌, ◌++◌, length, take as take_list, drop, Option, none,
  some, ltb, leb, if◌then◌else◌,
}
use wavedb.Wire.Error.{Result, ok, err, stuck, unexpected_eof, utf8, ◌>>=◌}
use wavedb.Wire.Cursor.{Cursor, new, take, u8, u32, to_le_bytes}
use wavedb.Wire.Codec.{WaveWire}
use wavedb.Wire.Dynamic.Utf8.{is_utf8}

-- A `String` is its bytes. `len as u32` keeps the low 32 bits of the length.
unfoldable pub string : WaveWire (List ℕ)
string = record {
  stack_size = 4;
  heap_size = λ s. length s;
  encode_stack = λ s. to_le_bytes 4 (length s % 2 ^ 32);
  encode_heap = λ s. s;
  decode = λ stack heap. do
    (len, stack') ← u32 stack
    (bytes, heap') ← take len heap
    if is_utf8 bytes then ok (bytes, stack', heap') else err utf8;
}

module _ {ℓ} {A : Type ℓ} (w : WaveWire A) where
  unfoldable pub vec_heap_size : List A → ℕ
  vec_heap_size [] = 0
  vec_heap_size (e ∷ es) = w.stack_size + w.heap_size e + vec_heap_size es

  unfoldable pub vec_encode_heap : List A → List ℕ
  vec_encode_heap [] = []
  vec_encode_heap (e ∷ es) = w.encode_stack e ++ (w.encode_heap e ++ vec_encode_heap es)

  -- `while cur < region.len()`. The fuel counts rounds.
  unfoldable pub vec_loop : ℕ → List ℕ → ℕ → List A → Result (List A)
  vec_loop zero region cur out = if ltb cur (length region) then stuck else ok out
  vec_loop (suc fuel) region cur out =
      let step = do
        (e, es, eh) ←
            w.decode (new (take_list w.stack_size (drop cur region)))
              (new (drop (cur + w.stack_size) region))
        vec_loop fuel region (cur + (w.stack_size + eh.pos)) (out ++ (e ∷ []))
      in if ltb cur (length region)
        then (if ltb (length region) (cur + w.stack_size) then err unexpected_eof else step)
        else ok out

  -- A round takes a byte at least where elements have a stack section, so `length region` rounds
  -- are enough.
  unfoldable pub vec : WaveWire (List A)
  unfolding vec_heap_size vec_encode_heap vec_loop
  vec = record {
    stack_size = 4;
    heap_size = vec_heap_size;
    encode_stack = λ v. to_le_bytes 4 (vec_heap_size v % 2 ^ 32);
    encode_heap = vec_encode_heap;
    decode = λ stack heap. do
      (region_len, stack') ← u32 stack
      (region, heap') ← take region_len heap
      out ← vec_loop (length region) region 0 []
      ok (out, stack', heap');
  }

  abbrev pub option_heap_size : Option A → ℕ
  option_heap_size none = 0
  option_heap_size (some v) = w.stack_size + w.heap_size v

  abbrev pub option_flag : Option A → ℕ
  option_flag none = 0
  option_flag (some v) = 1

  abbrev pub option_encode_heap : Option A → List ℕ
  option_encode_heap none = []
  option_encode_heap (some v) = w.encode_stack v ++ w.encode_heap v

  -- The flag byte is compared with 0 alone: any other byte reads as `Some`.
  abbrev pub option_payload : ℕ → Cursor → Cursor → Result (Option A × Cursor × Cursor)
  option_payload zero stack heap = ok (none, stack, heap)
  option_payload (suc n) stack heap = do
    (t_stack, heap') ← take w.stack_size heap
    (v, ts, heap'') ← w.decode (new t_stack) heap'
    ok (some v, stack, heap'')

  unfoldable pub option : WaveWire (Option A)
  option = record {
    stack_size = 1;
    heap_size = option_heap_size;
    encode_stack = λ v. option_flag v ∷ [];
    encode_heap = option_encode_heap;
    decode = λ stack heap. do
      (flag, stack') ← u8 stack
      option_payload flag stack' heap;
  }
