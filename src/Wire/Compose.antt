-- ===== src/Wire/Compose.antt =====
-- crates/wavedb-wire/src/impls.rs: arrays and tuples, which compose flattened.
-- A longer tuple nests to the right: the bytes are the same, all stacks and then all heaps.
pub mod Laws
pub mod Arrays
use wavedb.Base.{ℕ, zero, suc, ◌+◌, ◌*◌, List, [], ◌∷◌, ◌++◌}
use wavedb.Wire.Error.{Result, ok, ◌>>=◌}
use wavedb.Wire.Cursor.{Cursor}
use wavedb.Wire.Codec.{WaveWire}

module _ {ℓ κ} {A : Type ℓ} {B : Type κ} (wa : WaveWire A) (wb : WaveWire B) where
  unfoldable pub pair : WaveWire (A × B)
  pair = record {
    stack_size = wa.stack_size + wb.stack_size;
    heap_size = λ v. wa.heap_size v.0 + wb.heap_size v.1;
    encode_stack = λ v. wa.encode_stack v.0 ++ wb.encode_stack v.1;
    encode_heap = λ v. wa.encode_heap v.0 ++ wb.encode_heap v.1;
    decode = λ stack heap. do
      (a, stack', heap') ← wa.decode stack heap
      (b, stack'', heap'') ← wb.decode stack' heap'
      ok ((a, b), stack'', heap'');
  }

module _ {ℓ} {A : Type ℓ} (w : WaveWire A) where
  unfoldable pub array_heap_size : List A → ℕ
  array_heap_size [] = 0
  array_heap_size (e ∷ es) = w.heap_size e + array_heap_size es

  unfoldable pub array_encode_stack : List A → List ℕ
  array_encode_stack [] = []
  array_encode_stack (e ∷ es) = w.encode_stack e ++ array_encode_stack es

  unfoldable pub array_encode_heap : List A → List ℕ
  array_encode_heap [] = []
  array_encode_heap (e ∷ es) = w.encode_heap e ++ array_encode_heap es

  -- `for _ in 0..N { v.push(T::decode(stack, heap)?) }`.
  unfoldable pub array_loop : ℕ → List A → Cursor → Cursor → Result (List A × Cursor × Cursor)
  array_loop zero out stack heap = ok (out, stack, heap)
  array_loop (suc n) out stack heap = do
    (e, stack', heap') ← w.decode stack heap
    array_loop n (out ++ (e ∷ [])) stack' heap'

  -- `[T; N]`, as the list of its `n` elements.
  unfoldable pub array : ℕ → WaveWire (List A)
  unfolding array_heap_size array_encode_stack array_encode_heap array_loop
  array n = record {
    stack_size = n * w.stack_size;
    heap_size = array_heap_size;
    encode_stack = array_encode_stack;
    encode_heap = array_encode_heap;
    decode = λ stack heap. array_loop n [] stack heap;
  }
