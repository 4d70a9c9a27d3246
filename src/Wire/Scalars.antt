-- ===== src/Wire/Scalars.antt =====
-- crates/wavedb-wire/src/impls.rs: numbers of fixed width, `bool`, `char` and `()`.
pub mod Laws
use wavedb.Base.{
  ℕ, zero, suc, ◌<◌, List, [], ◌∷◌, Bool, true, false, ltb, ◌&&◌, ◌||◌, if◌then◌else◌, ◌≡◌, ◌^◌,
}
use wavedb.Wire.Error.{Result, ok, err, invalid_bool, invalid_char, ◌>>=◌}
use wavedb.Wire.Cursor.{Cursor, take, u8, u32, to_le_bytes, from_le_bytes}
use wavedb.Wire.Codec.{WaveWire}

-- `wire_le!` at a type of `n` bytes. A signed number or a float is its bit pattern.
unfoldable pub uint : ℕ → WaveWire ℕ
uint n = record {
  stack_size = n;
  heap_size = λ v. 0;
  encode_stack = λ v. to_le_bytes n v;
  encode_heap = λ v. [];
  decode = λ stack heap. do
    (bytes, stack') ← take n stack
    ok (from_le_bytes bytes, stack', heap);
}

-- `u8::from(b)`.
abbrev pub bool_byte : Bool → ℕ
bool_byte true = 1
bool_byte false = 0

abbrev pub bool_of_byte : ℕ → Result Bool
bool_of_byte zero = ok false
bool_of_byte (suc zero) = ok true
bool_of_byte (suc (suc n)) = err (invalid_bool (suc (suc n)))

unfoldable pub bool : WaveWire Bool
bool = record {
  stack_size = 1;
  heap_size = λ b. 0;
  encode_stack = λ b. bool_byte b ∷ [];
  encode_heap = λ b. [];
  decode = λ stack heap. do
    (byte, stack') ← u8 stack
    b ← bool_of_byte byte
    ok (b, stack', heap);
}

-- `char::from_u32(x).is_some()`: a code point that is no surrogate.
unfoldable pub is_scalar : ℕ → Bool
is_scalar x = ltb x 0xd800 || (ltb 0xdfff x && ltb x 0x110000)

unfoldable pub char : WaveWire ℕ
unfolding is_scalar
char = record {
  stack_size = 4;
  heap_size = λ c. 0;
  encode_stack = λ c. to_le_bytes 4 c;
  encode_heap = λ c. [];
  decode = λ stack heap. do
    (scalar, stack') ← u32 stack
    if is_scalar scalar then ok (scalar, stack', heap) else err (invalid_char scalar);
}

unfoldable pub unit : WaveWire (Unit {0})
unit = record {
  stack_size = 0;
  heap_size = λ v. 0;
  encode_stack = λ v. [];
  encode_heap = λ v. [];
  decode = λ stack heap. ok (tt, stack, heap);
}
