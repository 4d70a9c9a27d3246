-- ===== src/Ids/U48.antt =====
-- crates/wavedb-core/src/u48.rs: the 48-bit newtype, as the number that it holds.
use wavedb.Base.{
  ℕ, ◌-◌, ◌<◌, ◌%◌, ◌^◌, ◌≡◌, refl, sym, ap, ◌∙◌, arith, [], ◌∷◌, ◌++◌, Option, none, some, ltb,
  take as take_list, if◌then◌else◌,
}
use wavedb.Wire.Error.{ok, ◌>>=◌}
use wavedb.Wire.Cursor.{take, to_le_bytes, from_le_bytes}
use wavedb.Wire.Cursor.Laws.{
  advance, advance-zero, take_next, length-to_le_bytes, from_le_bytes-to_le_bytes,
}
use wavedb.Wire.Codec.{WaveWire}
use wavedb.Wire.Codec.Laws.{IsWire}

-- `U48::MASK`, and `U48::MAX`, which has all its bits set.
abbrev pub mask : ℕ
mask = 2 ^ 48 - 1

-- `U48::new`; `none` is `Err(Error::U48Overflow(value))`.
unfoldable pub new : ℕ → Option ℕ
new value = if ltb mask value then none else some value

-- `value & MASK`.
unfoldable pub from_truncated : ℕ → ℕ
from_truncated value = value % 2 ^ 48

-- The low six bytes of the `u64`; a decode fills the two others with zeros.
unfoldable pub u48_wire : WaveWire ℕ
u48_wire = record {
  stack_size = 6;
  heap_size = λ v. 0;
  encode_stack = λ v. take_list 6 (to_le_bytes 8 v);
  encode_heap = λ v. [];
  decode = λ stack heap. do
    (bytes, stack') ← take 6 stack
    ok (from_le_bytes (bytes ++ (0 ∷ 0 ∷ [])), stack', heap);
}

-- `new` takes a value exactly when it has 48 bits, and keeps it.
pub new_cases : (v : ℕ) → new v ≡ (if ltb v (2 ^ 48) then some v else none)
unfolding new
new_cases v = ground arith

pub from_truncated_fits : (v : ℕ) → from_truncated v < 2 ^ 48
unfolding from_truncated
from_truncated_fits v = omega arith

low_bytes : (v : ℕ) → take_list 6 (to_le_bytes 8 v) ≡ to_le_bytes 6 v
unfolding to_le_bytes
low_bytes v = refl

padded : (v : ℕ) → from_le_bytes (to_le_bytes 6 v ++ (0 ∷ 0 ∷ [])) ≡ from_le_bytes (to_le_bytes 6 v)
unfolding to_le_bytes from_le_bytes
padded v = omega arith

-- `U48` keeps the trait's promise in six bytes: a value below 2 ^ 48 reads back.
pub u48_wire-IsWire : IsWire u48_wire (λ v. v < 2 ^ 48)
unfolding u48_wire
u48_wire-IsWire = record {
  length_stack = λ v. rw (low_bytes v) (length-to_le_bytes 6 v);
  length_heap = λ v. refl;
  decode_encode = λ v sc hc s h fits es eh.
      rw
        (take_next 6 sc (to_le_bytes 6 v) s (es ∙ ap (λ t. t ++ s) (low_bytes v))
          (length-to_le_bytes 6 v))
        (rw (padded v, from_le_bytes-to_le_bytes 6 v fits)
          (ap (λ c. ok (v, advance 6 sc, c)) (sym (advance-zero hc))));
}
