-- ===== src/Wire/Cursor.antt =====
-- crates/wavedb-wire/src/lib.rs: `Cursor`, the forward-only reader over a borrowed buffer.
-- A byte is a number and a slice is a list of them.
pub mod Laws
use wavedb.Base.{
  ℕ, zero, suc, ◌+◌, ◌-◌, ◌*◌, ◌/◌, ◌%◌, List, [], ◌∷◌, length, drop, take as take_list, ltb,
}
use wavedb.Base.{if◌then◌else◌}
use wavedb.Wire.Error.{Result, ok, err, unexpected_eof, ◌>>=◌}

pub record Cursor : Type 0 where
  pub buf : List ℕ
  pub pos : ℕ

unfoldable pub new : List ℕ → Cursor
new buf = record { buf = buf; pos = 0 }

unfoldable pub remaining : Cursor → ℕ
remaining c = length c.buf - c.pos

-- `self.buf[self.pos..self.pos + n]`, and `self.pos += n`.
unfoldable pub take : ℕ → Cursor → Result (List ℕ × Cursor)
unfolding remaining
take n c =
    if ltb (remaining c) n
    then err unexpected_eof
    else ok (take_list n (drop c.pos c.buf), record c { pos = c.pos + n })

-- `u32::from_le_bytes` and its like, on a slice of any length.
unfoldable pub from_le_bytes : List ℕ → ℕ
from_le_bytes [] = 0
from_le_bytes (b ∷ bs) = b + 256 * from_le_bytes bs

-- `v.to_le_bytes()` of a value of `n` bytes.
unfoldable pub to_le_bytes : ℕ → ℕ → List ℕ
to_le_bytes zero v = []
to_le_bytes (suc n) v = (v % 256) ∷ to_le_bytes n (v / 256)

unfoldable pub u8 : Cursor → Result (ℕ × Cursor)
unfolding take from_le_bytes
u8 c = do (bytes, c') ← take 1 c; ok (from_le_bytes bytes, c')

unfoldable pub u32 : Cursor → Result (ℕ × Cursor)
unfolding take from_le_bytes
u32 c = do (bytes, c') ← take 4 c; ok (from_le_bytes bytes, c')
