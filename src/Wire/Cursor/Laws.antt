-- ===== src/Wire/Cursor/Laws.antt =====
-- What a read of a cursor gives when the unread bytes are known to begin with given ones.
use wavedb.Base.{ℕ, zero, suc, ◌+◌, ◌-◌, ◌/◌, ◌^◌, ◌≤◌, ◌<◌, ◌≡◌, refl, ap, ◌∙◌, arith}
use wavedb.Base.{List, [], ◌∷◌, ◌++◌, length, drop, length-append, length-drop}
use wavedb.Base.{drop-drop, drop-append, take-append, le→ltb, lt→ltb, subst}
use native.Mathlib.Nat.{add_assoc, add-zero}
use wavedb.Wire.Error.{ok, err, unexpected_eof}
use wavedb.Wire.Cursor.{Cursor, new, remaining, take, from_le_bytes, to_le_bytes, u8, u32}

-- The bytes not read yet.
unfoldable pub rest : Cursor → List ℕ
rest c = drop c.pos c.buf

-- The cursor `n` bytes on.
abbrev pub advance : ℕ → Cursor → Cursor
advance n c = record c { pos = c.pos + n }

pub rest-advance : (n : ℕ) (c : Cursor) → rest (advance n c) ≡ drop n (rest c)
unfolding rest
rest-advance n c = drop-drop c.pos n c.buf

pub rest-new : (xs : List ℕ) → rest (new xs) ≡ xs
unfolding rest new
rest-new xs = refl

pub take_lem :
    (c : Cursor) (xs ys : List ℕ)
    → rest c ≡ xs ++ ys
    → take (length xs) c ≡ ok (xs, advance (length xs) c)
unfolding take rest
take_lem c xs ys h =
    rw (le→ltb _ _ room) (rw h (ap (λ t. ok (t, advance (length xs) c)) (take-append xs ys)))
  where
    room : length xs ≤ length c.buf - c.pos
    room = omega (arith, ap length h, length-append xs ys, length-drop c.pos c.buf)

pub rest-advance_append :
    (c : Cursor) (xs ys : List ℕ) → rest c ≡ xs ++ ys → rest (advance (length xs) c) ≡ ys
rest-advance_append c xs ys h = rest-advance (length xs) c ∙ rw h (drop-append xs ys)

-- A read of `n` bytes where they are known to stand next.
pub take_next :
    (n : ℕ) (c : Cursor) (xs ys : List ℕ)
    → rest c ≡ xs ++ ys
    → length xs ≡ n
    → take n c ≡ ok (xs, advance n c)
take_next n c xs ys h e = subst (λ k. take k c ≡ ok (xs, advance k c)) e (take_lem c xs ys h)

pub rest_next :
    (n : ℕ) (c : Cursor) (xs ys : List ℕ)
    → rest c ≡ xs ++ ys
    → length xs ≡ n
    → rest (advance n c) ≡ ys
rest_next n c xs ys h e = subst (λ k. rest (advance k c) ≡ ys) e (rest-advance_append c xs ys h)

pub advance-advance : (m n : ℕ) (c : Cursor) → advance n (advance m c) ≡ advance (m + n) c
advance-advance m n c = ap (λ p. record c { pos = p }) (add_assoc c.pos m n)

pub advance-zero : (c : Cursor) → advance 0 c ≡ c
advance-zero c = ap (λ p. record c { pos = p }) (add-zero c.pos)

-- Little-endian bytes.
pub length-to_le_bytes : (n v : ℕ) → length (to_le_bytes n v) ≡ n
unfolding to_le_bytes
length-to_le_bytes zero v = refl
length-to_le_bytes (suc n) v = ap suc (length-to_le_bytes n (v / 256))

pub from_le_bytes-to_le_bytes : (n v : ℕ) → v < 256 ^ n → from_le_bytes (to_le_bytes n v) ≡ v
unfolding from_le_bytes to_le_bytes
from_le_bytes-to_le_bytes zero v h = omega arith
from_le_bytes-to_le_bytes (suc n) v h =
    omega (arith, from_le_bytes-to_le_bytes n (v / 256) (omega arith))

pub u8_next : (b : ℕ) (c : Cursor) (ys : List ℕ) → rest c ≡ b ∷ ys → u8 c ≡ ok (b, advance 1 c)
unfolding u8
u8_next b c ys h =
    rw (take_next 1 c (b ∷ []) ys h refl) (ap (λ t. ok (t, advance 1 c)) (omega arith))

pub u32_next :
    (v : ℕ) (c : Cursor) (ys : List ℕ)
    → v < 2 ^ 32
    → rest c ≡ to_le_bytes 4 v ++ ys
    → u32 c ≡ ok (v, advance 4 c)
unfolding u32
u32_next v c ys hv h =
    rw (take_next 4 c (to_le_bytes 4 v) ys h (length-to_le_bytes 4 v))
      (ap (λ t. ok (t, advance 4 c)) (from_le_bytes-to_le_bytes 4 v hv))

pub take_eof : (n : ℕ) (c : Cursor) → remaining c < n → take n c ≡ err unexpected_eof
unfolding take
take_eof n c h = rw (lt→ltb _ _ h)
