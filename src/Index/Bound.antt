-- ===== src/Index/Bound.antt =====
-- crates/wavedb-core/src/index/mod.rs: `Bound`, a search range over the encoded keys.
pub mod Laws
use wavedb.Base.{
  ℕ, zero, ◌+◌, ◌-◌, List, [], ◌∷◌, ◌++◌, length, replicate, Bool, true, not, ◌&&◌, ltb, ◌==◌,
  Option, none, some, if◌then◌else◌,
}
use wavedb.Index.Bytes.{slice_lt, slice_eq, starts_with, from_be_bytes}

pub data Bound : Type 0 where
  all : Bound
  exact : List ℕ → Bound
  range : List ℕ → List ℕ → Bound
  prefix : List ℕ → Bound

unfoldable pub contains : Bound → List ℕ → Bool
contains all key = true
contains (exact k) key = slice_eq key k
contains (range lo hi) key = not (slice_lt key lo) && slice_lt key hi
contains (prefix p) key = starts_with key p

-- `u64::from_be_bytes(b.try_into().ok()?)`: a slice that has not 8 bytes is no `u64`.
unfoldable pub as_u64 : List ℕ → Option ℕ
as_u64 b = if length b == 8 then some (from_be_bytes b) else none

infixl 5 ◌>>=◌
abbrev pub ◌>>=◌ : {A B : Type 0} → Option A → (A → Option B) → Option B
none >>= f = none
some a >>= f = f a

-- The array of 8 bytes `fill` with `p` copied to its front.
unfoldable pub padded : ℕ → List ℕ → List ℕ
padded fill p = p ++ replicate (8 - length p) fill

unfoldable pub created_at_range : Bound → Option (ℕ × ℕ)
unfolding as_u64 padded
created_at_range all = none
created_at_range (exact k) = do n ← as_u64 k; some (n, n)
created_at_range (range lo hi) = do
  l ← as_u64 lo
  h ← as_u64 hi
  if h == 0 then some (1, 0) else some (l, h - 1)
created_at_range (prefix p) =
    if ltb 8 (length p)
    then none
    else some (from_be_bytes (padded 0x00 p), from_be_bytes (padded 0xff p))
