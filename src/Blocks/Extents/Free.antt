-- ===== src/Blocks/Extents/Free.antt =====
-- The blocks that a map of extents holds: the abstract view of the free space.
use wavedb.Base.{
  ℕ, ◌+◌, ◌≤◌, ◌<◌, ◌≡◌, refl, ap, arith, [], ◌∷◌, Bool, true, false, not, ◌&&◌, ◌||◌, ltb, leb,
  ◌==◌, some, Bool-cases, inl, inr,
}
use wavedb.Blocks.Extents.{PosMap, get, insert, remove}
use wavedb.Blocks.Extents.Laws.{AreApart, IsClear, IsClear-tail, get_bounds, get_head}

-- Block `b` is one of the `c` blocks from `s` on.
abbrev pub in_extent : ℕ → ℕ → ℕ → Bool
in_extent s c b = leb s b && ltb b (s + c)

unfoldable pub free_at : PosMap → ℕ → Bool
free_at [] b = false
free_at ((s, c) ∷ m) b = in_extent s c b || free_at m b

gt→ne : (a b : ℕ) → b < a → (a == b) ≡ false
gt→ne a b h = ground arith

pub free_at_bounds :
    (lo : ℕ) (m : PosMap) (t b : ℕ) → AreApart lo m t → free_at m b ≡ true → (lo ≤ b) × (b < t)
unfolding free_at
free_at_bounds lo [] t b a h = cc
free_at_bounds lo ((s, c) ∷ m) t b a h = ground (arith, free_at_bounds (s + c + 1) m t b a.3)

-- A block of an entry is free.
pub free_at-get :
    (m : PosMap) (s c b : ℕ) → get s m ≡ some c → s ≤ b → b < s + c → free_at m b ≡ true
unfolding get free_at
free_at-get [] s c b e h k = cc
free_at-get ((i, v) ∷ m) s c b e h k = ground (arith, free_at-get m s c b)

-- A free block is a block of an entry.
pub get-free_at :
    (lo : ℕ) (m : PosMap) (t b : ℕ)
    → AreApart lo m t
    → free_at m b ≡ true
    → (s : ℕ) × (c : ℕ) × (get s m ≡ some c) × (s ≤ b) × (b < s + c)
unfolding free_at get
get-free_at lo [] t b a h = cc
get-free_at lo ((i, v) ∷ m) t b a h = elim (Bool-cases (in_extent i v b)) [
  | inl here ↦ (i, v, get_head i v m, ground arith, ground arith)
  | inr there ↦
      let (s, c, e, p, q) = get-free_at (i + v + 1) m t b a.3 (ground arith) in
      (s, c, ground (arith, get_bounds (i + v + 1) m t s c a.3 e), p, q)
]

remove_absent : (lo : ℕ) (m : PosMap) (t s : ℕ) → AreApart lo m t → s < lo → remove s m ≡ m
unfolding remove
remove_absent lo [] t s a h = refl
remove_absent lo ((i, v) ∷ m) t s a h =
    rw (remove_absent (i + v + 1) m t s a.3 (omega arith), gt→ne i s (omega arith))

pub free_at-remove :
    (lo : ℕ) (m : PosMap) (t s c b : ℕ)
    → AreApart lo m t
    → get s m ≡ some c
    → free_at (remove s m) b ≡ (free_at m b && not (in_extent s c b))
unfolding free_at get remove
free_at-remove lo [] t s c b a e = cc
free_at-remove lo ((i, v) ∷ m) t s c b a e = ground (
  arith,
  free_at-remove (i + v + 1) m t s c b a.3,
  free_at_bounds (i + v + 1) m t b a.3,
  get_bounds (i + v + 1) m t s c a.3,
  ap (λ n. free_at n b) (remove_absent (i + v + 1) m t i a.3 (omega arith)),
)

pub free_at-insert :
    (lo : ℕ) (m : PosMap) (t s c b : ℕ)
    → AreApart lo m t
    → IsClear s c m
    → free_at (insert s c m) b ≡ (in_extent s c b || free_at m b)
unfolding free_at insert
free_at-insert lo [] t s c b a clear = refl
free_at-insert lo ((i, v) ∷ m) t s c b a clear = ground (
  arith,
  clear i v (get_head i v m),
  free_at-insert (i + v + 1) m t s c b a.3 (IsClear-tail s c lo i v m t a clear),
)
