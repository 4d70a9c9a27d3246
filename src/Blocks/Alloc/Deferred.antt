-- ===== src/Blocks/Alloc/Deferred.antt =====
-- The deferred frees: what a walk of the list through `free` releases and what it keeps.
use wavedb.Base.{
  ℕ, ◌≤◌, ◌<◌, ◌≡◌, refl, arith, List, [], ◌∷◌, ◌++◌, Bool, true, false, not, ◌&&◌, ◌||◌, max,
  if◌then◌else◌,
}
use wavedb.Blocks.Descriptor.{Run, run_end}
use wavedb.Blocks.Extents.{PosMap}
use wavedb.Blocks.Extents.Free.{in_extent, free_at, free_at-get}
use wavedb.Blocks.Extents.Laws.{get_bounds}
use wavedb.Blocks.Alloc.{BlockAllocator, covers}
use wavedb.Blocks.Alloc.Valid.{IsValid, is_free}
use wavedb.Blocks.Alloc.Coalesce.{CanFree}

abbrev pub run_has : Run → ℕ → Bool
run_has r b = in_extent r.start r.count b

-- Some run of the list has block `b`.
unfoldable pub listed : List Run → ℕ → Bool
listed [] b = false
listed (r ∷ rs) b = run_has r b || listed rs b

-- A run of blocks inside a file of `t` blocks, none of which the map holds free.
pub record IsInUse (m : PosMap) (t : ℕ) (r : Run) : Type 0 where
  pub positive : 0 < r.count
  pub inside : run_end r ≤ t
  pub used : (b : ℕ) → run_has r b ≡ true → free_at m b ≡ false

-- Runs in use that share no block with each other.
abbrev pub AreInUse : PosMap → ℕ → List Run → Type 0
AreInUse m t [] = Unit {0}
AreInUse m t (r ∷ rs) =
    IsInUse m t r × ((b : ℕ) → run_has r b ≡ true → listed rs b ≡ false) × AreInUse m t rs

-- The runs that neither set protects, and those that one does.
unfoldable pub released : PosMap → PosMap → List Run → ℕ → Bool
released n o [] b = false
released n o (r ∷ rs) b = (not (covers n r || covers o r) && run_has r b) || released n o rs b

unfoldable pub held : PosMap → PosMap → List Run → List Run
held n o [] = []
held n o (r ∷ rs) = let rest = held n o rs in if covers n r || covers o r then r ∷ rest else rest

pub released-listed :
    (n o : PosMap) (rs : List Run) (b : ℕ) → listed rs b ≡ false → released n o rs b ≡ false
unfolding released listed
released-listed n o [] b h = refl
released-listed n o (r ∷ rs) b h = ground (arith, released-listed n o rs b)

pub held-listed :
    (n o : PosMap) (rs : List Run) (b : ℕ) → listed rs b ≡ false → listed (held n o rs) b ≡ false
unfolding held listed
held-listed n o [] b h = refl
held-listed n o (r ∷ rs) b h = ground (arith, held-listed n o rs b)

-- In terms of the extents, a run in use can be freed.
pub IsInUse-CanFree :
    (a : BlockAllocator) (r : Run) → IsValid a → IsInUse a.by_pos a.total_blocks r → CanFree r a
IsInUse-CanFree a r v u = record {
  positive = u.positive;
  inside = u.inside;
  outside = λ j w e. ground (
    arith,
    u.positive,
    u.used (max j r.start),
    get_bounds 0 a.by_pos a.total_blocks j w v.apart e,
    free_at-get a.by_pos j w (max j r.start) e,
  );
}

-- Runs stay in use when the map and the file change outside their blocks.
pub AreInUse-change :
    (m m' : PosMap) (t t' : ℕ) (rs : List Run)
    → t ≤ t'
    → ((b : ℕ) → listed rs b ≡ true → free_at m b ≡ false → free_at m' b ≡ false)
    → AreInUse m t rs
    → AreInUse m' t' rs
unfolding listed
AreInUse-change m m' t t' [] h same u = tt
AreInUse-change m m' t t' (r ∷ rs) h same u = (
  record {
    positive = u.0.positive;
    inside = omega (arith, u.0.inside);
    used = λ b e. same b (ground arith) (u.0.used b e);
  },
  u.1,
  AreInUse-change m m' t t' rs h (λ b e. same b (ground arith)) u.2,
)

-- What `free_all` does: the runs that no set protects are free, the others are deferred again.
pub record IsRetry (rs : List Run) (a : BlockAllocator) (a' : BlockAllocator) : Type 0 where
  pub valid : IsValid a'
  pub total : a'.total_blocks ≡ a.total_blocks
  pub freed : (b : ℕ) → is_free a' b ≡ (released a.protected a.previous rs b || is_free a b)
  pub newest : a'.protected ≡ a.protected
  pub older : a'.previous ≡ a.previous
  pub pending : a'.pending ≡ a.pending ++ held a.protected a.previous rs
  pub in_use : AreInUse a'.by_pos a'.total_blocks (held a.protected a.previous rs)
