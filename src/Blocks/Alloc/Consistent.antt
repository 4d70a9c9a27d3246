-- ===== src/Blocks/Alloc/Consistent.antt =====
-- The invariant of the allocator with its protected sets and deferred frees.
use wavedb.Base.{
  ℕ, ◌<◌, ◌≡◌, refl, arith, List, [], ◌∷◌, ◌++◌, Bool, true, false, ◌||◌, Bool-cases, inl, inr,
}
use wavedb.Blocks.Descriptor.{Run}
use wavedb.Blocks.Extents.{PosMap}
use wavedb.Blocks.Extents.Free.{free_at}
use wavedb.Blocks.Alloc.{BlockAllocator, covers}
use wavedb.Blocks.Alloc.Valid.{IsValid, is_free}
use wavedb.Blocks.Alloc.Covers.{AreDisjoint, covers_iff}
use wavedb.Blocks.Alloc.Deferred.{
  run_has, listed, AreInUse, released, held, released-listed, held-listed, AreInUse-change, IsRetry,
}

-- One of the two sets has block `b`.
abbrev pub is_kept : BlockAllocator → ℕ → Bool
is_kept a b = free_at a.protected b || free_at a.previous b

-- The invariant of the allocator with its protection: the protected runs of a generation share no
-- block, no protected block is free, all are inside the file, and the deferred runs are in use and
-- share no block.
pub record IsConsistent (a : BlockAllocator) : Type 0 where
  pub valid : IsValid a
  pub newest : AreDisjoint 0 a.protected
  pub older : AreDisjoint 0 a.previous
  pub safe : (b : ℕ) → is_kept a b ≡ true → is_free a b ≡ false
  pub inside : (b : ℕ) → is_kept a b ≡ true → b < a.total_blocks
  pub deferred : AreInUse a.by_pos a.total_blocks a.pending

pub same_kept :
    (a a' : BlockAllocator) (b : ℕ)
    → a'.protected ≡ a.protected
    → a'.previous ≡ a.previous
    → is_kept a' b ≡ is_kept a b
same_kept a a' b h k = rw h (rw k refl)

pub listed_in_use :
    (m : PosMap) (t : ℕ) (rs : List Run) (b : ℕ)
    → AreInUse m t rs
    → listed rs b ≡ true
    → (free_at m b ≡ false) × (b < t)
unfolding listed
listed_in_use m t [] b u h = cc
listed_in_use m t (r ∷ rs) b u h =
    ground (arith, u.0.used b, u.0.inside, listed_in_use m t rs b u.2)

block_covers :
    (m : PosMap) (r : Run) (b : ℕ)
    → AreDisjoint 0 m
    → 0 < r.count
    → run_has r b ≡ true
    → free_at m b ≡ true
    → covers m r ≡ true
block_covers m r b d pos h k = (covers_iff m r d pos).1 (b, h, k)

-- A run that neither set protects has no protected block.
released_not_kept :
    (n o m : PosMap) (t : ℕ) (rs : List Run) (b : ℕ)
    → AreDisjoint 0 n
    → AreDisjoint 0 o
    → AreInUse m t rs
    → released n o rs b ≡ true
    → (free_at n b || free_at o b) ≡ false
unfolding released
released_not_kept n o m t [] b dn od u h = cc
released_not_kept n o m t (r ∷ rs) b dn od u h = elim (Bool-cases (free_at n b)) [
  | inl newest ↦
      ground (arith, block_covers n r b dn u.0.positive, released_not_kept n o m t rs b dn od u.2)
  | inr not_newest ↦ elim (Bool-cases (free_at o b)) [
    | inl older ↦
        ground (arith, block_covers o r b od u.0.positive, released_not_kept n o m t rs b dn od u.2)
    | inr not_older ↦ ground arith
  ]
]

listed-append : (xs ys : List Run) (b : ℕ) → listed (xs ++ ys) b ≡ (listed xs b || listed ys b)
unfolding listed
listed-append [] ys b = refl
listed-append (x ∷ xs) ys b = ground (arith, listed-append xs ys b)

AreInUse-append :
    (m : PosMap) (t : ℕ) (xs ys : List Run)
    → AreInUse m t xs
    → AreInUse m t ys
    → ((b : ℕ) → listed xs b ≡ true → listed ys b ≡ false)
    → AreInUse m t (xs ++ ys)
unfolding listed
AreInUse-append m t [] ys u w apart = w
AreInUse-append m t (x ∷ xs) ys u w apart = (
  u.0,
  λ b e. ground (arith, listed-append xs ys b, u.1 b e, apart b),
  AreInUse-append m t xs ys u.2 w (λ b e. apart b (ground arith)),
)

-- The walk of a list of runs in use through `free` keeps the invariant.
pub IsRetry-IsConsistent :
    (rs : List Run) (a a' : BlockAllocator)
    → IsConsistent a
    → AreInUse a.by_pos a.total_blocks rs
    → ((b : ℕ) → listed a.pending b ≡ true → listed rs b ≡ false)
    → IsRetry rs a a'
    → IsConsistent a'
IsRetry-IsConsistent rs a a' c u apart w = record {
  valid = w.valid;
  newest = rw w.newest c.newest;
  older = rw w.older c.older;
  safe = λ b k. ground (
    arith,
    w.freed b,
    same_kept a a' b w.newest w.older,
    c.safe b,
    released_not_kept a.protected a.previous a.by_pos a.total_blocks rs b c.newest c.older u,
  );
  inside = λ b k. ground (arith, same_kept a a' b w.newest w.older, c.inside b, w.total);
  deferred = rw w.pending (
      AreInUse-append a'.by_pos a'.total_blocks a.pending (held a.protected a.previous rs)
        (AreInUse-change a.by_pos a'.by_pos a.total_blocks a'.total_blocks a.pending
          (omega (arith, w.total))
          (λ b e f.
            ground (arith, w.freed b, apart b e, released-listed a.protected a.previous rs b))
          c.deferred)
        w.in_use (λ b e. held-listed a.protected a.previous rs b (apart b e)));
}
