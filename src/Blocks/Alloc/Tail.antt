-- ===== src/Blocks/Alloc/Tail.antt =====
-- The end of the file: what `alloc_tail` hands out and what `truncate` cuts off.
use wavedb.Base.{
  ℕ, ◌+◌, ◌≤◌, ◌<◌, ◌≡◌, refl, arith, [], ◌∷◌, true, false, not, ◌&&◌, ltb, ◌==◌, some, min,
  Bool-cases, Option-cases, inl, inr,
}
use wavedb.Blocks.Descriptor.{Run}
use wavedb.Blocks.Extents.{PosMap, get, remove, last}
use wavedb.Blocks.Extents.Laws.{
  AreApart, get-remove, get_bounds, get_apart, get_head, last-get, last-none,
}
use wavedb.Blocks.Extents.Free.{free_at, free_at-remove, free_at_bounds, free_at-get, get-free_at}
use wavedb.Blocks.Alloc.{
  BlockAllocator, remove_extent, run_at, grow, take_tail, alloc_tail, truncate, is_protected,
}
use wavedb.Blocks.Alloc.Take.{IsAllocation, grow-IsValid, grow-IsAllocation, front-IsAllocation}
use wavedb.Blocks.Alloc.Valid.{IsValid, is_free, remove_extent-IsValid}

-- An extent that ends the file, and the blocks behind it.
tail-IsAllocation :
    (a : BlockAllocator) (count n s : ℕ)
    → IsValid a
    → get s a.by_pos ≡ some n
    → s + n ≡ a.total_blocks
    → n ≤ count
    → IsAllocation a count
        (run_at s count)
        (record (remove_extent s n a) { total_blocks = s + count })
unfolding remove_extent
tail-IsAllocation a count n s v e ends more = record {
  valid =
      grow-IsValid (remove_extent s n a) (s + count) (omega arith)
        (remove_extent-IsValid a s n v e);
  size = refl;
  inside = omega arith;
  longer = omega arith;
  fresh = λ b h. ground (arith, free_at-get a.by_pos s n b e);
  taken = λ b. ground (
    arith,
    free_at-remove 0 a.by_pos a.total_blocks s n b v.apart e,
    free_at_bounds 0 a.by_pos a.total_blocks b v.apart,
  );
  protection = (refl, refl);
  deferred = refl;
}

take_tail-IsAllocation :
    (a : BlockAllocator) (count n s : ℕ)
    → IsValid a
    → get s a.by_pos ≡ some n
    → IsAllocation a count (take_tail count (some (s, n)) a).0 (take_tail count (some (s, n)) a).1
take_tail-IsAllocation a count n s v e =
    elim (Bool-cases (s + n == a.total_blocks && not (is_protected a (run_at s (min count n))))) [
      | inl ends ↦ rw ends (elim (Bool-cases (ltb count n)) [
        | inl less ↦ rw less (front-IsAllocation a count n s v e (ground arith))
        | inr more ↦ rw more (tail-IsAllocation a count n s v e (ground arith) (ground arith))
      ])
      | inr not_tail ↦ rw not_tail (grow-IsAllocation a count v)
    ]

-- For a count of at least one, `alloc_tail` returns a run, and the run is an allocation of that count.
pub alloc_tail-IsAllocation :
    (a : BlockAllocator) (count : ℕ)
    → IsValid a
    → 0 < count
    → (r : Run) × (a' : BlockAllocator) × (alloc_tail count a ≡ some (r, a'))
      × IsAllocation a count r a'
unfolding alloc_tail
alloc_tail-IsAllocation a count v pos = elim (Option-cases (last a.by_pos)) [
  | inl nothing ↦ ((grow count a).0, (grow count a).1, ground arith, grow-IsAllocation a count v)
  | inr (e, final) ↦ (
    (take_tail count (some e) a).0,
    (take_tail count (some e) a).1,
    ground arith,
    take_tail-IsAllocation a count e.1 e.0 v (last-get 0 a.by_pos a.total_blocks e v.apart final).0,
  )
]

take_tail_ends :
    (a : BlockAllocator) (count n s : ℕ)
    → IsValid a
    → get s a.by_pos ≡ some n
    → (b : ℕ) → (take_tail count (some (s, n)) a).0.start ≤ b
    → b < a.total_blocks
    → is_free a b ≡ true
take_tail_ends a count n s v e b h k = ground (arith, free_at-get a.by_pos s n b e)

-- No block in use lies behind the start of the run that `alloc_tail` returns.
pub alloc_tail_ends :
    (a : BlockAllocator) (count : ℕ) (r : Run) (a' : BlockAllocator)
    → IsValid a
    → alloc_tail count a ≡ some (r, a')
    → (b : ℕ) → r.start ≤ b
    → b < a.total_blocks
    → is_free a b ≡ true
unfolding alloc_tail
alloc_tail_ends a count r a' v e b h k = elim (Option-cases (last a.by_pos)) [
  | inl nothing ↦ ground arith
  | inr (f, final) ↦ ground (
    arith,
    take_tail_ends a count f.1 f.0 v (last-get 0 a.by_pos a.total_blocks f v.apart final).0 b,
  )
]

AreApart-shrink :
    (lo : ℕ) (m : PosMap) (t t' : ℕ)
    → AreApart lo m t
    → ((j w : ℕ) → get j m ≡ some w → j + w ≤ t')
    → AreApart lo m t'
unfolding get
AreApart-shrink lo [] t t' a h = tt
AreApart-shrink lo ((s, c) ∷ m) t t' a h = (
  a.0,
  a.1,
  h s c (get_head s c m),
  AreApart-shrink (s + c + 1) m t t' a.3
      (λ j w e. h j w (ground (arith, get_bounds (s + c + 1) m t j w a.3 e))),
)

-- What `truncate` does to an allocator: it keeps the invariant, the blocks that it counts are those
-- that the file loses, these were free, the others are as free as they were, and the file's last
-- block is then in use.
pub record IsTruncation (a : BlockAllocator) (t : BlockAllocator × ℕ) : Type 0 where
  pub valid : IsValid t.0
  pub reclaimed : t.0.total_blocks + t.1 ≡ a.total_blocks
  pub kept : (b : ℕ) → is_free t.0 b ≡ (is_free a b && ltb b t.0.total_blocks)
  pub were_free : (b : ℕ) → t.0.total_blocks ≤ b → b < a.total_blocks → is_free a b ≡ true
  pub complete : (b : ℕ) → b + 1 ≡ t.0.total_blocks → is_free t.0 b ≡ false

free_at_past :
    (m : PosMap) (t b : ℕ)
    → AreApart 0 m t
    → ((j w : ℕ) → get j m ≡ some w → j + w ≤ b)
    → free_at m b ≡ false
free_at_past m t b a past = elim (Bool-cases (free_at m b)) [
  | inl free ↦ let (s, c, e, h, k) = get-free_at 0 m t b a free in ground (arith, past s c)
  | inr used ↦ used
]

no-IsTruncation :
    (a : BlockAllocator)
    → IsValid a
    → ((j w : ℕ) → get j a.by_pos ≡ some w → j + w < a.total_blocks)
    → IsTruncation a (a, 0)
no-IsTruncation a v short = record {
  valid = v;
  reclaimed = omega arith;
  kept = λ b. ground (arith, free_at_bounds 0 a.by_pos a.total_blocks b v.apart);
  were_free = λ b h k. ground arith;
  complete =
      λ b e. free_at_past a.by_pos a.total_blocks b v.apart (λ j w g. omega (arith, short j w g));
}

cut-IsTruncation :
    (a : BlockAllocator) (s n : ℕ)
    → IsValid a
    → get s a.by_pos ≡ some n
    → ((j w : ℕ) → get j a.by_pos ≡ some w → j ≤ s)
    → s + n ≡ a.total_blocks
    → IsTruncation a (record (remove_extent s n a) { total_blocks = s }, n)
unfolding remove_extent
cut-IsTruncation a s n v e most ends =
    let removed = remove_extent-IsValid a s n v e in
    let apart = AreApart-shrink 0 (remove s a.by_pos) a.total_blocks s removed.apart (λ j w g.
      ground (
        arith,
        get-remove s a.by_pos j,
        most j w,
        get_apart 0 a.by_pos a.total_blocks j w s n v.apart,
      )) in
    record {
      valid = record { apart = apart; synced = removed.synced; ascending = removed.ascending };
      reclaimed = ends;
      kept = λ b. ground (
        arith,
        free_at-remove 0 a.by_pos a.total_blocks s n b v.apart e,
        free_at_bounds 0 a.by_pos a.total_blocks b v.apart,
        free_at_bounds 0 (remove s a.by_pos) s b apart,
      );
      were_free = λ b h k. free_at-get a.by_pos s n b e h (omega arith);
      complete = λ b h. free_at_past (remove s a.by_pos) s b apart (λ j w g. ground (
        arith,
        get-remove s a.by_pos j,
        most j w,
        get_apart 0 a.by_pos a.total_blocks j w s n v.apart,
      ));
    }

-- Of a valid allocator `truncate` drops the free blocks that end the file, all of them and no
-- other, counts them, and keeps the invariant.
pub truncate-IsTruncation : (a : BlockAllocator) → IsValid a → IsTruncation a (truncate a)
unfolding truncate
truncate-IsTruncation a v = elim (Option-cases (last a.by_pos)) [
  | inl nothing ↦
      rw nothing (no-IsTruncation a v (λ j w g. ground (arith, last-none a.by_pos nothing j w g)))
  | inr (e, final) ↦
      let (here, most) = last-get 0 a.by_pos a.total_blocks e v.apart final in
      rw final (elim (Bool-cases (e.0 + e.1 == a.total_blocks)) [
        | inl ends ↦ rw ends (cut-IsTruncation a e.0 e.1 v here most (ground arith))
        | inr not_tail ↦ rw not_tail (
            no-IsTruncation a v (λ j w g. ground (
              arith,
              most j w g,
              get_bounds 0 a.by_pos a.total_blocks e.0 e.1 v.apart here,
              get_apart 0 a.by_pos a.total_blocks j w e.0 e.1 v.apart,
            )))
      ])
]
