-- ===== src/Blocks/Alloc/Take.antt =====
-- What `alloc` and `alloc_tail` hand out.
use wavedb.Base.{
  ℕ, ◌+◌, ◌-◌, ◌≤◌, ◌<◌, ◌≡◌, ◌⊎◌, refl, subst, arith, true, not, ◌&&◌, ltb, none, some, Bool-cases,
  Option-cases, inl, inr,
}
use wavedb.Blocks.Descriptor.{Run, run_end}
use wavedb.Blocks.Extents.{PosMap, get, insert, remove, has_size, first_from}
use wavedb.Blocks.Extents.Laws.{
  AreApart, AreApart-weaken, IsClear, AreApart-remove, get-remove, get_bounds, get_apart,
}
use wavedb.Blocks.Extents.Free.{
  in_extent, free_at, free_at-insert, free_at-remove, free_at_bounds, free_at-get,
}
use wavedb.Blocks.Extents.Sizes.{first_from-some}
use wavedb.Blocks.Alloc.{
  BlockAllocator, insert_extent, remove_extent, run_at, grow, keep_leftover, alloc,
}
use wavedb.Blocks.Alloc.Valid.{IsValid, is_free, insert_extent-IsValid, remove_extent-IsValid}

-- `r` has `count` blocks, all inside the new file; each was free or is behind the old end; no other
-- block changes hands, and protection stays as it is.
pub record IsAllocation (a : BlockAllocator) (count : ℕ) (r : Run) (a' : BlockAllocator)
    : Type 0 where
  pub valid : IsValid a'
  pub size : r.count ≡ count
  pub inside : run_end r ≤ a'.total_blocks
  pub longer : a.total_blocks ≤ a'.total_blocks
  pub fresh :
      (b : ℕ) → in_extent r.start r.count b ≡ true → (is_free a b ≡ true) ⊎ (a.total_blocks ≤ b)
  pub taken : (b : ℕ) → is_free a' b ≡ (is_free a b && not (in_extent r.start r.count b))
  pub protection : (a'.protected ≡ a.protected) × (a'.previous ≡ a.previous)
  pub deferred : a'.pending ≡ a.pending

-- Removed from the map, an extent leaves its blocks untouched by every other extent.
IsClear-after_remove :
    (lo : ℕ) (m : PosMap) (t s n c : ℕ)
    → AreApart lo m t
    → get s m ≡ some n
    → c ≤ n
    → IsClear (s + c) (n - c) (remove s m)
IsClear-after_remove lo m t s n c a e h j w g =
    ground (arith, get-remove s m j, get_apart lo m t s n j w a e, get_apart lo m t j w s n a)

pub grow-IsValid :
    (a : BlockAllocator) (t : ℕ)
    → a.total_blocks ≤ t
    → IsValid a
    → IsValid (record a { total_blocks = t })
grow-IsValid a t h v = record {
  apart = AreApart-weaken 0 0 a.by_pos a.total_blocks t (omega arith) h v.apart;
  synced = v.synced;
  ascending = v.ascending;
}

pub grow-IsAllocation :
    (a : BlockAllocator) (count : ℕ)
    → IsValid a
    → IsAllocation a count (grow count a).0 (grow count a).1
grow-IsAllocation a count v = record {
  valid = grow-IsValid a (a.total_blocks + count) (omega arith) v;
  size = refl;
  inside = omega arith;
  longer = omega arith;
  fresh = λ b h. ground arith;
  taken = λ b. ground (arith, free_at_bounds 0 a.by_pos a.total_blocks b v.apart);
  protection = (refl, refl);
  deferred = refl;
}

pub clear_none : (s c : ℕ) (m : PosMap) → IsClear s c m → get s m ≡ none
clear_none s c m clear = elim (Option-cases (get s m)) [
  | inl absent ↦ absent
  | inr (w, e) ↦ ground (arith, clear s w e)
]

-- The blocks left free when the front of an extent goes.
free_at_front :
    (m : PosMap) (t s n count b : ℕ)
    → AreApart 0 m t
    → get s m ≡ some n
    → count < n
    → free_at (insert (s + count) (n - count) (remove s m)) b
      ≡ (free_at m b && not (in_extent s count b))
free_at_front m t s n count b a e less = ground (
  arith,
  free_at-insert 0 (remove s m) t (s + count) (n - count) b (AreApart-remove 0 m t s a)
      (IsClear-after_remove 0 m t s n count a e (omega arith)),
  free_at-remove 0 m t s n b a e,
  free_at-get m s n b e,
)

-- The front of a free extent, the rest of it kept.
pub front-IsAllocation :
    (a : BlockAllocator) (count n s : ℕ)
    → IsValid a
    → get s a.by_pos ≡ some n
    → count < n
    → IsAllocation a count
        (run_at s count)
        (insert_extent (s + count) (n - count) (remove_extent s n a))
unfolding insert_extent remove_extent
front-IsAllocation a count n s v e less =
    let bounds = get_bounds 0 a.by_pos a.total_blocks s n v.apart e in
    let clear = IsClear-after_remove 0 a.by_pos a.total_blocks s n count v.apart e (omega arith) in
    record {
      valid =
          insert_extent-IsValid (remove_extent s n a) (s + count) (n - count)
            (remove_extent-IsValid a s n v e) clear
            (clear_none (s + count) (n - count) (remove s a.by_pos) clear) (omega arith)
            (omega arith);
      size = refl;
      inside = omega arith;
      longer = omega arith;
      fresh = λ b h. ground (arith, free_at-get a.by_pos s n b e);
      taken = λ b. free_at_front a.by_pos a.total_blocks s n count b v.apart e less;
      protection = (refl, refl);
      deferred = refl;
    }

-- A whole free extent.
whole-IsAllocation :
    (a : BlockAllocator) (n s : ℕ)
    → IsValid a
    → get s a.by_pos ≡ some n
    → IsAllocation a n (run_at s n) (remove_extent s n a)
unfolding remove_extent
whole-IsAllocation a n s v e =
    let bounds = get_bounds 0 a.by_pos a.total_blocks s n v.apart e in
    record {
      valid = remove_extent-IsValid a s n v e;
      size = refl;
      inside = omega arith;
      longer = omega arith;
      fresh = λ b h. ground (arith, free_at-get a.by_pos s n b e);
      taken = λ b. free_at-remove 0 a.by_pos a.total_blocks s n b v.apart e;
      protection = (refl, refl);
      deferred = refl;
    }

hole-IsAllocation :
    (a : BlockAllocator) (count n s : ℕ)
    → IsValid a
    → get s a.by_pos ≡ some n
    → count ≤ n
    → IsAllocation a count (run_at s count) (keep_leftover s count n (remove_extent s n a))
hole-IsAllocation a count n s v e fits = elim (Bool-cases (ltb 0 (n - count))) [
  | inl rest ↦ rw rest (front-IsAllocation a count n s v e (ground arith))
  | inr none_left ↦ rw none_left (
      subst (λ c. IsAllocation a c (run_at s c) (remove_extent s n a)) (ground arith)
        (whole-IsAllocation a n s v e))
]

-- A pair of the index by size is an extent.
pub size_get :
    (a : BlockAllocator) (n s : ℕ)
    → IsValid a
    → has_size (n, s) a.by_size ≡ true
    → get s a.by_pos ≡ some n
size_get a n s v h = elim (Option-cases (get s a.by_pos)) [
  | inl absent ↦ ground (arith, v.synced n s)
  | inr (w, e) ↦ ground (arith, v.synced n s)
]

-- For a count of at least one, `alloc` on a valid allocator returns a run of that count inside the
-- file whose blocks were free or behind the old end; no other block changes hands, and the two
-- indexes stay alike.
pub alloc-IsAllocation :
    (a : BlockAllocator) (count : ℕ)
    → IsValid a
    → 0 < count
    → (r : Run) × (a' : BlockAllocator) × (alloc count a ≡ some (r, a')) × IsAllocation a count r a'
unfolding alloc
alloc-IsAllocation a count v pos = elim (Option-cases (first_from count a.by_size)) [
  | inl nothing ↦ ((grow count a).0, (grow count a).1, ground arith, grow-IsAllocation a count v)
  | inr (e, hole) ↦
      let (member, fits) = first_from-some count a.by_size e hole in
      (
        run_at e.1 count,
        keep_leftover e.1 count e.0 (remove_extent e.1 e.0 a),
        ground arith,
        hole-IsAllocation a count e.0 e.1 v (size_get a e.0 e.1 v member) fits,
      )
]
