-- ===== src/Blocks/Alloc/BestFit.antt =====
-- The choice of `alloc` among the free extents.
use wavedb.Base.{ℕ, ◌≤◌, ◌<◌, ◌≡◌, arith, true, some, Option-cases, inl, inr}
use wavedb.Blocks.Extents.{get, has_size, first_from}
use wavedb.Blocks.Extents.Sizes.{first_from-some, first_from_least, first_from-none}
use wavedb.Blocks.Alloc.{BlockAllocator, insert_extent, remove_extent, run_at, keep_leftover, alloc}
use wavedb.Blocks.Alloc.Take.{size_get}
use wavedb.Blocks.Alloc.Valid.{IsValid}

get_size :
    (a : BlockAllocator) (n s : ℕ)
    → IsValid a
    → get s a.by_pos ≡ some n
    → has_size (n, s) a.by_size ≡ true
get_size a n s v e = ground (arith, v.synced n s)

kept_total :
    (s count n : ℕ) (a : BlockAllocator)
    → (keep_leftover s count n (remove_extent s n a)).total_blocks ≡ a.total_blocks
unfolding remove_extent insert_extent
kept_total s count n a = ground arith

-- While some free extent has at least `count` blocks, `alloc` takes the front of an extent that is
-- as small as any such, and the file keeps its length.
pub alloc_best_fit :
    (a : BlockAllocator) (count s n : ℕ)
    → IsValid a
    → 0 < count
    → get s a.by_pos ≡ some n
    → count ≤ n
    → (s' : ℕ) × (n' : ℕ) × (get s' a.by_pos ≡ some n')
      × (count ≤ n')
      × (n' ≤ n)
      × (a' : BlockAllocator) × (alloc count a ≡ some (run_at s' count, a'))
      × (a'.total_blocks ≡ a.total_blocks)
unfolding alloc
alloc_best_fit a count s n v pos e fits = elim (Option-cases (first_from count a.by_size)) [
  | inl nothing ↦
      ground (arith, first_from-none count a.by_size (n, s) nothing (get_size a n s v e))
  | inr (h, hole) ↦
      let (member, enough) = first_from-some count a.by_size h hole in
      (
        h.1,
        h.0,
        size_get a h.0 h.1 v member,
        enough,
        first_from_least count a.by_size h (n, s) v.ascending hole (get_size a n s v e) fits,
        keep_leftover h.1 count h.0 (remove_extent h.1 h.0 a),
        ground arith,
        kept_total h.1 count h.0 a,
      )
]
