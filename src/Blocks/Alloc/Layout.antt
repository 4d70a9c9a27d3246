-- ===== src/Blocks/Alloc/Layout.antt =====
-- `BlockAllocator::from_layout`, which rebuilds the free space from the runs in use, and the gauges.
pub mod Order
pub mod Gaps
use wavedb.Base.{
  ℕ, ◌+◌, ◌-◌, List, [], ◌∷◌, Bool, ◌==◌, ltb, leb, Option, none, some, length, if◌then◌else◌,
}
use wavedb.Blocks.Descriptor.{Run, run_end}
use wavedb.Blocks.Extents.{PosMap, SizeSet, get, last_below, last}
use wavedb.Blocks.Alloc.{BlockAllocator, empty, insert_extent}

-- `filter(|r| r.count > 0)`.
unfoldable pub with_blocks : List Run → List Run
with_blocks [] = []
with_blocks (r ∷ rs) = if ltb 0 r.count then r ∷ with_blocks rs else with_blocks rs

-- `sort_by_key(|r| r.start)`: stable.
unfoldable pub insert_run : Run → List Run → List Run
insert_run r [] = r ∷ []
insert_run r (s ∷ rs) = if leb r.start s.start then r ∷ s ∷ rs else s ∷ insert_run r rs

unfoldable pub sort_runs : List Run → List Run
unfolding insert_run
sort_runs [] = []
sort_runs (r ∷ rs) = insert_run r (sort_runs rs)

-- The gap from `cursor` to `end`, if there is one, becomes a free extent.
unfoldable pub fill_gap : ℕ → ℕ → BlockAllocator → BlockAllocator
fill_gap cursor end a = if ltb cursor end then insert_extent cursor (end - cursor) a else a

-- The loop over the runs, and the gap behind the last.
unfoldable pub fill_gaps : List Run → ℕ → BlockAllocator → BlockAllocator
unfolding fill_gap
fill_gaps [] cursor a = fill_gap cursor a.total_blocks a
fill_gaps (r ∷ rs) cursor a = fill_gaps rs (run_end r) (fill_gap cursor r.start a)

unfoldable pub from_layout : ℕ → List Run → BlockAllocator
unfolding with_blocks sort_runs fill_gaps
from_layout total_blocks used =
    fill_gaps (sort_runs (with_blocks used)) 0 (record empty { total_blocks = total_blocks })

unfoldable pub sum_sizes : SizeSet → ℕ
sum_sizes [] = 0
sum_sizes ((count, start) ∷ s) = count + sum_sizes s

unfoldable pub free_blocks : BlockAllocator → ℕ
unfolding sum_sizes
free_blocks a = sum_sizes a.by_size

unfoldable pub sum_counts : List Run → ℕ
sum_counts [] = 0
sum_counts (r ∷ rs) = r.count + sum_counts rs

unfoldable pub deferred_blocks : BlockAllocator → ℕ
unfolding sum_counts
deferred_blocks a = sum_counts a.pending

unfoldable pub free_extent_count : BlockAllocator → ℕ
free_extent_count a = length a.by_pos

abbrev pub count_of : Option (ℕ × ℕ) → ℕ
count_of none = 0
count_of (some e) = e.0

unfoldable pub largest_free_extent : BlockAllocator → ℕ
largest_free_extent a = count_of (last a.by_size)

abbrev pub ending_at : ℕ → Option (ℕ × ℕ) → ℕ
ending_at k none = 0
ending_at k (some (start, count)) = if start + count == k then count else 0

abbrev pub or_zero : Option ℕ → ℕ
or_zero none = 0
or_zero (some n) = n

unfoldable pub free_neighbours : BlockAllocator → Run → ℕ × ℕ
free_neighbours a run =
    (ending_at run.start (last_below run.start a.by_pos), or_zero (get (run_end run) a.by_pos))
