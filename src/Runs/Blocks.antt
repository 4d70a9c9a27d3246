-- ===== src/Runs/Blocks.antt =====
-- The block allocator and the descriptor at concrete inputs.
use wavedb.Base.{not, List, ltb, ◌&&◌, ℕ, ◌≤◌, ◌≡◌, ◌<◌, true, refl, arith, [], ◌∷◌, some}
use wavedb.Blocks.Descriptor.{Run}
use wavedb.Blocks.Extents.{get, has_size}
use wavedb.Blocks.Alloc.{BlockAllocator, run_at, alloc, free_run, truncate}
use wavedb.Blocks.Alloc.Valid.{IsValid, is_free}
use wavedb.Blocks.Alloc.Take.{IsAllocation, alloc-IsAllocation}
use wavedb.Blocks.Alloc.BestFit.{alloc_best_fit}
use wavedb.Blocks.Alloc.Tail.{IsTruncation, truncate-IsTruncation}
use wavedb.Blocks.Alloc.Coalesce.{CanFree}
use wavedb.Blocks.Alloc.Give.{IsFreeing, free_run-IsFreeing}
use wavedb.Blocks.Alloc.Deferred.{listed}
use wavedb.Blocks.Alloc.Layout.{from_layout}
use wavedb.Blocks.Alloc.Collect.{ShareNone}
use wavedb.Blocks.Alloc.Layout.Gaps.{from_layout-IsValid}

-- Ten blocks, of which 2, 3, 4, 6 and 7 are free, and two blocks more at the end.
abbrev pub holed : BlockAllocator
holed = record {
  by_pos = (2, 3) ∷ (6, 2) ∷ (10, 2) ∷ [];
  by_size = (2, 6) ∷ (2, 10) ∷ (3, 2) ∷ [];
  total_blocks = 12;
  protected = (0, 1) ∷ [];
  previous = (5, 1) ∷ [];
  pending = run_at 5 1 ∷ [];
}

pub holed-IsValid : IsValid holed
unfolding has_size get
holed-IsValid = record {
  apart = (
    omega arith,
    omega arith,
    omega arith,
    (omega arith, omega arith, omega arith, (omega arith, omega arith, omega arith, tt)),
  );
  synced = λ c s. ground arith;
  ascending = ((refl, (refl, tt)), ((refl, tt), (tt, tt)));
}

alloc-IsAllocation_example :
    (r : Run) × (a' : BlockAllocator) × (alloc 2 holed ≡ some (r, a')) × IsAllocation holed 2 r a'
alloc-IsAllocation_example = alloc-IsAllocation holed 2 holed-IsValid (omega arith)

alloc_best_fit_example :
    (s' : ℕ) × (n' : ℕ) × (get s' holed.by_pos ≡ some n')
    × (1 ≤ n')
    × (n' ≤ 3)
    × (a' : BlockAllocator) × (alloc 1 holed ≡ some (run_at s' 1, a'))
    × (a'.total_blocks ≡ 12)
unfolding get
alloc_best_fit_example = alloc_best_fit holed 1 2 3 holed-IsValid (omega arith) refl (omega arith)

-- The run that `alloc_tail` gives for four blocks, and the allocator behind it.
abbrev tail_after : BlockAllocator
tail_after = record holed {
  by_pos = (2, 3) ∷ (6, 2) ∷ [];
  by_size = (2, 6) ∷ (3, 2) ∷ [];
  total_blocks = 14;
}

truncate-IsTruncation_example : IsTruncation holed (truncate holed)
truncate-IsTruncation_example = truncate-IsTruncation holed holed-IsValid

holed-CanFree : CanFree (run_at 5 1) holed
unfolding get
holed-CanFree = record {
  positive = omega arith;
  inside = omega arith;
  outside = λ j w e. ground arith;
}

-- Block 5 closes the gap between two extents.
free_run-IsFreeing_example : IsFreeing (run_at 5 1) holed (free_run (run_at 5 1) holed)
free_run-IsFreeing_example = free_run-IsFreeing (run_at 5 1) holed holed-IsValid holed-CanFree

-- Blocks 0, 3, 4 and 8 of ten are in use, named out of order.
abbrev used_runs : List Run
used_runs = run_at 3 2 ∷ run_at 0 1 ∷ run_at 6 0 ∷ run_at 8 1 ∷ []

used_none_shared : ShareNone used_runs
unfolding listed
used_none_shared =
    (λ b e. ground arith, (λ b e. ground arith, (λ b e. ground arith, (λ b e. refl, tt))))

used_inside : (b : ℕ) → listed used_runs b ≡ true → b < 10
unfolding listed
used_inside b h = ground arith

from_layout-IsValid_example :
    IsValid (from_layout 10 used_runs)
    × ((b : ℕ) → is_free (from_layout 10 used_runs) b ≡ (ltb b 10 && not (listed used_runs b)))
from_layout-IsValid_example = from_layout-IsValid 10 used_runs used_none_shared used_inside
