-- ===== src/Runs/Protection.antt =====
-- The allocator with its protected sets at concrete inputs.
use wavedb.Base.{
  ℕ, ◌<◌, ◌≡◌, refl, arith, List, [], ◌∷◌, ◌++◌, true, false, not, ◌&&◌, ◌||◌, some, if◌then◌else◌,
}
use wavedb.Blocks.Descriptor.{Run}
use wavedb.Blocks.Extents.Free.{free_at}
use wavedb.Blocks.Alloc.{
  BlockAllocator, run_at, alloc, alloc_tail, free, set_protected, release_previous,
}
use wavedb.Blocks.Alloc.Valid.{is_free}
use wavedb.Blocks.Alloc.Deferred.{run_has, listed, IsInUse}
use wavedb.Blocks.Alloc.Kept.{is_blocked, let_go, blocked}
use wavedb.Blocks.Alloc.Collect.{ShareNone}
use wavedb.Blocks.Alloc.Consistent.{is_kept, IsConsistent}
use wavedb.Blocks.Alloc.Protection.{
  IsSafeAllocation, alloc-IsSafe, alloc_tail-IsSafe, free-IsConsistent, set_protected-IsConsistent,
  release_previous-IsConsistent,
}
use wavedb.Runs.Blocks.{holed, holed-IsValid}

holed-IsConsistent : IsConsistent holed
unfolding free_at listed
holed-IsConsistent = record {
  valid = holed-IsValid;
  newest = (omega arith, omega arith, tt);
  older = (omega arith, omega arith, tt);
  safe = λ b k. ground arith;
  inside = λ b k. ground arith;
  deferred = (
    record { positive = omega arith; inside = omega arith; used = λ b h. ground arith },
    λ b h. refl,
    tt,
  );
}

alloc-IsSafe_example :
    (r : Run) × (a' : BlockAllocator) × (alloc 3 holed ≡ some (r, a')) × IsSafeAllocation holed r a'
alloc-IsSafe_example = alloc-IsSafe holed 3 holed-IsConsistent (omega arith)

alloc_tail-IsSafe_example :
    (r : Run) × (a' : BlockAllocator) × (alloc_tail 1 holed ≡ some (r, a'))
    × IsSafeAllocation holed r a'
alloc_tail-IsSafe_example = alloc_tail-IsSafe holed 1 holed-IsConsistent (omega arith)

last_used : IsInUse holed.by_pos holed.total_blocks (run_at 8 2)
unfolding free_at
last_used = record { positive = omega arith; inside = omega arith; used = λ b h. ground arith }

apart_from_pending : (b : ℕ) → listed holed.pending b ≡ true → run_has (run_at 8 2) b ≡ false
unfolding listed
apart_from_pending b h = ground arith

free-IsConsistent_example :
    IsConsistent (free (run_at 8 2) holed)
    × ((b : ℕ)
        → is_free (free (run_at 8 2) holed) b ≡ (
            (not (is_blocked (is_kept holed) (run_at 8 2)) && run_has (run_at 8 2) b)
            || is_free holed b))
    × ((free (run_at 8 2) holed).pending
        ≡ holed.pending
          ++ (if is_blocked (is_kept holed) (run_at 8 2) then run_at 8 2 ∷ [] else []))
free-IsConsistent_example =
    free-IsConsistent (run_at 8 2) holed holed-IsConsistent last_used apart_from_pending

release_previous-IsConsistent_example :
    IsConsistent (release_previous holed)
    × ((release_previous holed).protected ≡ holed.protected)
    × ((release_previous holed).previous ≡ [])
    × ((b : ℕ)
        → is_free (release_previous holed) b
          ≡ (let_go (free_at holed.protected) holed.pending b || is_free holed b))
    × ((release_previous holed).pending ≡ blocked (free_at holed.protected) holed.pending)
release_previous-IsConsistent_example = release_previous-IsConsistent holed holed-IsConsistent

abbrev checkpoint_runs : List Run
checkpoint_runs = run_at 8 2 ∷ run_at 0 1 ∷ []

checkpoint_none_shared : ShareNone checkpoint_runs
unfolding listed
checkpoint_none_shared = (λ b e. ground arith, (λ b e. refl, tt))

checkpoint_in_use :
    (b : ℕ) → listed checkpoint_runs b ≡ true → (is_free holed b ≡ false) × (b < holed.total_blocks)
unfolding listed free_at
checkpoint_in_use b h = ground arith

set_protected-IsConsistent_example :
    IsConsistent (set_protected checkpoint_runs holed)
    × ((b : ℕ)
        → free_at (set_protected checkpoint_runs holed).protected b ≡ listed checkpoint_runs b)
    × ((set_protected checkpoint_runs holed).previous ≡ holed.protected)
    × ((b : ℕ)
        → is_free (set_protected checkpoint_runs holed) b ≡ (
            let_go (λ d. listed checkpoint_runs d || free_at holed.protected d) holed.pending b
            || is_free holed b))
    × ((set_protected checkpoint_runs holed).pending
        ≡ blocked (λ d. listed checkpoint_runs d || free_at holed.protected d) holed.pending)
set_protected-IsConsistent_example =
    set_protected-IsConsistent checkpoint_runs holed holed-IsConsistent checkpoint_none_shared
      checkpoint_in_use
