-- ===== src/Blocks/Alloc/Give.antt =====
-- What `free` does to the free space: coalescing, then the deferral of what is protected.
use wavedb.Base.{ℕ, ◌≡◌, refl, ◌∙◌, arith, ◌||◌}
use wavedb.Blocks.Descriptor.{Run}
use wavedb.Blocks.Extents.Laws.{IsClear}
use wavedb.Blocks.Extents.Free.{in_extent, free_at-insert}
use wavedb.Blocks.Alloc.{BlockAllocator, insert_extent, free_run, free}
use wavedb.Blocks.Alloc.Valid.{IsValid, is_free, insert_extent-IsValid}
use wavedb.Blocks.Alloc.Coalesce.{CanFree, front_clear, all-IsClear}
use wavedb.Blocks.Alloc.Take.{clear_none}

-- `a'` is `a` with the blocks of `r` free too, and nothing else changed.
pub record IsFreeing (r : Run) (a : BlockAllocator) (a' : BlockAllocator) : Type 0 where
  pub valid : IsValid a'
  pub total : a'.total_blocks ≡ a.total_blocks
  pub freed : (b : ℕ) → is_free a' b ≡ (in_extent r.start r.count b || is_free a b)
  pub protection : (a'.protected ≡ a.protected) × (a'.previous ≡ a.previous)
  pub deferred : a'.pending ≡ a.pending

insert-IsFreeing :
    (r : Run) (a : BlockAllocator)
    → IsValid a
    → CanFree r a
    → IsClear r.start r.count a.by_pos
    → IsFreeing r a (insert_extent r.start r.count a)
unfolding insert_extent
insert-IsFreeing r a v c clear = record {
  valid =
      insert_extent-IsValid a r.start r.count v clear (clear_none r.start r.count a.by_pos clear)
        c.positive c.inside;
  total = refl;
  freed = λ b. free_at-insert 0 a.by_pos a.total_blocks r.start r.count b v.apart clear;
  protection = (refl, refl);
  deferred = refl;
}

-- Freeing a run of at least one block, inside the file and with no free block, joins it with the
-- free extents that it touches: the two indexes stay alike, the extents stay apart, and the free
-- blocks are those that were free and those of the run.
pub free_run-IsFreeing :
    (r : Run) (a : BlockAllocator) → IsValid a → CanFree r a → IsFreeing r a (free_run r a)
unfolding free_run
free_run-IsFreeing r a v c =
    let (r1, a1, e1, j1, front) = front_clear r a v c in
    let (r2, a2, e2, j2, clear) = all-IsClear r1 a1 j1.valid front j1.can in
    let inserted = insert-IsFreeing r2 a2 j2.valid j2.can clear in
    rw e1 (
      rw e2 (record {
        valid = inserted.valid;
        total = ground arith;
        freed = λ b. ground (arith, inserted.freed b, j2.merged b, j1.merged b);
        protection = (
          inserted.protection.0 ∙ j2.protection.0 ∙ j1.protection.0,
          inserted.protection.1 ∙ j2.protection.1 ∙ j1.protection.1,
        );
        deferred = inserted.deferred ∙ j2.deferred ∙ j1.deferred;
      }))

free_zero : (r : Run) (a : BlockAllocator) → r.count ≡ 0 → free r a ≡ a
unfolding free
free_zero r a h = ground arith
