-- ===== src/Blocks/Alloc.antt =====
-- crates/wavedb-storage/src/alloc.rs: `BlockAllocator`, the free-space manager.
-- A method of `&mut self` returns the new state; `none` is the panic of its `assert!`. The debug
-- assertions are hypotheses of the theorems.
pub mod Valid
pub mod Take
pub mod BestFit
pub mod Coalesce
pub mod Tail
pub mod Give
pub mod Covers
pub mod Deferred
pub mod Kept
pub mod Collect
pub mod Retry
pub mod Consistent
pub mod Protection
pub mod Layout
use wavedb.Base.{
  ℕ, zero, suc, ◌+◌, ◌-◌, List, [], ◌∷◌, ◌++◌, Bool, true, false, not, ◌&&◌, ◌||◌, ltb, leb, ◌==◌,
  Option, none, some, min, if◌then◌else◌,
}
use mathlib.Core.List.{foldl}
use wavedb.Blocks.Descriptor.{Run, run_end}
use wavedb.Blocks.Extents.{
  PosMap, SizeSet, get, insert, remove, last_below, last, insert_size, remove_size, first_from,
}

pub record BlockAllocator : Type 0 where
  pub by_pos : PosMap
  pub by_size : SizeSet
  pub total_blocks : ℕ
  pub protected : PosMap
  pub previous : PosMap
  pub pending : List Run

abbrev pub empty : BlockAllocator
empty = record {
  by_pos = [];
  by_size = [];
  total_blocks = 0;
  protected = [];
  previous = [];
  pending = [];
}

abbrev pub run_at : ℕ → ℕ → Run
run_at start count = record { start = start; count = count }

unfoldable pub insert_extent : ℕ → ℕ → BlockAllocator → BlockAllocator
insert_extent start count a = record a {
  by_pos = insert start count a.by_pos;
  by_size = insert_size (count, start) a.by_size;
}

unfoldable pub remove_extent : ℕ → ℕ → BlockAllocator → BlockAllocator
remove_extent start count a = record a {
  by_pos = remove start a.by_pos;
  by_size = remove_size (count, start) a.by_size;
}

-- One generation's set: the last run that starts before the end of `run` reaches into it.
abbrev pub reaches : Option (ℕ × ℕ) → ℕ → Bool
reaches none start = false
reaches (some (s, c)) start = ltb start (s + c)

unfoldable pub covers : PosMap → Run → Bool
covers set run = reaches (last_below (run_end run) set) run.start

unfoldable pub is_protected : BlockAllocator → Run → Bool
unfolding covers
is_protected a run = covers a.protected run || covers a.previous run

abbrev pub grow : ℕ → BlockAllocator → Run × BlockAllocator
grow count a = (run_at a.total_blocks count, record a { total_blocks = a.total_blocks + count })

-- The leftover of an extent of `n` blocks behind its first `count`.
abbrev pub keep_leftover : ℕ → ℕ → ℕ → BlockAllocator → BlockAllocator
keep_leftover start count n a =
    if ltb 0 (n - count) then insert_extent (start + count) (n - count) a else a

abbrev pub take_hole : ℕ → Option (ℕ × ℕ) → BlockAllocator → Run × BlockAllocator
take_hole count none a = grow count a
take_hole count (some (n, start)) a =
    (run_at start count, keep_leftover start count n (remove_extent start n a))

-- Best fit, or growth at the tail.
unfoldable pub alloc : ℕ → BlockAllocator → Option (Run × BlockAllocator)
alloc count a = if count == 0 then none else some (take_hole count (first_from count a.by_size) a)

-- The trailing extent, if it ends the file and no generation protects its front.
abbrev pub take_tail : ℕ → Option (ℕ × ℕ) → BlockAllocator → Run × BlockAllocator
take_tail count none a = grow count a
take_tail count (some (start, n)) a =
    if start + n == a.total_blocks && not (is_protected a (run_at start (min count n)))
    then (let b = remove_extent start n a in
        (
          run_at start count,
          if ltb count n
              then insert_extent (start + count) (n - count) b
              else record b { total_blocks = start + count },
        ))
    else grow count a

unfoldable pub alloc_tail : ℕ → BlockAllocator → Option (Run × BlockAllocator)
unfolding is_protected
alloc_tail count a = if count == 0 then none else some (take_tail count (last a.by_pos) a)

-- The two steps of coalescing: with the extent that ends where the run starts, and with the one that
-- starts where it ends.
abbrev pub join_before : Option (ℕ × ℕ) → Run → BlockAllocator → Run × BlockAllocator
join_before none run a = (run, a)
join_before (some (p, pc)) run a =
    if p + pc == run.start then (run_at p (run.count + pc), remove_extent p pc a) else (run, a)

abbrev pub join_after : Option ℕ → Run → BlockAllocator → Run × BlockAllocator
join_after none run a = (run, a)
join_after (some sc) run a = (run_at run.start (run.count + sc), remove_extent (run_end run) sc a)

unfoldable pub free_run : Run → BlockAllocator → BlockAllocator
free_run run a =
    let (r1, a1) = join_before (last_below run.start a.by_pos) run a in
    let (r2, a2) = join_after (get (run_end r1) a1.by_pos) r1 a1 in
    insert_extent r2.start r2.count a2

unfoldable pub free : Run → BlockAllocator → BlockAllocator
unfolding is_protected free_run
free run a =
    if run.count == 0
    then a
    else if is_protected a run
    then record a { pending = a.pending ++ (run ∷ []) }
    else free_run run a

-- `for run in pending { self.free(run) }`, the list taken out first.
unfoldable pub free_all : List Run → BlockAllocator → BlockAllocator
free_all [] a = a
free_all (run ∷ runs) a = free_all runs (free run a)

unfoldable pub retry_pending : BlockAllocator → BlockAllocator
unfolding free_all
retry_pending a = free_all a.pending (record a { pending = [] })

-- The runs with blocks, collected into a map.
unfoldable pub collect : List Run → PosMap → PosMap
collect [] m = m
collect (run ∷ runs) m = collect runs (if run.count == 0 then m else insert run.start run.count m)

unfoldable pub set_protected : List Run → BlockAllocator → BlockAllocator
unfolding collect retry_pending
set_protected runs a =
    retry_pending (record a { previous = a.protected; protected = collect runs [] })

unfoldable pub release_previous : BlockAllocator → BlockAllocator
unfolding retry_pending
release_previous a = retry_pending (record a { previous = [] })

-- The new state, and the number of blocks reclaimed.
abbrev pub cut_tail : Option (ℕ × ℕ) → BlockAllocator → BlockAllocator × ℕ
cut_tail none a = (a, 0)
cut_tail (some (start, count)) a =
    if start + count == a.total_blocks
    then (record (remove_extent start count a) { total_blocks = start }, count)
    else (a, 0)

unfoldable pub truncate : BlockAllocator → BlockAllocator × ℕ
truncate a = cut_tail (last a.by_pos) a
