-- ===== src/Blocks/Alloc/Layout/Gaps.antt =====
-- The gaps that `from_layout` frees.
use wavedb.Base.{
  ℕ, ◌+◌, ◌-◌, ◌≤◌, ◌<◌, ◌≡◌, true, inl, inr, refl, arith, List, [], ◌∷◌, Bool-cases, false, not,
  ◌&&◌, ◌||◌, ltb, leb, some,
}
use wavedb.Blocks.Descriptor.{Run, run_end}
use wavedb.Blocks.Extents.{get, has_size}
use wavedb.Blocks.Extents.Laws.{get-insert, IsClear}
use wavedb.Blocks.Extents.Free.{free_at, free_at-insert}
use wavedb.Blocks.Alloc.{BlockAllocator, empty, insert_extent}
use wavedb.Blocks.Alloc.Valid.{IsValid, is_free, insert_extent-IsValid}
use wavedb.Blocks.Alloc.Take.{clear_none}
use wavedb.Blocks.Alloc.Deferred.{listed}
use wavedb.Blocks.Alloc.Layout.{with_blocks, sort_runs, fill_gap, fill_gaps, from_layout}
use wavedb.Blocks.Alloc.Collect.{ShareNone}
use wavedb.Blocks.Alloc.Layout.Order.{
  AreOrdered, listed-sort_runs, listed-with_blocks, used-AreOrdered,
}

-- No free extent touches `cursor` or lies behind it.
abbrev IsBehind : ℕ → BlockAllocator → Type 0
IsBehind cursor a = (j w : ℕ) → get j a.by_pos ≡ some w → j + w < cursor

-- One gap.
record IsGap (cursor end : ℕ) (a a' : BlockAllocator) : Type 0 where
  valid : IsValid a'
  total : a'.total_blocks ≡ a.total_blocks
  freed : (b : ℕ) → is_free a' b ≡ ((leb cursor b && ltb b end) || is_free a b)
  behind : (j w : ℕ) → get j a'.by_pos ≡ some w → j + w ≤ end

fill_gap-IsGap :
    (cursor end : ℕ) (a : BlockAllocator)
    → IsValid a
    → IsBehind cursor a
    → cursor ≤ end
    → end ≤ a.total_blocks
    → IsGap cursor end a (fill_gap cursor end a)
unfolding fill_gap insert_extent
fill_gap-IsGap cursor end a v behind order room =
    let clear : IsClear cursor (end - cursor) a.by_pos = λ j w e. inl (behind j w e) in
    elim (Bool-cases (ltb cursor end)) [
      | inl gap ↦ rw gap (record {
        valid =
            insert_extent-IsValid a cursor (end - cursor) v clear
              (clear_none cursor (end - cursor) a.by_pos clear) (ground arith) (omega arith);
        total = refl;
        freed = λ b.
            ground (
              arith,
              free_at-insert 0 a.by_pos a.total_blocks cursor (end - cursor) b v.apart clear,
            );
        behind = λ j w e. ground (arith, get-insert cursor (end - cursor) a.by_pos j, behind j w);
      })
      | inr closed ↦ rw closed (record {
        valid = v;
        total = refl;
        freed = λ b. ground arith;
        behind = λ j w e. omega (arith, behind j w e, order);
      })
    ]

ordered_end : (cursor : ℕ) (rs : List Run) (t : ℕ) → AreOrdered cursor rs t → cursor ≤ t
ordered_end cursor [] t o = o
ordered_end cursor (r ∷ rs) t o = omega (arith, o.0, o.1, ordered_end (run_end r) rs t o.2)

listed_ordered :
    (cursor : ℕ) (rs : List Run) (t b : ℕ)
    → AreOrdered cursor rs t
    → b < cursor
    → listed rs b ≡ false
unfolding listed
listed_ordered cursor [] t b o h = refl
listed_ordered cursor (r ∷ rs) t b o h = ground (arith, listed_ordered (run_end r) rs t b o.2)

fill_gaps_lem :
    (rs : List Run) (cursor : ℕ) (a : BlockAllocator)
    → IsValid a
    → IsBehind cursor a
    → AreOrdered cursor rs a.total_blocks
    → IsValid (fill_gaps rs cursor a)
      × ((b : ℕ)
          → is_free (fill_gaps rs cursor a) b
            ≡ ((leb cursor b && ltb b a.total_blocks && not (listed rs b)) || is_free a b))
unfolding fill_gaps listed
fill_gaps_lem [] cursor a v behind o =
    let g = fill_gap-IsGap cursor a.total_blocks a v behind o (omega arith) in
    (g.valid, λ b. ground (arith, g.freed b))
fill_gaps_lem (r ∷ rs) cursor a v behind o =
    let end = ordered_end (run_end r) rs a.total_blocks o.2 in
    let g = fill_gap-IsGap cursor r.start a v behind o.0 (omega (arith, end)) in
    let (valid, freed) =
      fill_gaps_lem rs (run_end r) (fill_gap cursor r.start a) g.valid
        (λ j w e. omega (arith, g.behind j w e, o.1)) (rw g.total o.2) in
    (
      valid,
      λ b.
          ground (
            arith,
            freed b,
            g.freed b,
            g.total,
            listed_ordered (run_end r) rs a.total_blocks b o.2,
          ),
    )

empty-IsValid : (total : ℕ) → IsValid (record empty { total_blocks = total })
unfolding get has_size
empty-IsValid total = record { apart = tt; synced = λ c s. refl; ascending = tt }

-- From runs in use that share no block and whose blocks are inside the file, named in any order,
-- `from_layout` makes a valid allocator in which a block of the file is free exactly when no run
-- has it.
pub from_layout-IsValid :
    (total : ℕ) (used : List Run)
    → ShareNone used
    → ((b : ℕ) → listed used b ≡ true → b < total)
    → IsValid (from_layout total used)
      × ((b : ℕ) → is_free (from_layout total used) b ≡ (ltb b total && not (listed used b)))
unfolding from_layout free_at get
from_layout-IsValid total used none inside =
    let start : BlockAllocator = record empty { total_blocks = total } in
    let (valid, freed) =
      fill_gaps_lem (sort_runs (with_blocks used)) 0 start (empty-IsValid total)
        (λ j w e. ground arith) (used-AreOrdered total used none inside) in
    (
      valid,
      λ b.
          ground (arith, freed b, listed-sort_runs (with_blocks used) b, listed-with_blocks used b),
    )
