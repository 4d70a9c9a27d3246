-- ===== src/Blocks/Alloc/Collect.antt =====
-- The runs of a checkpoint, collected into a map: it has their blocks, and its entries share none.
use wavedb.Base.{
  ℕ, ◌+◌, ◌≤◌, ◌<◌, ◌≡◌, refl, arith, List, [], ◌∷◌, true, false, ◌||◌, ◌==◌, Bool-cases, inl, inr,
  ltb,
}
use wavedb.Blocks.Descriptor.{Run}
use wavedb.Blocks.Extents.{PosMap, insert}
use wavedb.Blocks.Extents.Free.{in_extent, free_at}
use wavedb.Blocks.Alloc.{collect}
use wavedb.Blocks.Alloc.Covers.{AreDisjoint}
use wavedb.Blocks.Alloc.Deferred.{run_has, listed}

-- No block belongs to two runs of the list.
abbrev pub ShareNone : List Run → Type 0
ShareNone [] = Unit {0}
ShareNone (r ∷ rs) = ((b : ℕ) → run_has r b ≡ true → listed rs b ≡ false) × ShareNone rs

insert-AreDisjoint :
    (lo s c : ℕ) (m : PosMap)
    → AreDisjoint lo m
    → lo ≤ s
    → 0 < c
    → ((b : ℕ) → in_extent s c b ≡ true → free_at m b ≡ false)
    → AreDisjoint lo (insert s c m)
      × ((b : ℕ) → free_at (insert s c m) b ≡ (in_extent s c b || free_at m b))
unfolding insert free_at
insert-AreDisjoint lo s c [] d h pos apart = ((h, pos, tt), λ b. refl)
insert-AreDisjoint lo s c ((j, w) ∷ m) d h pos apart = elim (Bool-cases (ltb s j)) [
  | inl before ↦
      let fits : s + c ≤ j = ground (arith, apart j, d.1, before) in
      rw before ((h, pos, (fits, d.1, d.2)), λ b. refl)
  | inr behind ↦
      let past : j + w ≤ s = ground (arith, apart s, behind, pos) in
      let (d', blocks) =
        insert-AreDisjoint (j + w) s c m d.2 past pos (λ b e. ground (arith, apart b e)) in
      let apart_keys : (j == s) ≡ false = ground (arith, past, d.1) in
      rw (behind, apart_keys) ((d.0, d.1, d'), λ b. ground (arith, blocks b))
]

collect_lem :
    (runs : List Run) (m : PosMap)
    → AreDisjoint 0 m
    → ShareNone runs
    → ((b : ℕ) → listed runs b ≡ true → free_at m b ≡ false)
    → AreDisjoint 0 (collect runs m)
      × ((b : ℕ) → free_at (collect runs m) b ≡ (listed runs b || free_at m b))
unfolding collect listed
collect_lem [] m d none apart = (d, λ b. refl)
collect_lem (r ∷ runs) m d (own, none) apart = elim (Bool-cases (r.count == 0)) [
  | inl nothing ↦
      let (d', blocks) = collect_lem runs m d none (λ b e. apart b (ground (arith, e))) in
      rw nothing (d', λ b. ground (arith, blocks b, nothing))
  | inr some_blocks ↦
      let (di, new) =
        insert-AreDisjoint 0 r.start r.count m d (omega arith) (ground (arith, some_blocks))
          (λ b e. apart b (ground (arith, e))) in
      let (d', blocks) =
        collect_lem runs (insert r.start r.count m) di none
          (λ b e. ground (arith, e, new b, own b, apart b)) in
      rw some_blocks (d', λ b. ground (arith, blocks b, new b))
]

pub collect-AreDisjoint :
    (runs : List Run)
    → ShareNone runs
    → AreDisjoint 0 (collect runs []) × ((b : ℕ) → free_at (collect runs []) b ≡ listed runs b)
unfolding free_at
collect-AreDisjoint runs none =
    let (d, blocks) = collect_lem runs [] tt none (λ b e. refl) in
    (d, λ b. ground (arith, blocks b))
