-- ===== src/Blocks/Alloc/Covers.antt =====
-- The single probe by which `covers` tells whether a run meets a set of runs.
use wavedb.Base.{
  ℕ, ◌+◌, ◌≤◌, ◌<◌, ◌≡◌, ◌↔◌, refl, arith, [], ◌∷◌, Bool, true, false, ◌&&◌, ◌||◌, ltb, some, max,
  Bool-cases, Option-cases, inl, inr,
}
use wavedb.Blocks.Descriptor.{Run, run_end}
use wavedb.Blocks.Extents.{PosMap, last_below}
use wavedb.Blocks.Extents.Free.{in_extent, free_at}
use wavedb.Blocks.Alloc.{reaches, covers}

-- The runs of a set have blocks, and no two share one.
abbrev pub AreDisjoint : ℕ → PosMap → Type 0
AreDisjoint lo [] = Unit {0}
AreDisjoint lo ((s, c) ∷ m) = (lo ≤ s) × (0 < c) × AreDisjoint (s + c) m

-- Some run of the set shares a block with `run`: each is asked.
abbrev meets : PosMap → ℕ → ℕ → Bool
meets [] start end = false
meets ((s, c) ∷ m) start end = (ltb s end && ltb start (s + c)) || meets m start end

last_below_from :
    (lo : ℕ) (m : PosMap) (k : ℕ) (e : ℕ × ℕ)
    → AreDisjoint lo m
    → last_below k m ≡ some e
    → (lo ≤ e.0) × (0 < e.1)
unfolding last_below
last_below_from lo [] k e a h = cc
last_below_from lo ((s, c) ∷ m) k e a h = ground (arith, last_below_from (s + c) m k e a.2)

meets_behind :
    (lo : ℕ) (m : PosMap) (start end : ℕ) → AreDisjoint lo m → end ≤ lo → meets m start end ≡ false
meets_behind lo [] start end a h = refl
meets_behind lo ((s, c) ∷ m) start end a h = ground (arith, meets_behind (s + c) m start end a.2)

reaches-meets :
    (lo : ℕ) (m : PosMap) (start end : ℕ)
    → AreDisjoint lo m
    → reaches (last_below end m) start ≡ meets m start end
unfolding last_below
reaches-meets lo [] start end a = refl
reaches-meets lo ((s, c) ∷ m) start end a = elim (Option-cases (last_below end m)) [
  | inl nothing ↦
      ground (arith, reaches-meets (s + c) m start end a.2, meets_behind (s + c) m start end a.2)
  | inr (e, later) ↦ ground (
    arith,
    reaches-meets (s + c) m start end a.2,
    meets_behind (s + c) m start end a.2,
    last_below_from (s + c) m end e a.2 later,
  )
]

meets_block :
    (lo : ℕ) (m : PosMap) (start count : ℕ)
    → AreDisjoint lo m
    → 0 < count
    → meets m start (start + count) ≡ true
    → (b : ℕ) × (in_extent start count b ≡ true) × (free_at m b ≡ true)
unfolding free_at
meets_block lo [] start count a pos h = cc
meets_block lo ((s, c) ∷ m) start count a pos h =
    elim (Bool-cases (ltb s (start + count) && ltb start (s + c))) [
      | inl here ↦ (max s start, ground arith, ground arith)
      | inr there ↦
          let (b, e, f) = meets_block (s + c) m start count a.2 pos (ground arith) in
          (b, e, ground arith)
    ]

block_meets :
    (m : PosMap) (start count b : ℕ)
    → in_extent start count b ≡ true
    → free_at m b ≡ true
    → meets m start (start + count) ≡ true
unfolding free_at
block_meets [] start count b e f = cc
block_meets ((s, c) ∷ m) start count b e f = ground (arith, block_meets m start count b e)

-- For runs that share no block, the single probe of `covers` tells whether a run of at least one
-- block shares a block with some run of the set.
pub covers_iff :
    (m : PosMap) (r : Run)
    → AreDisjoint 0 m
    → 0 < r.count
    → (covers m r ≡ true) ↔ ((b : ℕ) × (in_extent r.start r.count b ≡ true) × (free_at m b ≡ true))
unfolding covers
covers_iff m r a pos = (
  λ h.
      meets_block 0 m r.start r.count a pos
        (ground (arith, reaches-meets 0 m r.start (run_end r) a)),
  λ (b, e, f).
      ground (arith, reaches-meets 0 m r.start (run_end r) a, block_meets m r.start r.count b e f),
)
