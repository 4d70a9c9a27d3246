-- ===== src/Blocks/Alloc/Layout/Order.antt =====
-- The order of the runs in use that `from_layout` walks.
use wavedb.Base.{
  ℕ, ◌-◌, ◌≤◌, ◌<◌, ◌≡◌, ◌∙◌, true, inl, inr, refl, arith, List, [], ◌∷◌, Bool-cases, false, ◌||◌,
  ltb, leb,
}
use wavedb.Blocks.Descriptor.{Run, run_end}
use wavedb.Blocks.Alloc.Deferred.{run_has, listed}
use wavedb.Blocks.Alloc.Layout.{with_blocks, insert_run, sort_runs}
use wavedb.Blocks.Alloc.Collect.{ShareNone}

-- Runs with blocks, in order and apart, from `cursor` on and inside a file of `t` blocks.
abbrev pub AreOrdered : ℕ → List Run → ℕ → Type 0
AreOrdered cursor [] t = cursor ≤ t
AreOrdered cursor (r ∷ rs) t = (cursor ≤ r.start) × (0 < r.count) × AreOrdered (run_end r) rs t

listed-insert_run :
    (r : Run) (rs : List Run) (b : ℕ) → listed (insert_run r rs) b ≡ (run_has r b || listed rs b)
unfolding listed insert_run
listed-insert_run r [] b = refl
listed-insert_run r (s ∷ rs) b = ground (arith, listed-insert_run r rs b)

pub listed-sort_runs : (rs : List Run) (b : ℕ) → listed (sort_runs rs) b ≡ listed rs b
unfolding listed sort_runs
listed-sort_runs [] b = refl
listed-sort_runs (r ∷ rs) b =
    ground (arith, listed-insert_run r (sort_runs rs) b, listed-sort_runs rs b)

pub listed-with_blocks : (rs : List Run) (b : ℕ) → listed (with_blocks rs) b ≡ listed rs b
unfolding listed with_blocks
listed-with_blocks [] b = refl
listed-with_blocks (r ∷ rs) b = ground (arith, listed-with_blocks rs b)

insert_run-AreOrdered :
    (lo : ℕ) (r : Run) (rs : List Run) (t : ℕ)
    → AreOrdered lo rs t
    → lo ≤ r.start
    → 0 < r.count
    → run_end r ≤ t
    → ((b : ℕ) → run_has r b ≡ true → listed rs b ≡ false)
    → AreOrdered lo (insert_run r rs) t
unfolding insert_run listed
insert_run-AreOrdered lo r [] t o h pos inside apart = (h, pos, inside)
insert_run-AreOrdered lo r (s ∷ rs) t o h pos inside apart =
    elim (Bool-cases (leb r.start s.start)) [
      | inl before ↦
          let fits : run_end r ≤ s.start = ground (arith, apart s.start, o.1, before) in
          rw before (h, pos, (fits, o.1, o.2))
      | inr behind ↦
          let past : run_end s ≤ r.start = ground (arith, apart r.start, behind, pos) in
          rw behind (
            o.0,
            o.1,
            insert_run-AreOrdered (run_end s) r rs t o.2 past pos inside
                (λ b e. ground (arith, apart b e)),
          )
    ]

-- Runs that share no block, in the order of their starts.
pub used-AreOrdered :
    (total : ℕ) (used : List Run)
    → ShareNone used
    → ((b : ℕ) → listed used b ≡ true → b < total)
    → AreOrdered 0 (sort_runs (with_blocks used)) total
unfolding sort_runs with_blocks listed
used-AreOrdered total [] none inside = omega arith
used-AreOrdered total (r ∷ used) (own, none) inside =
    let rest = used-AreOrdered total used none (λ b e. inside b (ground (arith, e))) in
    elim (Bool-cases (ltb 0 r.count)) [
      | inl some_blocks ↦
          let fits : run_end r ≤ total = ground (arith, inside (run_end r - 1), some_blocks) in
          rw some_blocks (
            insert_run-AreOrdered 0 r (sort_runs (with_blocks used)) total rest (omega arith)
              (ground arith) fits
              (λ b e.
                listed-sort_runs (with_blocks used) b ∙ (listed-with_blocks used b ∙ own b e)))
      | inr nothing ↦ rw nothing rest
    ]
