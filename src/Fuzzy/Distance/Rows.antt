-- ===== src/Fuzzy/Distance/Rows.antt =====
-- The rows of the banded table agree with those of the whole table as far as the bound.
use wavedb.Base.{
  ℕ, zero, suc, ◌+◌, ◌-◌, ◌≤◌, ◌<◌, ◌≡◌, refl, arith, min, List, [], ◌∷◌, length, All, true, ◌||◌,
  ltb, if◌then◌else◌, Bool-cases, inl, inr,
}
use wavedb.Fuzzy.Distance.{usize_max, saturating_add, differs, range, cell_at, best_of, band_row}
use wavedb.Fuzzy.Distance.Table.{full_row}

-- Cells of one column agree as far as `k`, and the cell of the whole table is no less than the
-- distance of its column from its row.
abbrev pub Agree : ℕ → ℕ → ℕ → Type 0
Agree k c f = min c (k + 1) ≡ min f (k + 1)

abbrev pub Cells : ℕ → ℕ → ℕ → ℕ → ℕ → Type 0
Cells k j i c f = Agree k c f × (i ≤ f + j) × (j ≤ f + i)

abbrev pub Rows : ℕ → ℕ → ℕ → List ℕ → List ℕ → Type 0
Rows k j i [] [] = Unit
Rows k j i [] (f ∷ fs) = ⊥
Rows k j i (c ∷ cs) [] = ⊥
Rows k j i (c ∷ cs) (f ∷ fs) = Cells k j i c f × Rows k j (suc i) cs fs

add_agrees : (k d p p' : ℕ) → k < usize_max → Agree k p p' → Agree k (saturating_add p d) (p' + d)
add_agrees k d p p' kb h = omega (arith, kb, h)

min_agrees : (k a b a' b' : ℕ) → Agree k a a' → Agree k b b' → Agree k (min a b) (min a' b')
min_agrees k a b a' b' h g = omega (arith, h, g)

cell_agrees :
    (k d p q left p' q' left' : ℕ)
    → k < usize_max
    → Agree k p p'
    → Agree k q q'
    → Agree k left left'
    → Agree k
        (min (min (saturating_add p d) (saturating_add q 1)) (saturating_add left 1))
        (min (min (p' + d) (q' + 1)) (left' + 1))
cell_agrees k d p q left p' q' left' kb hp hq hl =
    min_agrees k _ _ _ _
      (min_agrees k _ _ _ _ (add_agrees k d p p' kb hp) (add_agrees k 1 q q' kb hq))
      (add_agrees k 1 left left' kb hl)

-- Outside the band every cell of the whole table is above `k`.
outside :
    (k j i width f : ℕ)
    → k < usize_max
    → i ≤ width
    → i ≤ f + j
    → j ≤ f + i
    → (ltb i (j - k) || ltb (min (j + k) width) i) ≡ true
    → Agree k usize_max f
outside k j i width f kb w lo hi e = ground arith

-- A cell inside or outside the band.
next_cell :
    (k j i width d p q left p' q' left' : ℕ)
    → k < usize_max
    → d ≤ 1
    → suc i ≤ width
    → Cells k j i p p'
    → Cells k j (suc i) q q'
    → Cells k (j + 1) i left left'
    → Cells k
        (j + 1)
        (suc i)
        (if ltb (suc i) ((j + 1) - k) || ltb (min (j + 1 + k) width) (suc i)
          then usize_max
          else min (min (saturating_add p d) (saturating_add q 1)) (saturating_add left 1))
        (min (min (p' + d) (q' + 1)) (left' + 1))
next_cell k j i width d p q left p' q' left' kb hd w hp hq hl =
    let lo : suc i ≤ min (min (p' + d) (q' + 1)) (left' + 1) + (j + 1) =
      omega (arith, hp.1, hq.1, hl.1) in
    let hi : j + 1 ≤ min (min (p' + d) (q' + 1)) (left' + 1) + suc i =
      omega (arith, hp.2, hq.2, hl.2) in
    (
      elim (Bool-cases (ltb (suc i) ((j + 1) - k) || ltb (min (j + 1 + k) width) (suc i))) [
        | inl out ↦ rw out (outside k (j + 1) (suc i) width _ kb w lo hi out)
        | inr inside ↦ rw inside (cell_agrees k d p q left p' q' left' kb hp.0 hq.0 hl.0)
      ],
      lo,
      hi,
    )

differs_le : (x c : ℕ) → differs x c ≤ 1
differs_le x c = ground arith

pub row-Rows :
    (k j cb width i : ℕ) (a prev prev' : List ℕ) (left left' : ℕ)
    → k < usize_max
    → i + length a ≤ width
    → Rows k j i prev prev'
    → Cells k (j + 1) i left left'
    → Rows k (j + 1) (suc i) (band_row k width j cb (suc i) a prev left) (full_row cb a prev' left')
unfolding band_row
row-Rows k j cb width i [] prev prev' left left' kb w r l = tt
row-Rows k j cb width i (x ∷ a) [] [] left left' kb w r l = tt
row-Rows k j cb width i (x ∷ a) [] (p' ∷ prev') left left' kb w r l = elim r [ ]
row-Rows k j cb width i (x ∷ a) (p ∷ prev) [] left left' kb w r l = elim r [ ]
row-Rows k j cb width i (x ∷ a) (p ∷ []) (p' ∷ []) left left' kb w r l = tt
row-Rows k j cb width i (x ∷ a) (p ∷ []) (p' ∷ q' ∷ prev') left left' kb w r l = elim r.1 [ ]
row-Rows k j cb width i (x ∷ a) (p ∷ q ∷ prev) (p' ∷ []) left left' kb w r l = elim r.1 [ ]
row-Rows k j cb width i (x ∷ a) (p ∷ q ∷ prev) (p' ∷ q' ∷ prev') left left' kb w (hp, (hq, r)) l =
    let cell =
      next_cell k j i width (differs x cb) p q left p' q' left' kb (differs_le x cb)
        (omega (arith, w)) hp hq l in
    (
      cell,
      row-Rows k j cb width (suc i) a (q ∷ prev) (q' ∷ prev') _ _ kb (omega (arith, w)) (hq, r)
          cell,
    )

pub range-Rows : (k i n : ℕ) → Rows k 0 i (range i n) (range i n)
range-Rows k i zero = tt
range-Rows k i (suc n) = ((refl, omega arith, omega arith), range-Rows k (suc i) n)

-- The cells at one index of two rows.
pub cell_at-Cells :
    (k j i n : ℕ) (cs fs : List ℕ)
    → Rows k j i cs fs
    → n < length fs
    → Cells k j (i + n) (cell_at cs n) (cell_at fs n)
cell_at-Cells k j i n [] [] r h = absurd (omega (arith, h))
cell_at-Cells k j i n [] (f ∷ fs) r h = elim r [ ]
cell_at-Cells k j i n (c ∷ cs) [] r h = elim r [ ]
cell_at-Cells k j i zero (c ∷ cs) (f ∷ fs) ((e, lo, hi), r) h =
    (e, omega (arith, lo), omega (arith, hi))
cell_at-Cells k j i (suc n) (c ∷ cs) (f ∷ fs) (_, r) h =
    let (e, lo, hi) = cell_at-Cells k j (suc i) n cs fs r (omega (arith, h)) in
    (e, omega (arith, lo), omega (arith, hi))

pub Rows-Above :
    (k j i : ℕ) (cs fs : List ℕ) → Rows k j i cs fs → k < best_of cs → All (λ f. k < f) fs
Rows-Above k j i [] [] r h = tt
Rows-Above k j i [] (f ∷ fs) r h = elim r [ ]
Rows-Above k j i (c ∷ cs) [] r h = elim r [ ]
Rows-Above k j i (c ∷ cs) (f ∷ fs) ((e, lo, hi), r) h =
    (omega (arith, e, h), Rows-Above k j (suc i) cs fs r (omega (arith, h)))

pub next-Rows :
    (k j cb : ℕ) (a prev prev' : List ℕ)
    → k < usize_max
    → Rows k j 0 prev prev'
    → Rows k
        (j + 1)
        0
        ((j + 1) ∷ band_row k (length a) j cb 1 a prev (j + 1))
        ((j + 1) ∷ full_row cb a prev' (j + 1))
next-Rows k j cb a prev prev' kb r =
    let corner : Cells k (j + 1) 0 (j + 1) (j + 1) = (refl, omega arith, omega arith) in
    (corner, row-Rows k j cb (length a) 0 a prev prev' (j + 1) (j + 1) kb (omega arith) r corner)
