-- ===== src/Fuzzy/Distance/Table.antt =====
-- crates/wavedb-core/src/fuzzy/distance.rs: the whole table of two texts, the reference of the banded one.
use wavedb.Base.{ℕ, zero, suc, ◌+◌, ◌≤◌, ◌<◌, ◌≡◌, refl, ap, arith, min, List, [], ◌∷◌, length, All}
use wavedb.Fuzzy.Distance.{differs, range, cell_at}

-- The whole table, row by row: no band, no early exit.
abbrev pub full_row : ℕ → List ℕ → List ℕ → ℕ → List ℕ
full_row cb (x ∷ a) (p ∷ q ∷ prev) left =
    let cell : ℕ = min (min (p + differs x cb) (q + 1)) (left + 1) in
    cell ∷ full_row cb a (q ∷ prev) cell
full_row cb a prev left = []

abbrev pub full_loop : List ℕ → ℕ → List ℕ → List ℕ → ℕ
full_loop a j prev [] = cell_at prev (length a)
full_loop a j prev (cb ∷ b) = full_loop a (j + 1) ((j + 1) ∷ full_row cb a prev (j + 1)) b

-- The edit distance, with the first text as the row.
abbrev pub distance : List ℕ → List ℕ → ℕ
distance a b = full_loop a 0 (range 0 (length a + 1)) b

pub length-full_row :
    (cb : ℕ) (a prev : List ℕ) (left : ℕ)
    → length prev ≡ suc (length a)
    → length (full_row cb a prev left) ≡ length a
length-full_row cb [] prev left h = refl
length-full_row cb (x ∷ a) [] left h = absurd (omega (arith, h))
length-full_row cb (x ∷ a) (p ∷ []) left h = absurd (omega (arith, h))
length-full_row cb (x ∷ a) (p ∷ q ∷ prev) left h =
    ap suc (length-full_row cb a (q ∷ prev) _ (omega (arith, h)))

-- Rows above `k` stay above it.
pub full_row-Above :
    (k cb : ℕ) (a prev : List ℕ) (left : ℕ)
    → All (λ f. k < f) prev
    → k < left
    → All (λ f. k < f) (full_row cb a prev left)
full_row-Above k cb [] prev left h l = tt
full_row-Above k cb (x ∷ a) [] left h l = tt
full_row-Above k cb (x ∷ a) (p ∷ []) left h l = tt
full_row-Above k cb (x ∷ a) (p ∷ q ∷ prev) left (hp, (hq, h)) l =
    let above : k < min (min (p + differs x cb) (q + 1)) (left + 1) = omega (arith, hp, hq, l) in
    (above, full_row-Above k cb a (q ∷ prev) _ (hq, h) above)

pub cell_at-Above : (k n : ℕ) (fs : List ℕ) → All (λ f. k < f) fs → n < length fs → k < cell_at fs n
cell_at-Above k n [] h l = absurd (omega (arith, l))
cell_at-Above k zero (f ∷ fs) (h, hs) l = h
cell_at-Above k (suc n) (f ∷ fs) (h, hs) l = cell_at-Above k n fs hs (omega (arith, l))

pub full_loop-Above :
    (k : ℕ) (a : List ℕ) (j : ℕ) (prev b : List ℕ)
    → length prev ≡ suc (length a)
    → All (λ f. k < f) prev
    → k ≤ j
    → k < full_loop a j prev b
full_loop-Above k a j prev [] n h l = cell_at-Above k (length a) prev h (omega (arith, n))
full_loop-Above k a j prev (cb ∷ b) n h l =
    full_loop-Above k a (j + 1) _ b (ap suc (length-full_row cb a prev (j + 1) n))
      (omega (arith, l), full_row-Above k cb a prev (j + 1) h (omega (arith, l))) (omega (arith, l))
