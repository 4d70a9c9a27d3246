-- ===== src/Fuzzy/Distance/Band.antt =====
-- The banded distance agrees with the whole table.
use wavedb.Base.{
  ℕ, zero, suc, ◌+◌, ◌≤◌, ◌<◌, ◌≡◌, refl, sym, ap, ◌∙◌, arith, List, [], ◌∷◌, length, true, ◌&&◌,
  Option, none, some, ltb, leb, if◌then◌else◌, Bool-cases, inl, inr,
}
use wavedb.Fuzzy.Distance.{
  usize_max, abs_diff, range, cell_at, best_of, band_row, band_loop, levenshtein_within,
}
use wavedb.Fuzzy.Distance.Table.{full_row, full_loop, distance, length-full_row, full_loop-Above}
use wavedb.Fuzzy.Distance.Rows.{Agree, Rows, range-Rows, cell_at-Cells, Rows-Above, next-Rows}

-- The distance, where it is within `k`.
abbrev pub within : ℕ → ℕ → Option ℕ
within k d = if leb d k then some d else none

within-none : (k d : ℕ) → k < d → within k d ≡ none
within-none k d h = ground arith

stopped : (k m n : ℕ) → (ltb k m && ltb k n) ≡ true → (k < m) × (k < n)
stopped k m n h = ground arith

band_loop-within :
    (k : ℕ) (a : List ℕ) (j : ℕ) (prev prev' b : List ℕ)
    → k < usize_max
    → length prev' ≡ suc (length a)
    → Rows k j 0 prev prev'
    → band_loop k a j prev b ≡ within k (full_loop a j prev' b)
unfolding band_loop
band_loop-within k a j prev prev' [] kb n r =
    let (e, lo, hi) = cell_at-Cells k j 0 (length a) prev prev' r (omega (arith, n)) in
    last_cell (cell_at prev (length a)) (cell_at prev' (length a)) e
  where
    last_cell : (c f : ℕ) → Agree k c f → within k c ≡ within k f
    last_cell c f e = ground arith
band_loop-within k a j prev prev' (cb ∷ b) kb n r =
    let cells : List ℕ = band_row k (length a) j cb 1 a prev (j + 1) in
    let row : List ℕ = full_row cb a prev' (j + 1) in
    let next = next-Rows k j cb a prev prev' kb r in
    let wide : length ((j + 1) ∷ row) ≡ suc (length a) =
      ap suc (length-full_row cb a prev' (j + 1) n) in
    elim (Bool-cases (ltb k (best_of cells) && ltb k (j + 1))) [
      | inl stop ↦ rw stop (
          sym (
            within-none k _ (
              full_loop-Above k a (j + 1) ((j + 1) ∷ row) b wide
                (
                  (stopped k (best_of cells) (j + 1) stop).1,
                  Rows-Above k (j + 1) 1 cells row next.1
                      (stopped k (best_of cells) (j + 1) stop).0,
                )
                (omega (arith, (stopped k (best_of cells) (j + 1) stop).1)))))
      | inr go ↦
          rw go (band_loop-within k a (j + 1) ((j + 1) ∷ cells) ((j + 1) ∷ row) b kb wide next)
    ]

-- The length of the texts is a bound of the distance from below.
full_loop-bounds :
    (k : ℕ) (a : List ℕ) (j : ℕ) (prev prev' b : List ℕ)
    → k < usize_max
    → length prev' ≡ suc (length a)
    → Rows k j 0 prev prev'
    → (length a ≤ full_loop a j prev' b + (j + length b))
      × (j + length b ≤ full_loop a j prev' b + length a)
full_loop-bounds k a j prev prev' [] kb n r =
    let (e, lo, hi) = cell_at-Cells k j 0 (length a) prev prev' r (omega (arith, n)) in
    (omega (arith, lo), omega (arith, hi))
full_loop-bounds k a j prev prev' (cb ∷ b) kb n r =
    let (lo, hi) =
      full_loop-bounds k a (j + 1) ((j + 1) ∷ band_row k (length a) j cb 1 a prev (j + 1))
        ((j + 1) ∷ full_row cb a prev' (j + 1)) b kb (ap suc (length-full_row cb a prev' (j + 1) n))
        (next-Rows k j cb a prev prev' kb r) in
    (omega (arith, lo), omega (arith, hi))

length-range : (s n : ℕ) → length (range s n) ≡ n
length-range s zero = refl
length-range s (suc n) = ap suc (length-range (suc s) n)

-- One orientation of the two texts.
one_side :
    (k : ℕ) (a b : List ℕ)
    → k < usize_max
    → (band_loop k a 0 (range 0 (length a + 1)) b ≡ within k (distance a b))
      × (length a ≤ distance a b + length b)
      × (length b ≤ distance a b + length a)
one_side k a b kb =
    let start = range-Rows k 0 (length a + 1) in
    let wide : length (range 0 (length a + 1)) ≡ suc (length a) =
      length-range 0 (length a + 1) ∙ omega arith in
    let bounds =
      full_loop-bounds k a 0 (range 0 (length a + 1)) (range 0 (length a + 1)) b kb wide start in
    (band_loop-within k a 0 _ _ b kb wide start, omega (arith, bounds.0), omega (arith, bounds.1))

-- If the lengths of two texts and the bound stay together below `usize::MAX`, the banded distance
-- of the texts, with its rejection by length and its early exit, is the last cell of the whole
-- table of the two, the shorter one as the row, where that is within the bound, and none otherwise.
pub levenshtein_within-distance :
    (a b : List ℕ) (k : ℕ)
    → length a + length b + k < usize_max
    → levenshtein_within a b k
      ≡ within k (if leb (length a) (length b) then distance a b else distance b a)
unfolding levenshtein_within
levenshtein_within-distance a b k sum =
    let kb : k < usize_max = omega (arith, sum) in
    let (ab, ab_lo, ab_hi) = one_side k a b kb in
    let (ba, ba_lo, ba_hi) = one_side k b a kb in
    let far_ab : k < abs_diff (length a) (length b) → k < distance a b =
      λ d. omega (arith, d, ab_lo, ab_hi) in
    let far_ba : k < abs_diff (length a) (length b) → k < distance b a =
      λ d. omega (arith, d, ba_lo, ba_hi) in
    ground
      (arith, ab, ba, within-none k (distance a b), within-none k (distance b a), far_ab, far_ba)
