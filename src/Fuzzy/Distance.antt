-- ===== src/Fuzzy/Distance.antt =====
-- crates/wavedb-core/src/fuzzy/distance.rs: the banded edit distance. A text is its codepoints.
pub mod Table
pub mod Rows
pub mod Band
use wavedb.Base.{
  ℕ, zero, suc, ◌+◌, ◌-◌, ◌^◌, min, List, [], ◌∷◌, length, Bool, true, false, ◌&&◌, ◌||◌, Option,
  none, some, ltb, leb, ◌==◌, if◌then◌else◌,
}

abbrev pub usize_max : ℕ
usize_max = 2 ^ 64 - 1

abbrev pub saturating_add : ℕ → ℕ → ℕ
saturating_add m n = min (m + n) usize_max

abbrev pub abs_diff : ℕ → ℕ → ℕ
abs_diff m n = (m - n) + (n - m)

-- `usize::from(x != c)`.
abbrev pub differs : ℕ → ℕ → ℕ
differs x c = if x == c then 0 else 1

-- `(s..s + n).collect()`.
abbrev pub range : ℕ → ℕ → List ℕ
range s zero = []
range s (suc n) = s ∷ range (suc s) n

-- `v[i]`. An index past the end is out of range in the source; here it gives 0.
abbrev pub cell_at : List ℕ → ℕ → ℕ
cell_at [] i = 0
cell_at (c ∷ cs) zero = c
cell_at (c ∷ cs) (suc i) = cell_at cs i

-- The smallest cell, `usize::MAX` of none.
abbrev pub best_of : List ℕ → ℕ
best_of [] = usize_max
best_of (c ∷ cs) = min c (best_of cs)

-- `j + 1 + k` is taken as it is: it overflows in the source where it exceeds `usize::MAX`.
-- The inner loop from the column `i` on: `prev` begins at the column before, `left` is the cell
-- there. The row is that of `j + 1` characters.
unfoldable pub band_row : ℕ → ℕ → ℕ → ℕ → ℕ → List ℕ → List ℕ → ℕ → List ℕ
band_row k width j cb i (x ∷ a) (p ∷ q ∷ prev) left =
    let lo : ℕ = (j + 1) - k in
    let hi : ℕ = min (j + 1 + k) width in
    let cell : ℕ =
      if ltb i lo || ltb hi i
      then usize_max
      else min (min (saturating_add p (differs x cb)) (saturating_add q 1))
          (saturating_add left 1) in
    cell ∷ band_row k width j cb (suc i) a (q ∷ prev) cell
band_row k width j cb i a prev left = []

-- The outer loop over `b`, from the row `j` on.
unfoldable pub band_loop : ℕ → List ℕ → ℕ → List ℕ → List ℕ → Option ℕ
unfolding band_row
band_loop k a j prev [] = let d = cell_at prev (length a) in if leb d k then some d else none
band_loop k a j prev (cb ∷ b) =
    let cells : List ℕ = band_row k (length a) j cb 1 a prev (j + 1) in
    let rest = band_loop k a (j + 1) ((j + 1) ∷ cells) b in
    if ltb k (best_of cells) && ltb k (j + 1) then none else rest

unfoldable pub levenshtein_within : List ℕ → List ℕ → ℕ → Option ℕ
unfolding band_loop
levenshtein_within a b k =
    if ltb k (abs_diff (length a) (length b))
    then none
    else if leb (length a) (length b)
    then band_loop k a 0 (range 0 (length a + 1)) b
    else band_loop k b 0 (range 0 (length b + 1)) a
