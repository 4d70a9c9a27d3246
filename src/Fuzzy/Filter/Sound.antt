-- ===== src/Fuzzy/Filter/Sound.antt =====
-- The length filter rejects no record that the exact step accepts.
use wavedb.Base.{ℕ, ◌≡◌, refl, ◌≤◌, arith, ◌∷◌, [], ◌++◌, List, length, true, some}
use wavedb.Fuzzy.Distance.{abs_diff, levenshtein_within}
use wavedb.Fuzzy.Filter.{
  distance, saturating_len, field_key, key_len, length_gap, candidate_len, passes_length,
}

key_len-append : (prefix : List ℕ) (x : ℕ) → key_len (prefix ++ x ∷ []) ≡ some x
key_len-append [] x = refl
key_len-append (y ∷ []) x = refl
key_len-append (y ∷ z ∷ prefix) x = key_len-append (z ∷ prefix) x

-- A posting key carries the length of its text, cut to a byte.
candidate_len-field_key :
    (prefix : List ℕ) (len : ℕ) → candidate_len (field_key prefix len) ≡ saturating_len len
candidate_len-field_key prefix len =
    rw (candidate_len, key_len-append prefix (saturating_len len)) refl

-- The distance of two texts is found only where their lengths are no further apart than the bound.
levenshtein_within_lengths :
    (a b : List ℕ) (k d : ℕ)
    → levenshtein_within a b k ≡ some d
    → abs_diff (length a) (length b) ≤ k
unfolding levenshtein_within
levenshtein_within_lengths a b k d e = ground (arith, e)

-- A gap of the stored lengths is no wider than that of the lengths.
length_gap_le : (m n : ℕ) → length_gap m (saturating_len n) ≤ abs_diff m n
length_gap_le m n = omega arith

-- A record whose text the banded distance accepts passes the length filter of the search, whichever
-- gram found it: its posting key carries the length of the text cut to a byte, and the gap of the
-- cut lengths is within the bound.
pub levenshtein_within-passes_length :
    (query text prefix : List ℕ) (k d : ℕ)
    → levenshtein_within query text k ≡ some d
    → passes_length (distance k) query (field_key prefix (length text)) ≡ true
unfolding passes_length
levenshtein_within-passes_length query text prefix k d e =
    let near = levenshtein_within_lengths query text k d e in
    let gap = length_gap_le (length query) (length text) in
    rw (candidate_len-field_key prefix (length text)) (ground (arith, near, gap))
