-- ===== src/Fuzzy/Filter.antt =====
-- crates/wavedb-core/src/fuzzy/grams.rs and mod.rs: the length that a posting key carries, and the
-- rejection by length of crates/wavedb-core/src/collection_fuzzy_read.rs.
pub mod Sound
use wavedb.Base.{ℕ, ◌∷◌, [], ◌++◌, min, List, length, Bool, true, Option, none, some, leb}
use wavedb.Fuzzy.Distance.{abs_diff}

-- `enum Fuzzy`. A ratio is an `f64`, by its bits.
pub data Fuzzy : Type 0 where
  distance : ℕ → Fuzzy
  similarity : ℕ → Fuzzy
  contains : ℕ → Fuzzy

abbrev pub u8_max : ℕ
u8_max = 255

-- `u8::try_from(len).unwrap_or(u8::MAX)`.
abbrev pub saturating_len : ℕ → ℕ
saturating_len len = min len u8_max

abbrev pub field_key : List ℕ → ℕ → List ℕ
field_key prefix len = prefix ++ saturating_len len ∷ []

-- `field.last()`.
abbrev pub key_len : List ℕ → Option ℕ
key_len [] = none
key_len (x ∷ []) = some x
key_len (x ∷ y ∷ field) = key_len (y ∷ field)

abbrev pub length_gap : ℕ → ℕ → ℕ
length_gap query_len stored = abs_diff (saturating_len query_len) (min stored u8_max)

abbrev pub allows_length_gap : Fuzzy → ℕ → Bool
allows_length_gap (distance k) gap = leb gap k
allows_length_gap (similarity t) gap = true
allows_length_gap (contains t) gap = true

-- `key_len(&key.field).unwrap_or(0)`.
abbrev pub candidate_len : List ℕ → ℕ
candidate_len field = elim (key_len field) [ none ↦ 0 | some len ↦ len ]

-- The length filter of `fuzzy_search`, for a posting key that a scan found.
unfoldable pub passes_length : Fuzzy → List ℕ → List ℕ → Bool
passes_length mode text field =
    allows_length_gap mode (length_gap (length text) (candidate_len field))
