-- ===== src/Runs/Index.antt =====
-- Keys, bounds and pruning at concrete inputs.
use wavedb.Base.{ℕ, ◌≡◌, refl, arith, List, [], ◌∷◌, ◌++◌, true, ◌&&◌, ◌||◌, none, some}
use wavedb.Ids.LocalId.{LocalId}
use wavedb.Index.Bytes.{slice_lt, slice_eq, starts_with}
use wavedb.Index.Key.{str_key, str_key-append_order, str_key_zero_misorders}
use wavedb.Index.Bound.{prefix, contains}
use wavedb.Index.NodeKey.{SecKey, sec_lt, sec_matches, sec_may_intersect}
use wavedb.Index.NodeKey.Pruning.{sec_may_intersect_sound}

str_key-append_order_example :
    slice_lt (str_key (97 ∷ []) ++ (1 ∷ [])) (str_key (97 ∷ []) ++ (2 ∷ []))
    ≡ (slice_lt (97 ∷ []) (97 ∷ []) || (slice_eq (97 ∷ []) (97 ∷ []) && slice_lt (1 ∷ []) (2 ∷ [])))
str_key-append_order_example =
    str_key-append_order (97 ∷ []) (97 ∷ []) (1 ∷ []) (2 ∷ []) (omega arith, tt) (omega arith, tt)

str_key_zero_misorders_example :
    (slice_lt (97 ∷ []) ((97 ∷ []) ++ (0 ∷ [])) ≡ true)
    × (slice_lt (str_key ((97 ∷ []) ++ (0 ∷ [])) ++ (3 ∷ [])) (str_key (97 ∷ []) ++ (5 ∷ []))
        ≡ true)
str_key_zero_misorders_example = str_key_zero_misorders (97 ∷ []) (3 ∷ []) [] 4

abbrev first : LocalId
first = record { key = 5; lower = 9 }

abbrev second : LocalId
second = record { key = 5; lower = 40000 }

-- A prefix of two bytes, and a key of eight behind it.
abbrev key8 : List ℕ
key8 = 1 ∷ 2 ∷ 3 ∷ 4 ∷ 5 ∷ 6 ∷ 7 ∷ 8 ∷ []

abbrev sec : SecKey
sec = record { field = 97 ∷ 98 ∷ []; rec = first }

sec_may_intersect_sound_example : sec_may_intersect (prefix (97 ∷ [])) none (some sec) ≡ true
unfolding sec_matches contains starts_with slice_lt sec_lt slice_eq
sec_may_intersect_sound_example =
    sec_may_intersect_sound (prefix (97 ∷ [])) sec none (some sec) refl tt refl
