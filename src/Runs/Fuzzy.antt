-- ===== src/Runs/Fuzzy.antt =====
-- Texts whose distance is taken within a bound.
use wavedb.Base.{
  ◌≡◌, refl, arith, [], ◌∷◌, none, some, length, leb, true, false, if◌then◌else◌, List, ℕ,
}
use wavedb.Fuzzy.Distance.{levenshtein_within}
use wavedb.Fuzzy.Distance.Table.{distance}
use wavedb.Fuzzy.Distance.Band.{within, levenshtein_within-distance}
use wavedb.Fuzzy.Filter
use wavedb.Fuzzy.Filter.{field_key, passes_length}
use wavedb.Fuzzy.Filter.Sound.{levenshtein_within-passes_length}

abbrev kitten : List ℕ
kitten = 107 ∷ 105 ∷ 116 ∷ 116 ∷ 101 ∷ 110 ∷ []

abbrev sitting : List ℕ
sitting = 115 ∷ 105 ∷ 116 ∷ 116 ∷ 105 ∷ 110 ∷ 103 ∷ []

levenshtein_within-distance_example :
    levenshtein_within kitten sitting 3
    ≡ within 3 (
        if leb (length kitten) (length sitting)
        then distance kitten sitting
        else distance sitting kitten)
levenshtein_within-distance_example = levenshtein_within-distance kitten sitting 3 (omega arith)

near : levenshtein_within kitten sitting 3 ≡ some 3
unfolding levenshtein_within
near = refl

far : levenshtein_within kitten sitting 2 ≡ none
unfolding levenshtein_within
far = refl

of_nothing : levenshtein_within [] (97 ∷ 98 ∷ 99 ∷ []) 3 ≡ some 3
unfolding levenshtein_within
of_nothing = refl

levenshtein_within-passes_length_example :
    passes_length (Filter.distance 3) kitten (field_key (1 ∷ 2 ∷ []) (length sitting)) ≡ true
levenshtein_within-passes_length_example =
    levenshtein_within-passes_length kitten sitting (1 ∷ 2 ∷ []) 3 3 near

refused : passes_length (Filter.distance 2) kitten (field_key [] 9) ≡ false
unfolding passes_length
refused = refl
