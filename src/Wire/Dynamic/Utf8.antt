-- ===== src/Wire/Dynamic/Utf8.antt =====
-- `String::from_utf8`: which byte sequences are the encodings of scalar values (RFC 3629).
use wavedb.Base.{
  ℕ, zero, suc, List, [], ◌∷◌, Bool, true, false, ltb, leb, ◌&&◌, ◌||◌, Option, none, some, ◌≡◌,
  refl,
}
use wavedb.Base.{if◌then◌else◌}

between : ℕ → ℕ → ℕ → Bool
between lo hi b = leb lo b && leb b hi

-- The range of the second byte behind a lead byte, and how many bytes follow the second.
pub data Lead : Type 0 where
  one : Lead
  more : ℕ → ℕ → ℕ → Lead
  bad : Lead

lead : ℕ → Lead
unfolding between
lead b =
    if ltb b 0x80
    then one
    else if between 0xc2 0xdf b
    then more 0x80 0xbf 0
    else if between 0xe0 0xe0 b
    then more 0xa0 0xbf 1
    else if between 0xed 0xed b
    then more 0x80 0x9f 1
    else if between 0xe1 0xef b
    then more 0x80 0xbf 1
    else if between 0xf0 0xf0 b
    then more 0x90 0xbf 2
    else if between 0xf1 0xf3 b
    then more 0x80 0xbf 2
    else if between 0xf4 0xf4 b
    then more 0x80 0x8f 2
    else bad

-- `expect lo hi n`: a byte of the range comes next, then `n` of 0x80 to 0xbf.
pub data Mode : Type 0 where
  start : Mode
  expect : ℕ → ℕ → ℕ → Mode

after_lead : Lead → Option Mode
after_lead one = some start
after_lead (more lo hi n) = some (expect lo hi n)
after_lead bad = none

after_byte : Mode → ℕ → Option Mode
unfolding lead after_lead
after_byte start b = after_lead (lead b)
after_byte (expect lo hi zero) b = if between lo hi b then some start else none
after_byte (expect lo hi (suc n)) b = if between lo hi b then some (expect 0x80 0xbf n) else none

run : List ℕ → Option Mode → Bool
run bytes none = false
run [] (some start) = true
run [] (some (expect lo hi n)) = false
run (b ∷ bs) (some m) = run bs (after_byte m b)

unfoldable pub is_utf8 : List ℕ → Bool
unfolding run after_byte
is_utf8 bytes = run bytes (some start)

utf8_samples :
    (is_utf8 (0xf0 ∷ 0x9f ∷ 0x8c ∷ 0x8a ∷ b'a' ∷ []) && is_utf8 (0xc3 ∷ 0xa9 ∷ [])) ≡ true
unfolding is_utf8
utf8_samples = refl

not_utf8_samples :
    (is_utf8 (0xc0 ∷ 0x80 ∷ []) || is_utf8 (0xed ∷ 0xa0 ∷ 0x80 ∷ []) || is_utf8 (0xe2 ∷ 0x82 ∷ []))
    ≡ false
unfolding is_utf8
not_utf8_samples = refl
