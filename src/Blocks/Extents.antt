-- ===== src/Blocks/Extents.antt =====
-- The standard library's `BTreeMap<u64, u64>` and `BTreeSet<(u64, u64)>`, as the sorted lists of their
-- entries, with the operations that the allocator calls.
pub mod Laws
pub mod Free
pub mod Sizes
use wavedb.Base.{
  ℕ, ◌+◌, List, [], ◌∷◌, Bool, true, false, ltb, leb, ◌==◌, ◌&&◌, ◌||◌, Option, none, some,
}
use wavedb.Base.{if◌then◌else◌}

-- start → count.
abbrev pub PosMap : Type 0
PosMap = List (ℕ × ℕ)

-- (count, start).
abbrev pub SizeSet : Type 0
SizeSet = List (ℕ × ℕ)

unfoldable pub get : ℕ → PosMap → Option ℕ
get k [] = none
get k ((j, v) ∷ m) = if j == k then some v else get k m

unfoldable pub insert : ℕ → ℕ → PosMap → PosMap
insert k v [] = (k, v) ∷ []
insert k v ((j, w) ∷ m) =
    if ltb k j then (k, v) ∷ (j, w) ∷ m else if j == k then (k, v) ∷ m else (j, w) ∷ insert k v m

-- A key stands in a map once, so nothing is lost by looking at the entries behind it too.
unfoldable pub remove : ℕ → PosMap → PosMap
remove k [] = []
remove k ((j, v) ∷ m) = let rest = remove k m in if j == k then rest else (j, v) ∷ rest

abbrev pub or_else : Option (ℕ × ℕ) → ℕ × ℕ → Option (ℕ × ℕ)
or_else none e = some e
or_else (some e') e = some e'

-- `range(..k).next_back()`: the last entry below `k`.
unfoldable pub last_below : ℕ → PosMap → Option (ℕ × ℕ)
last_below k [] = none
last_below k ((j, v) ∷ m) =
    let later = last_below k m in if ltb j k then or_else later (j, v) else none

-- `iter().next_back()`.
unfoldable pub last : PosMap → Option (ℕ × ℕ)
last [] = none
last (e ∷ m) = or_else (last m) e

-- The order of pairs.
abbrev pub pair_lt : ℕ × ℕ → ℕ × ℕ → Bool
pair_lt a b = ltb a.0 b.0 || (a.0 == b.0 && ltb a.1 b.1)

abbrev pub pair_eq : ℕ × ℕ → ℕ × ℕ → Bool
pair_eq a b = a.0 == b.0 && a.1 == b.1

unfoldable pub has_size : ℕ × ℕ → SizeSet → Bool
has_size e [] = false
has_size e (f ∷ s) = pair_eq f e || has_size e s

unfoldable pub insert_size : ℕ × ℕ → SizeSet → SizeSet
insert_size e [] = e ∷ []
insert_size e (f ∷ s) =
    if pair_lt e f then e ∷ f ∷ s else if pair_eq f e then f ∷ s else f ∷ insert_size e s

unfoldable pub remove_size : ℕ × ℕ → SizeSet → SizeSet
remove_size e [] = []
remove_size e (f ∷ s) = let rest = remove_size e s in if pair_eq f e then rest else f ∷ rest

-- `range((count, 0)..).next()`: the first pair of that count or more.
unfoldable pub first_from : ℕ → SizeSet → Option (ℕ × ℕ)
first_from count [] = none
first_from count (f ∷ s) = if leb count f.0 then some f else first_from count s
