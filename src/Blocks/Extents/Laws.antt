-- ===== src/Blocks/Extents/Laws.antt =====
-- A map of free extents: its entries are apart, not empty, and inside the file.
use wavedb.Base.{
  ℕ, ◌+◌, ◌≤◌, ◌<◌, ◌≡◌, ◌≢◌, ◌⊎◌, refl, arith, [], ◌∷◌, false, ◌==◌, none, some, Bool-cases,
  Option-cases, inl, inr, le→ltb, lt→ltb, if◌then◌else◌,
}
use wavedb.Blocks.Extents.{PosMap, get, insert, remove, last_below, last}

-- Between two extents stands a block that is not free: adjacent ones have been joined.
abbrev pub AreApart : ℕ → PosMap → ℕ → Type 0
AreApart lo [] total = Unit {0}
AreApart lo ((s, c) ∷ m) total = (lo ≤ s) × (0 < c) × (s + c ≤ total) × AreApart (s + c + 1) m total

pub AreApart-weaken :
    (lo lo' : ℕ) (m : PosMap) (t t' : ℕ) → lo' ≤ lo → t ≤ t' → AreApart lo m t → AreApart lo' m t'
AreApart-weaken lo lo' [] t t' h k a = tt
AreApart-weaken lo lo' ((s, c) ∷ m) t t' h k (a, b, d, e) =
    (omega arith, b, omega arith, AreApart-weaken (s + c + 1) (s + c + 1) m t t' (omega arith) k e)

pub get-insert :
    (k v : ℕ) (m : PosMap) (j : ℕ) → get j (insert k v m) ≡ (if k == j then some v else get j m)
unfolding get insert
get-insert k v [] j = refl
get-insert k v ((i, w) ∷ m) j = ground (arith, get-insert k v m j)

pub get-remove :
    (k : ℕ) (m : PosMap) (j : ℕ) → get j (remove k m) ≡ (if k == j then none else get j m)
unfolding get remove
get-remove k [] j = ground arith
get-remove k ((i, w) ∷ m) j = ground (arith, get-remove k m j)

-- An entry of a map that is apart from `lo` on.
pub get_bounds :
    (lo : ℕ) (m : PosMap) (t j w : ℕ)
    → AreApart lo m t
    → get j m ≡ some w
    → (lo ≤ j) × (0 < w) × (j + w ≤ t)
unfolding get
get_bounds lo [] t j w a e = cc
get_bounds lo ((s, c) ∷ m) t j w a e = ground (arith, get_bounds (s + c + 1) m t j w a.3)

pub get_apart :
    (lo : ℕ) (m : PosMap) (t i v j w : ℕ)
    → AreApart lo m t
    → get i m ≡ some v
    → get j m ≡ some w
    → i < j
    → i + v < j
unfolding get
get_apart lo [] t i v j w a p q h = cc
get_apart lo ((s, c) ∷ m) t i v j w a p q h = ground (
  arith,
  get_bounds (s + c + 1) m t i v a.3,
  get_bounds (s + c + 1) m t j w a.3,
  get_apart (s + c + 1) m t i v j w a.3,
)

pub AreApart-remove : (lo : ℕ) (m : PosMap) (t k : ℕ) → AreApart lo m t → AreApart lo (remove k m) t
unfolding remove
AreApart-remove lo [] t k a = tt
AreApart-remove lo ((s, c) ∷ m) t k (a, b, d, e) = elim (Bool-cases (s == k)) [
  | inl hit ↦ rw hit (
      AreApart-weaken (s + c + 1) lo (remove k m) t t (omega arith) (omega arith)
        (AreApart-remove (s + c + 1) m t k e))
  | inr miss ↦ rw miss (a, b, d, AreApart-remove (s + c + 1) m t k e)
]

-- `s` to `s + c` touches no entry.
abbrev pub IsClear : ℕ → ℕ → PosMap → Type 0
IsClear s c m = (j w : ℕ) → get j m ≡ some w → (j + w < s) ⊎ (s + c < j)

pub IsClear-tail :
    (s c lo i v : ℕ) (m : PosMap) (t : ℕ)
    → AreApart lo ((i, v) ∷ m) t
    → IsClear s c ((i, v) ∷ m)
    → IsClear s c m
unfolding get
IsClear-tail s c lo i v m t a clear j w e =
    clear j w (ground (arith, get_bounds (i + v + 1) m t j w a.3 e))

pub get_head : (i v : ℕ) (m : PosMap) → get i ((i, v) ∷ m) ≡ some v
unfolding get
get_head i v m = ground arith

lt→ne : (a b : ℕ) → a < b → (a == b) ≡ false
lt→ne a b h = ground arith

pub AreApart-insert :
    (lo s c : ℕ) (m : PosMap) (t : ℕ)
    → AreApart lo m t
    → IsClear s c m
    → lo ≤ s
    → 0 < c
    → s + c ≤ t
    → AreApart lo (insert s c m) t
unfolding insert
AreApart-insert lo s c [] t a clear h p r = (h, p, r, tt)
AreApart-insert lo s c ((i, v) ∷ m) t a clear h p r = elim (clear i v (get_head i v m)) [
  | inl before ↦
      rw (le→ltb s i (omega arith), lt→ne i s (omega arith))
        (
          a.0,
          a.1,
          a.2,
          AreApart-insert (i + v + 1) s c m t a.3 (IsClear-tail s c lo i v m t a clear)
              (omega arith) p r,
        )
  | inr after ↦ rw (lt→ltb s i (omega arith)) (h, p, r, (omega arith, a.1, a.2, a.3))
]

-- Nothing below `k`.
pub last_below-none :
    (lo : ℕ) (m : PosMap) (t k : ℕ)
    → AreApart lo m t
    → last_below k m ≡ none
    → (j w : ℕ) → get j m ≡ some w
    → k ≤ j
unfolding last_below get
last_below-none lo [] t k a h j w e = cc
last_below-none lo ((i, v) ∷ m) t k a h j w e = ground (arith, get_bounds (i + v + 1) m t j w a.3)

-- The last entry below `k` is an entry, and the greatest of those below `k`.
pub last_below-get :
    (lo : ℕ) (m : PosMap) (t k : ℕ) (e : ℕ × ℕ)
    → AreApart lo m t
    → last_below k m ≡ some e
    → (get e.0 m ≡ some e.1) × (e.0 < k)
unfolding last_below get
last_below-get lo [] t k e a h = cc
last_below-get lo ((i, v) ∷ m) t k e a h =
    ground (arith, last_below-get (i + v + 1) m t k e a.3, get_bounds (i + v + 1) m t e.0 e.1 a.3)

pub last_below_max :
    (lo : ℕ) (m : PosMap) (t k : ℕ) (e : ℕ × ℕ)
    → AreApart lo m t
    → last_below k m ≡ some e
    → (j w : ℕ) → get j m ≡ some w
    → j < k
    → j ≤ e.0
unfolding last_below get
last_below_max lo [] t k e a h j w g b = cc
last_below_max lo ((i, v) ∷ m) t k e a h j w g b = elim (Option-cases (last_below k m)) [
  | inl nothing ↦ ground (arith, last_below-none (i + v + 1) m t k a.3 nothing j w)
  | inr (e', later) ↦ ground (
    arith,
    last_below_max (i + v + 1) m t k e' a.3 later j w,
    last_below-get (i + v + 1) m t k e' a.3 later,
    get_bounds (i + v + 1) m t e'.0 e'.1 a.3,
  )
]

pub last-none : (m : PosMap) → last m ≡ none → (j w : ℕ) → get j m ≢ some w
unfolding last get
last-none [] h j w e = cc
last-none ((i, v) ∷ m) h j w e = elim (Option-cases (last m)) [
  | inl nothing ↦ ground (arith)
  | inr (e', later) ↦ ground (arith)
]

-- The last entry is an entry, and no other starts behind it.
pub last-get :
    (lo : ℕ) (m : PosMap) (t : ℕ) (e : ℕ × ℕ)
    → AreApart lo m t
    → last m ≡ some e
    → (get e.0 m ≡ some e.1) × ((j w : ℕ) → get j m ≡ some w → j ≤ e.0)
unfolding last get
last-get lo [] t e a h = cc
last-get lo ((i, v) ∷ m) t e a h = elim (Option-cases (last m)) [
  | inl nothing ↦ (ground arith, λ j w g. ground (arith, last-none m nothing j w))
  | inr (e', later) ↦
      let (here, most) = last-get (i + v + 1) m t e' a.3 later in
      let bounds = get_bounds (i + v + 1) m t e'.0 e'.1 a.3 here in
      (ground arith, λ j w g. ground (arith, most j w))
]
