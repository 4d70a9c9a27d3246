-- ===== src/Blocks/Extents/Sizes.antt =====
-- The set of sizes: its members, its order, and the best fit.
use wavedb.Base.{
  ℕ, ◌≤◌, ◌<◌, ◌≡◌, refl, arith, [], ◌∷◌, true, not, ◌&&◌, ◌||◌, none, some, All, Bool-cases, inl,
  inr,
}
use wavedb.Blocks.Extents.{
  SizeSet, pair_lt, pair_eq, has_size, insert_size, remove_size, first_from,
}

pub has_size-insert_size :
    (e f : ℕ × ℕ) (s : SizeSet) → has_size e (insert_size f s) ≡ (pair_eq f e || has_size e s)
unfolding has_size insert_size
has_size-insert_size e f [] = refl
has_size-insert_size e f (g ∷ s) = ground (arith, has_size-insert_size e f s)

pub has_size-remove_size :
    (e f : ℕ × ℕ) (s : SizeSet) → has_size e (remove_size f s) ≡ (not (pair_eq f e) && has_size e s)
unfolding has_size remove_size
has_size-remove_size e f [] = ground arith
has_size-remove_size e f (g ∷ s) = ground (arith, has_size-remove_size e f s)

-- Ascending.
abbrev pub IsAscending : SizeSet → Type 0
IsAscending [] = Unit {0}
IsAscending (e ∷ s) = All (λ f. pair_lt e f ≡ true) s × IsAscending s

All-insert_size :
    (e f : ℕ × ℕ) (s : SizeSet)
    → pair_lt e f ≡ true
    → All (λ g. pair_lt e g ≡ true) s
    → All (λ g. pair_lt e g ≡ true) (insert_size f s)
unfolding insert_size
All-insert_size e f [] h a = (h, tt)
All-insert_size e f (g ∷ s) h a = ground (arith, All-insert_size e f s h a.1)

All-remove_size :
    (e f : ℕ × ℕ) (s : SizeSet)
    → All (λ g. pair_lt e g ≡ true) s
    → All (λ g. pair_lt e g ≡ true) (remove_size f s)
unfolding remove_size
All-remove_size e f [] a = tt
All-remove_size e f (g ∷ s) a = ground (arith, All-remove_size e f s a.1)

All-lt_trans :
    (e f : ℕ × ℕ) (s : SizeSet)
    → pair_lt e f ≡ true
    → All (λ g. pair_lt f g ≡ true) s
    → All (λ g. pair_lt e g ≡ true) s
All-lt_trans e f [] h a = tt
All-lt_trans e f (g ∷ s) h a = (ground (arith, a.0), All-lt_trans e f s h a.1)

pub IsAscending-insert_size :
    (e : ℕ × ℕ) (s : SizeSet) → IsAscending s → IsAscending (insert_size e s)
unfolding insert_size
IsAscending-insert_size e [] a = (tt, tt)
IsAscending-insert_size e (f ∷ s) a = elim (Bool-cases (pair_lt e f)) [
  | inl below ↦ rw below ((below, All-lt_trans e f s below a.0), a)
  | inr above ↦ rw above (elim (Bool-cases (pair_eq f e)) [
    | inl same ↦ rw same a
    | inr other ↦
        rw other (All-insert_size f e s (ground arith) a.0, IsAscending-insert_size e s a.1)
  ])
]

pub IsAscending-remove_size :
    (e : ℕ × ℕ) (s : SizeSet) → IsAscending s → IsAscending (remove_size e s)
unfolding remove_size
IsAscending-remove_size e [] a = tt
IsAscending-remove_size e (f ∷ s) a = elim (Bool-cases (pair_eq f e)) [
  | inl same ↦ rw same (IsAscending-remove_size e s a.1)
  | inr other ↦ rw other (All-remove_size f e s a.0, IsAscending-remove_size e s a.1)
]

-- The first pair of `count` or more is a member, large enough, and the smallest such.
pub first_from-some :
    (count : ℕ) (s : SizeSet) (e : ℕ × ℕ)
    → first_from count s ≡ some e
    → (has_size e s ≡ true) × (count ≤ e.0)
unfolding first_from has_size
first_from-some count [] e h = cc
first_from-some count (f ∷ s) e h = ground (arith, first_from-some count s e)

has_size_above :
    (e g : ℕ × ℕ) (s : SizeSet) → All (λ f. pair_lt e f ≡ true) s → has_size g s ≡ true → e.0 ≤ g.0
unfolding has_size
has_size_above e g [] a h = cc
has_size_above e g (f ∷ s) a h = ground (arith, has_size_above e g s a.1)

pub first_from_least :
    (count : ℕ) (s : SizeSet) (e g : ℕ × ℕ)
    → IsAscending s
    → first_from count s ≡ some e
    → has_size g s ≡ true
    → count ≤ g.0
    → e.0 ≤ g.0
unfolding first_from has_size
first_from_least count [] e g a h m k = cc
first_from_least count (f ∷ s) e g a h m k =
    ground (arith, first_from_least count s e g a.1, has_size_above f g s a.0)

pub first_from-none :
    (count : ℕ) (s : SizeSet) (g : ℕ × ℕ)
    → first_from count s ≡ none
    → has_size g s ≡ true
    → g.0 < count
unfolding first_from has_size
first_from-none count [] g h m = cc
first_from-none count (f ∷ s) g h m = ground (arith, first_from-none count s g)
