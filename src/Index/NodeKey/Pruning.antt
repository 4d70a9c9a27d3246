-- ===== src/Index/NodeKey/Pruning.antt =====
-- The pruning of a search is sound: a window that holds a matching key is never skipped.
use wavedb.Base.{
  ℕ, ◌^◌, ◌≤◌, ◌<◌, ◌≡◌, refl, sym, ap, ◌∙◌, subst, arith, List, [], ◌∷◌, Bool, true, false, not,
  ◌&&◌, ◌||◌, leb, Option, none, some,
}
use native.Mathlib.Nat.{mod-eq_of_lt}
use wavedb.Ids.LocalId.{LocalId}
use wavedb.Ids.Laws.{lt_local}
use wavedb.Index.Bytes.{
  slice_lt, starts_with, to_be_bytes, length-to_be_bytes, to_be_bytes-AreBytes,
  from_be_bytes-to_be_bytes, slice_le_trans, slice_lt_of_le_lt, slice_eq→eq, slice_lt_irrefl,
  starts_with→le,
}
use wavedb.Index.Bound.{Bound, all, exact, range, prefix, contains, created_at_range}
use wavedb.Index.Bound.Laws.{BoundFits, within, created_at_range-contains}
use wavedb.Index.NodeKey.{
  local_matches, local_may_intersect, SecKey, sec_lt, le_prefix_max, sec_matches, sec_may_intersect,
  is_none_or, map_or, u64_max,
}

-- `k` is not above an upper edge, which may be absent; `min` likewise.
abbrev pub Below {ℓ} : {K : Type ℓ} → (K → K → Bool) → K → Option K → Type 0
Below lt k none = Unit
Below lt k (some max) = lt max k ≡ false

abbrev pub Above {ℓ} : {K : Type ℓ} → (K → K → Bool) → K → Option K → Type 0
Above lt k none = Unit
Above lt k (some min) = lt k min ≡ false

-- A field that starts with `p` and is not below `l` puts `l` at or below the region of `p`.
le_prefix_max_lem :
    (l f p : List ℕ) → starts_with f p ≡ true → slice_lt f l ≡ false → le_prefix_max l p ≡ true
unfolding starts_with slice_lt le_prefix_max
le_prefix_max_lem [] f p h k = refl
le_prefix_max_lem (x ∷ l) f [] h k = refl
le_prefix_max_lem (x ∷ l) [] (q ∷ p) h k = cc
le_prefix_max_lem (x ∷ l) (y ∷ f) (q ∷ p) h k = ground (arith, le_prefix_max_lem l f p)

and_true : (a b : Bool) → a ≡ true → b ≡ true → (a && b) ≡ true
and_true a b p q = ground arith

and_parts : (a b : Bool) → (a && b) ≡ true → (a ≡ true) × (b ≡ true)
and_parts a b h = ground arith

not-true : (a : Bool) → not a ≡ true → a ≡ false
not-true a h = ground arith

or_false : (a b : Bool) → (a || b) ≡ false → a ≡ false
or_false a b h = ground arith

-- The order of keys is an order of their fields.
field_le : (a b : SecKey) → sec_lt b a ≡ false → slice_lt b.field a.field ≡ false
unfolding sec_lt
field_le a b h = or_false _ _ h

upper_kept :
    (k : SecKey) (max : Option SecKey) (f : List ℕ)
    → Below sec_lt k max
    → slice_lt k.field f ≡ false
    → is_none_or max (λ h. not (slice_lt h.field f)) ≡ true
upper_kept k none f hi le = refl
upper_kept k (some h) f hi le = rw (slice_le_trans f k.field h.field le (field_le k h hi))

lower_kept :
    (k : SecKey) (min : Option SecKey) (test : List ℕ → Bool)
    → Above sec_lt k min
    → ((l : List ℕ) → slice_lt k.field l ≡ false → test l ≡ true)
    → is_none_or min (λ l. test l.field) ≡ true
lower_kept k none test lo h = refl
lower_kept k (some l) test lo h = h l.field (field_le l k lo)

-- If a secondary key inside the inclusive window from `min` to `max`, either of which may be
-- absent, matches the bound, the window is kept.
pub sec_may_intersect_sound :
    (b : Bound) (k : SecKey) (min max : Option SecKey)
    → sec_matches k b ≡ true
    → Above sec_lt k min
    → Below sec_lt k max
    → sec_may_intersect b min max ≡ true
unfolding sec_matches sec_may_intersect
sec_may_intersect_sound all k min max m lo hi = refl
sec_may_intersect_sound (exact e) k min max m lo hi =
    let same : k.field ≡ e = slice_eq→eq k.field e m in
    and_true _ _ (upper_kept k max e hi (rw same (slice_lt_irrefl e))) (
      lower_kept k min (λ l. not (slice_lt e l)) lo
        (λ l h. ap not (subst (λ f. slice_lt f l ≡ false) same h)))
sec_may_intersect_sound (range r s) k min max m lo hi =
    let parts = and_parts (not (slice_lt k.field r)) (slice_lt k.field s) m in
    and_true _ _ (upper_kept k max r hi (not-true _ parts.0))
      (lower_kept k min (λ l. slice_lt l s) lo (λ l h. slice_lt_of_le_lt l k.field s h parts.1))
sec_may_intersect_sound (prefix p) k min max m lo hi =
    and_true _ _ (upper_kept k max p hi (starts_with→le k.field p m))
      (lower_kept k min (λ l. le_prefix_max l p) lo (λ l h. le_prefix_max_lem l k.field p m h))

key_le : (a b : LocalId) → lt_local b a ≡ false → a.key ≤ b.key
key_le a b h = ground arith

contains_of_matches :
    (k : LocalId) (b : Bound) → local_matches k b ≡ true → contains b (to_be_bytes 8 k.key) ≡ true
unfolding local_matches
contains_of_matches k all m = unfold contains in refl
contains_of_matches k (exact e) m = m
contains_of_matches k (range r s) m = m
contains_of_matches k (prefix p) m = m

in_range :
    (k : LocalId) (b : Bound) (r : ℕ × ℕ)
    → k.key < 2 ^ 64
    → BoundFits b
    → local_matches k b ≡ true
    → created_at_range b ≡ some r
    → (r.0 ≤ k.key) × (k.key ≤ r.1)
in_range k b r hk fits m e = ground (arith, inside)
  where
    inside : within r k.key ≡ true
    inside =
        subst (λ n. within r n ≡ true) (from_be_bytes-to_be_bytes 8 k.key ∙ mod-eq_of_lt hk)
          (sym (
              created_at_range-contains (to_be_bytes 8 k.key) (length-to_be_bytes 8 k.key)
                (to_be_bytes-AreBytes 8 k.key) b r fits e)
            ∙ contains_of_matches k b m)

-- If a local id of a 64-bit key inside the inclusive window from `min` to `max`, either of which
-- may be absent, matches a bound of bytes, the window is kept.
pub local_may_intersect_sound :
    (b : Bound) (k : LocalId) (min max : Option LocalId)
    → k.key < 2 ^ 64
    → BoundFits b
    → local_matches k b ≡ true
    → Above lt_local k min
    → Below lt_local k max
    → local_may_intersect b min max ≡ true
unfolding local_may_intersect
local_may_intersect_sound b k min max hk fits m lo hi =
    go (created_at_range b) (λ r e. in_range k b r hk fits m e) min max lo hi
  where
    go :
        (o : Option (ℕ × ℕ))
        → ((r : ℕ × ℕ) → o ≡ some r → (r.0 ≤ k.key) × (k.key ≤ r.1))
        → (min max : Option LocalId) → Above lt_local k min
        → Below lt_local k max
        → is_none_or o
            (λ r. leb r.0 (map_or max u64_max (λ k. k.key)) && leb (map_or min 0 (λ k. k.key)) r.1)
          ≡ true
    go none inside min max lo hi = refl
    go (some r) inside none none lo hi = ground (arith, inside r refl)
    go (some r) inside none (some b) lo hi = ground (arith, inside r refl, key_le k b hi)
    go (some r) inside (some a) none lo hi = ground (arith, inside r refl, key_le a k lo)
    go (some r) inside (some a) (some b) lo hi =
        ground (arith, inside r refl, key_le a k lo, key_le k b hi)
