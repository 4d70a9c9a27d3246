-- ===== src/BpTree/Insert/Order.antt =====
-- Inserting a key into sorted keys, and where the subtrees of a node lie.
use wavedb.Base.{
  ℕ, zero, suc, ◌≡◌, refl, subst, arith, List, [], ◌∷◌, ◌++◌, take, drop, All, All-imp, true,
  Option, none, some, if◌then◌else◌,
}
use wavedb.BpTree.Key.{NodeKey, IsLawful}
use wavedb.BpTree.Search.{Found, present, absent, next_place, binary_search}
use wavedb.BpTree.Insert.{insert_at}
use wavedb.BpTree.Shape.{Under, Over, IsSorted, Chain, lt_asym}
use wavedb.BpTree.Order.{Under-trans}

-- The abstract operation: a key that is not there yet goes to its place.
abbrev pub insert_sorted : {K : Type 0} → NodeKey K → K → List K → List K
insert_sorted o x [] = x ∷ []
insert_sorted o x (k ∷ ks) =
    let rest = insert_sorted o x ks in
    if o.lt k x then k ∷ rest else if o.lt x k then x ∷ k ∷ ks else k ∷ ks

abbrev pub place : {K : Type 0} → K → List K → Found → List K
place x ks (present i) = ks
place x ks (absent i) = insert_at i x ks

-- What a split of a subtree adds behind it.
abbrev pub list_of : {A : Type 0} → Option A → List A
list_of none = []
list_of (some a) = a ∷ []

module _ {K : Type 0} {o : NodeKey K} (law : IsLawful o) where
  open law use {lt_irrefl, lt_trans, lt_total}

  place-next_place :
      (x k : K) (ks : List K) (f : Found) → place x (k ∷ ks) (next_place f) ≡ k ∷ place x ks f
  place-next_place x k ks (present i) = refl
  place-next_place x k ks (absent i) = refl

  pub place-binary_search :
      (x : K) (ks : List K) → place x ks (binary_search o ks x) ≡ insert_sorted o x ks
  unfolding binary_search
  place-binary_search x [] = refl
  place-binary_search x (k ∷ ks) =
      ground (arith, place-next_place x k ks (binary_search o ks x), place-binary_search x ks)

  pub insert_sorted-All :
      (P : K → Type 0) (x : K) (ks : List K) → P x → All P ks → All P (insert_sorted o x ks)
  insert_sorted-All P x [] px h = (px, tt)
  insert_sorted-All P x (k ∷ ks) px (hk, hs) = ground (arith, insert_sorted-All P x ks px hs)

  pub insert_sorted-IsSorted :
      (x : K) (ks : List K) → IsSorted o ks → IsSorted o (insert_sorted o x ks)
  insert_sorted-IsSorted x [] s = (tt, tt)
  insert_sorted-IsSorted x (k ∷ ks) (up, s) = ground (
    arith,
    insert_sorted-IsSorted x ks s,
    insert_sorted-All (λ l. o.lt k l ≡ true) x ks,
    (λ (h : o.lt x k ≡ true).
        All-imp {P = λ l. o.lt k l ≡ true} {Q = λ l. o.lt x l ≡ true} (λ l. lt_trans x k l h) ks),
  )

  pub insert_sorted-front :
      (x : K) (ks ls : List K)
      → All (λ l. o.lt x l ≡ true) ls
      → insert_sorted o x (ks ++ ls) ≡ insert_sorted o x ks ++ ls
  insert_sorted-front x [] [] h = refl
  insert_sorted-front x [] (l ∷ ls) (h, hs) = ground (arith, lt_asym law x l h)
  insert_sorted-front x (k ∷ ks) ls h = ground (arith, insert_sorted-front x ks ls h)

  pub insert_sorted-back :
      (x : K) (ks ls : List K)
      → All (λ k. o.lt k x ≡ true) ks
      → insert_sorted o x (ks ++ ls) ≡ ks ++ insert_sorted o x ls
  insert_sorted-back x [] ls h = refl
  insert_sorted-back x (k ∷ ks) ls (h, hs) = ground (arith, insert_sorted-back x ks ls hs)

  Over-trans : (a b : K) (min : Option K) → o.lt a b ≡ true → Over o a min → Over o b min
  Over-trans a b none h u = tt
  Over-trans a b (some m) h u = lt_trans m a b u h

  -- Cutting a chain at a separator.
  pub Chain-cut :
      {A : Type 0} (P : Option K → Option K → A → Type 0) (mid : ℕ) (min max : Option K) (t : A)
      (es : List (K × A)) (k : K) (u : A) (rest : List (K × A))
      → Chain o P min max t es
      → drop mid es ≡ (k, u) ∷ rest
      → Chain o P min (some k) t (take mid es)
        × Over o k min
        × Under o k max
        × Chain o P (some k) max u rest
  Chain-cut P zero min max t es k u rest c e = subst (λ es. Chain o P min max t es) e c
  Chain-cut P (suc mid) min max t [] k u rest c e = cc
  Chain-cut P (suc mid) min max t ((k', u') ∷ es) k u rest (ct, over, under, cs) e =
      let (a, b, c, d) = Chain-cut P mid (some k') max u' es k u rest cs e in
      ((ct, over, b, a), Over-trans k' k min b over, c, d)

  pub Chain-pending :
      {A : Type 0} (P : Option K → Option K → A → Type 0) (min max : Option K) (k : K) (t u : A)
      (pend : Option (K × A)) (es : List (K × A))
      → Chain o P min (some k) t (list_of pend)
      → Over o k min
      → Under o k max
      → Chain o P (some k) max u es
      → Chain o P min max t (list_of pend ++ (k, u) ∷ es)
  Chain-pending P min max k t u none es c over under cs = (c, over, under, cs)
  Chain-pending P min max k t u (some (k', r)) es (ct, over', under', cr) over under cs =
      (ct, over', Under-trans law k' k max under' under, (cr, under', under, cs))
