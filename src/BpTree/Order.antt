-- ===== src/BpTree/Order.antt =====
-- Membership among the keys of a tree, and the edges that its keys keep.
use wavedb.Base.{
  All-imp, All-append, ℕ, zero, suc, ◌≡◌, refl, arith, List, [], ◌∷◌, ◌++◌, All, Bool, true, false,
  Option, none, some, ◌||◌, if◌then◌else◌,
}
use wavedb.Index.NodeKey.Pruning.{Above}
use wavedb.BpTree.Key.{NodeKey, IsLawful}
use wavedb.BpTree.Search.{Found, present, absent, is_present, next_place, binary_search}
use wavedb.BpTree.Shape.{
  Tree, gather, keys, Under, Over, IsSorted, Within, Chain, Ordered, lt_asym, lt_le_trans,
}

module _ {K : Type 0} {o : NodeKey K} (law : IsLawful o) where
  open law use {lt_irrefl, lt_trans, lt_total}

  abbrev pub same : K → K → Bool
  same a b = if o.lt a b then false else if o.lt b a then false else true

  -- Membership, by a scan of all keys.
  abbrev pub member : K → List K → Bool
  member x [] = false
  member x (k ∷ ks) = same k x || member x ks

  pub member-append : (x : K) (ks ls : List K) → member x (ks ++ ls) ≡ member x ks || member x ls
  member-append x [] ls = refl
  member-append x (k ∷ ks) ls = ground (arith, member-append x ks ls)

  pub member-below : (x : K) (ks : List K) → All (λ k. o.lt k x ≡ true) ks → member x ks ≡ false
  member-below x [] h = refl
  member-below x (k ∷ ks) (hk, hs) = ground (arith, member-below x ks hs)

  pub member-above : (x : K) (ks : List K) → All (λ k. o.lt x k ≡ true) ks → member x ks ≡ false
  member-above x [] h = refl
  member-above x (k ∷ ks) (hk, hs) = ground (arith, member-above x ks hs)

  is_present-next_place : (f : Found) → is_present (next_place f) ≡ is_present f
  is_present-next_place (present i) = refl
  is_present-next_place (absent i) = refl

  member_after :
      (x k : K) (ks : List K)
      → All (λ l. o.lt k l ≡ true) ks
      → o.lt x k ≡ true
      → member x ks ≡ false
  member_after x k ks up h = member-above x ks (All-imp (λ l. lt_trans x k l h) ks up)

  -- A binary search of sorted keys finds a key that a scan finds.
  pub is_present-binary_search :
      (x : K) (ks : List K) → IsSorted o ks → is_present (binary_search o ks x) ≡ member x ks
  unfolding binary_search
  is_present-binary_search x [] s = refl
  is_present-binary_search x (k ∷ ks) (up, s) = ground (
    arith,
    is_present-next_place (binary_search o ks x),
    is_present-binary_search x ks s,
    member_after x k ks up,
    lt_asym law x k,
  )

  pub Under-trans : (x k : K) (max : Option K) → o.lt x k ≡ true → Under o k max → Under o x max
  Under-trans x k none h u = tt
  Under-trans x k (some m) h u = lt_trans x k m h u

  pub Above-trans : (x k : K) (min : Option K) → o.lt x k ≡ false → Over o k min → Above o.lt x min
  Above-trans x k none h u = tt
  Above-trans x k (some m) h u = lt_asym law m x (lt_le_trans law m k x u h)

  pub Chain-Within :
      {A : Type 0} (P : Option K → Option K → A → Type 0) (f : A → List K)
      → ((min max : Option K) (t : A) → P min max t → All (Within o min max) (f t))
      → (min max : Option K) (t : A) (es : List (K × A)) → Chain o P min max t es
      → All (Within o min max) (f t ++ gather K f es)
  Chain-Within P f each min max t [] c = All-append _ (f t) [] (each min max t c) tt
  Chain-Within P f each min max t ((k, u) ∷ es) (ct, over, under, cs) =
      All-append _ (f t) _
        (All-imp (λ x w. (w.0, Under-trans x k max w.1 under)) (f t) (each min (some k) t ct))
        (All-imp (λ x w. (Above-trans x k min w.0 over, w.1)) _
          (Chain-Within P f each (some k) max u es cs))

  -- The keys of an ordered tree lie between its edges.
  pub keys-Within :
      (h : ℕ) (min max : Option K) (t : Tree K h)
      → Ordered o h min max t
      → All (Within o min max) (keys K h t)
  keys-Within zero min max t c = c.1
  keys-Within (suc h) min max t c =
      Chain-Within (Ordered o h) (keys K h) (keys-Within h) min max t.1 t.2 c

  pub binary_search-below :
      (k x : K) (ks : List K) → o.lt x k ≡ true → binary_search o (k ∷ ks) x ≡ absent 0
  unfolding binary_search
  binary_search-below k x ks h = ground (arith, lt_asym law x k h)

  pub binary_search-next :
      (k x : K) (ks : List K)
      → o.lt k x ≡ true
      → binary_search o (k ∷ ks) x ≡ next_place (binary_search o ks x)
  unfolding binary_search
  binary_search-next k x ks h = ground arith

  pub binary_search-present : (k : K) (ks : List K) → binary_search o (k ∷ ks) k ≡ present 0
  unfolding binary_search
  binary_search-present k ks = ground (arith, lt_irrefl k)
