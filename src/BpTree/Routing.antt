-- ===== src/BpTree/Routing.antt =====
-- Which child of a node a descent takes.
use wavedb.Base.{
  ℕ, suc, ◌≡◌, refl, sym, ap, subst, ◌∙◌, List, [], ◌∷◌, map, true, false, Option, some, Bool-cases,
  inl, inr,
}
use wavedb.Ids.LocalId.{LocalId}
use wavedb.BpTree.Key.{NodeKey, IsLawful}
use wavedb.BpTree.Search.{
  Found, found_child, next_place, present, absent, child_and_index, binary_search,
}
use wavedb.BpTree.Shape.{Chain}
use wavedb.BpTree.Order.{binary_search-below, binary_search-next, binary_search-present}

module _ {K : Type 0} {o : NodeKey K} (law : IsLawful o) where
  open law use {lt_irrefl, lt_trans, lt_total}

  abbrev pub bump : LocalId × ℕ → LocalId × ℕ
  bump (c, i) = (c, suc i)

  found_child-next_place :
      (c d : LocalId) (k : K) (es : List (K × LocalId)) (f : Found)
      → found_child c ((k, d) ∷ es) (next_place f) ≡ bump (found_child d es f)
  found_child-next_place c d k es (present i) = refl
  found_child-next_place c d k es (absent i) = refl

  pub child_and_index-below :
      (c d : LocalId) (k x : K) (es : List (K × LocalId))
      → o.lt x k ≡ true
      → child_and_index o c ((k, d) ∷ es) x ≡ (c, 0)
  unfolding child_and_index
  child_and_index-below c d k x es h =
      ap (found_child c ((k, d) ∷ es)) (binary_search-below law k x (map (λ e. e.0) es) h)

  pub child_and_index-next :
      (c d : LocalId) (k x : K) (es : List (K × LocalId))
      → o.lt k x ≡ true
      → child_and_index o c ((k, d) ∷ es) x ≡ bump (child_and_index o d es x)
  unfolding child_and_index
  child_and_index-next c d k x es h =
      ap (found_child c ((k, d) ∷ es)) (binary_search-next law k x (map (λ e. e.0) es) h)
      ∙ found_child-next_place c d k es (binary_search o (map (λ e. e.0) es) x)

  module _ {A : Type 0} (P : Option K → Option K → A → Type 0) (root : A → LocalId) where
    abbrev pub heads : List (K × A) → List (K × LocalId)
    heads es = map (λ e. (e.0, root e.1)) es

    child_and_index-front :
        (c : LocalId) (x : K) (max : Option K) (t : A) (es : List (K × A))
        → Chain o P (some x) max t es
        → child_and_index o c (heads es) x ≡ (c, 0)
    child_and_index-front c x max t [] h = unfold child_and_index binary_search in refl
    child_and_index-front c x max t ((k, u) ∷ es) (ct, over, under, rest) =
        child_and_index-below c (root u) k x (heads es) over

    pub child_and_index-right :
        (c : LocalId) (k x : K) (max : Option K) (t : A) (es : List (K × A))
        → Chain o P (some k) max t es
        → o.lt x k ≡ false
        → child_and_index o c ((k, root t) ∷ heads es) x
          ≡ bump (child_and_index o (root t) (heads es) x)
    child_and_index-right c k x max t es h high = elim (Bool-cases (o.lt k x)) [
      | inl up ↦ child_and_index-next c (root t) k x (heads es) up
      | inr flat ↦
          subst
            (λ y.
              child_and_index o c ((y, root t) ∷ heads es) x
              ≡ bump (child_and_index o (root t) (heads es) x))
            (lt_total x k high flat)
            (same_key c x max t es
              (subst (λ y. Chain o P (some y) max t es) (sym (lt_total x k high flat)) h))
    ]
      where
        same_key :
            (c : LocalId) (x : K) (max : Option K) (t : A) (es : List (K × A))
            → Chain o P (some x) max t es
            → child_and_index o c ((x, root t) ∷ heads es) x
              ≡ bump (child_and_index o (root t) (heads es) x)
        same_key c x max t es h =
            unfold child_and_index in
            (ap (found_child c ((x, root t) ∷ heads es))
                (binary_search-present law x (map (λ e. e.0) (heads es)))
              ∙ sym (ap bump (child_and_index-front (root t) x max t es h)))
