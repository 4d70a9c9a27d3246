-- ===== src/BpTree/Contains.antt =====
-- `contains` answers for the keys of the leaves.
use wavedb.Base.{
  All-imp, ℕ, zero, suc, ◌≡◌, refl, sym, ap, subst, ◌∙◌, arith, List, [], ◌∷◌, ◌++◌, map,
  append-nil, All, true, false, Option, none, some, Bool-cases, inl, inr,
}
use wavedb.Ids.LocalId.{LocalId}
use wavedb.BpTree.Fault.{Result, ok}
use wavedb.BpTree.Key.{NodeKey, IsLawful}
use wavedb.BpTree.Node.{NodeBody}
use wavedb.BpTree.Search.{
  BpTree, GetOf, binary_search, child_and_index, child_for, load, contains_from, contains,
}
use wavedb.BpTree.Routing.{child_and_index-below, child_and_index-right}
use wavedb.BpTree.Order.{
  member, member-append, member-below, member-above, Chain-Within, keys-Within,
  is_present-binary_search,
}
use wavedb.BpTree.Shape.{
  Represents, Tree, root_id, entries_of, gather, keys, Holds, Within, Chain, Ordered, lt_le_trans,
}

module _ {K : Type 0} {o : NodeKey K} (law : IsLawful o) where
  open law use {lt_irrefl, lt_trans, lt_total}

  child_for-nil : (c : LocalId) (x : K) → child_for o c [] x ≡ c
  unfolding child_for child_and_index binary_search
  child_for-nil c x = refl

  child_for-below :
      (c d : LocalId) (k x : K) (es : List (K × LocalId))
      → o.lt x k ≡ true
      → child_for o c ((k, d) ∷ es) x ≡ c
  unfolding child_for
  child_for-below c d k x es h = ap (λ r. r.0) (child_and_index-below law c d k x es h)

  child_for-right :
      {A : Type 0} (P : Option K → Option K → A → Type 0) (root : A → LocalId)
      → (c : LocalId) (k x : K) (max : Option K) (t : A) (es : List (K × A))
      → Chain o P (some k) max t es
      → o.lt x k ≡ false
      → child_for o c ((k, root t) ∷ map (λ e. (e.0, root e.1)) es) x
        ≡ child_for o (root t) (map (λ e. (e.0, root e.1)) es) x
  unfolding child_for
  child_for-right P root c k x max t es h high =
      ap (λ r. r.0) (child_and_index-right law P root c k x max t es h high)

  -- The subtree that the descent for `x` takes: it stands in the store, it is ordered, and it
  -- holds `x` where the whole chain does.
  abbrev Route : (LocalId → Result (NodeBody K)) → (h : ℕ) → LocalId → K → List K → Type 0
  Route load h c x ks =
      (u : Tree K h) × (root_id K h u ≡ c)
      × Holds K load h u
      × ((min : Option K) × (max : Option K) × Ordered o h min max u)
      × (member law x (keys K h u) ≡ member law x ks)

  not_after :
      (x k : K) (max : Option K) (ks : List K)
      → o.lt x k ≡ true
      → All (Within o (some k) max) ks
      → member law x ks ≡ false
  not_after x k max ks h w =
      member-above law x ks (All-imp (λ l v. lt_le_trans law x k l h v.0) ks w)

  not_before :
      (x k : K) (min : Option K) (ks : List K)
      → o.lt x k ≡ false
      → All (Within o min (some k)) ks
      → member law x ks ≡ false
  not_before x k min ks h w =
      member-below law x ks (All-imp (λ l v. lt_le_trans law l k x v.1 h) ks w)

  route :
      (load : LocalId → Result (NodeBody K)) (h : ℕ) (x : K) (min max : Option K) (t : Tree K h)
      (es : List (K × Tree K h))
      → Chain o (Ordered o h) min max t es
      → Holds K load h t
      → All (λ e. Holds K load h e.1) es
      → Route load h
          (child_for o (root_id K h t) (entries_of K h es) x)
          x
          (keys K h t ++ gather K (keys K h) es)
  route load h x min max t [] c ht hes = (
    t,
    sym (child_for-nil (root_id K h t) x),
    ht,
    (min, max, c),
    sym (ap (member law x) (append-nil (keys K h t))),
  )
  route load h x min max t ((k, u) ∷ es) (ct, over, under, cs) ht (hu, hes) =
      elim (Bool-cases (o.lt x k)) [
        | inl low ↦ (
          t,
          sym (child_for-below _ _ k x _ low),
          ht,
          (min, some k, ct),
          ground (
            arith,
            member-append law x (keys K h t) (keys K h u ++ gather K (keys K h) es),
            not_after x k max _ low (chain_keys (some k) max u es cs),
          ),
        )
        | inr high ↦
            (let (v, r, hv, ov, m) = route load h x (some k) max u es cs hu hes in
              (
                v,
                r ∙ sym (child_for-right (Ordered o h) (root_id K h) _ k x max u es cs high),
                hv,
                ov,
                ground (
                  arith,
                  m,
                  member-append law x (keys K h t) (keys K h u ++ gather K (keys K h) es),
                  not_before x k min _ high (keys-Within law h min (some k) t ct),
                ),
              ))
      ]
    where
      chain_keys :
          (min max : Option K) (t : Tree K h) (es : List (K × Tree K h))
          → Chain o (Ordered o h) min max t es
          → All (Within o min max) (keys K h t ++ gather K (keys K h) es)
      chain_keys = Chain-Within law (Ordered o h) (keys K h) (keys-Within law h)

  module _ (t : BpTree) (get_of : GetOf) where
    -- In a store that holds an ordered tree of the height `h`, `h + 1` loads are enough for the
    -- descent from its root, which finds a key exactly where a scan of all leaves finds it.
    pub contains_from_lem :
        (h : ℕ) (x : K) (min max : Option K) (u : Tree K h)
        → Holds K (load o t get_of) h u
        → Ordered o h min max u
        → contains_from o t get_of (suc h) (root_id K h u) x ≡ ok (member law x (keys K h u))
    unfolding contains_from
    contains_from_lem zero x min max u hu ou =
        rw hu (ap ok (is_present-binary_search law x u.1 ou.0))
    contains_from_lem (suc h) x min max u (at, first, rest) ou =
        let (v, r, hv, (lo, hi, ov), m) =
          route (load o t get_of) h x min max u.1 u.2 ou first rest in
        rw at (
          subst (λ c. contains_from o t get_of (suc h) c x ≡ ok (member law x (keys K (suc h) u))) r
            (contains_from_lem h x lo hi v hv ov ∙ ap ok m))

    -- Where a store holds a tree of the height `h`, `h + 1` loads are enough for `contains`, which
    -- answers as a scan of the keys of all leaves.
    pub contains-member :
        (h : ℕ) (x : K) (u : Tree K h)
        → Represents o t (load o t get_of) h u
        → contains o t get_of (suc h) x ≡ ok (member law x (keys K h u))
    unfolding contains
    contains-member h x u r =
        subst (λ c. contains_from o t get_of (suc h) c x ≡ ok (member law x (keys K h u))) r.root
          (contains_from_lem h x none none u r.holds r.ordered)
