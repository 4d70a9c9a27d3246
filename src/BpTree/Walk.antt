-- ===== src/BpTree/Walk.antt =====
-- The search walk yields the matching keys, in the order of the leaves.
use wavedb.Base.{
  ℕ, zero, suc, ◌+◌, ◌≤◌, ◌≡◌, refl, sym, ap, subst, ◌∙◌, arith, List, [], ◌∷◌, ◌++◌, map, All,
  All-append_parts, append-nil, append_assoc, false, Option, none, some, if◌then◌else◌, Bool-cases,
  inl, inr,
}
use wavedb.Ids.LocalId.{LocalId}
use wavedb.Index.Bound.{Bound}
use wavedb.Index.NodeKey.Pruning.{Above, Below}
use wavedb.BpTree.Key.{NodeKey, IsLawful}
use wavedb.BpTree.Search.{
  BpTree, GetOf, load, matching, push_kept, expand_from, expand_children, Item, key, walk,
  search_keys,
}
use wavedb.BpTree.Shape.{
  Represents, Tree, root_id, entries_of, gather, keys, sum, size, Holds, Under, Within, Chain,
  Ordered, lt_asym,
}
use wavedb.BpTree.Order.{keys-Within}

module _ {K : Type 0} {o : NodeKey K} (law : IsLawful o) (b : Bound) where
  open law use {KeyFits, may_intersect_sound}

  matching-append : (ks ls : List K) → matching o b (ks ++ ls) ≡ matching o b ks ++ matching o b ls
  unfolding matching
  matching-append [] ls = refl
  matching-append (k ∷ ks) ls = ground (arith, matching-append ks ls)

  -- Keys between the edges of a window that is skipped match nothing.
  abbrev InWindow : Option K → Option K → K → Type 0
  InWindow min max k = KeyFits b k × Above o.lt k min × Below o.lt k max

  matching-pruned :
      (min max : Option K) (ks : List K)
      → All (InWindow min max) ks
      → o.may_intersect b min max ≡ false
      → matching o b ks ≡ []
  unfolding matching
  matching-pruned min max [] w p = refl
  matching-pruned min max (k ∷ ks) ((fits, lo, hi), w) p = elim (Bool-cases (o.matches k b)) [
    | inl hit ↦ ground (arith, p, may_intersect_sound b k min max fits hit lo hi)
    | inr miss ↦ rw miss (matching-pruned min max ks w p)
  ]

  Under-Below : (k : K) (max : Option K) → Under o k max → Below o.lt k max
  Under-Below k none u = tt
  Under-Below k (some m) u = lt_asym law k m u

  -- A subtree of any height.
  abbrev Sub : Type 0
  Sub = (h : ℕ) × Tree K h

  abbrev roots : List Sub → List LocalId
  roots ts = map (λ p. root_id K p.0 p.1) ts

  abbrev total : List Sub → ℕ
  total [] = 0
  total ((h, t) ∷ ts) = size K h t + total ts

  abbrev yields : List Sub → List K
  yields [] = []
  yields ((h, t) ∷ ts) = matching o b (keys K h t) ++ yields ts

  -- The subtrees that `expand_from` keeps, before `ts`.
  abbrev keep_from : (h : ℕ) → Option K → Tree K h → List (K × Tree K h) → List Sub → List Sub
  keep_from h min t [] ts = if o.may_intersect b min none then (h, t) ∷ ts else ts
  keep_from h min t ((k, u) ∷ es) ts =
      let rest = keep_from h (some k) u es ts in
      if o.may_intersect b min (some k) then (h, t) ∷ rest else rest

  expand_from-keep_from :
      (h : ℕ) (min : Option K) (t : Tree K h) (es : List (K × Tree K h)) (ts : List Sub)
      → expand_from o b min (root_id K h t) (entries_of K h es) (roots ts)
        ≡ roots (keep_from h min t es ts)
  unfolding expand_from push_kept
  expand_from-keep_from h min t [] ts = ground arith
  expand_from-keep_from h min t ((k, u) ∷ es) ts =
      ground (arith, expand_from-keep_from h (some k) u es ts)

  total-keep_from :
      (h : ℕ) (min : Option K) (t : Tree K h) (es : List (K × Tree K h)) (ts : List Sub)
      → total (keep_from h min t es ts) ≤ size K h t + sum K (size K h) es + total ts
  total-keep_from h min t [] ts = ground arith
  total-keep_from h min t ((k, u) ∷ es) ts = ground (arith, total-keep_from h (some k) u es ts)

  All-keep_from :
      (P : Sub → Type 0) (h : ℕ) (min : Option K) (t : Tree K h) (es : List (K × Tree K h))
      (ts : List Sub)
      → P (h, t)
      → All (λ e. P (h, e.1)) es
      → All P ts
      → All P (keep_from h min t es ts)
  All-keep_from P h min t [] ts pt pes pts = ground arith
  All-keep_from P h min t ((k, u) ∷ es) ts pt (pu, pes) pts =
      ground (arith, All-keep_from P h (some k) u es ts pu pes pts)

  in_window :
      (min max cmin : Option K) (cmax : Option K) (ks : List K)
      → ((x : K) → Above o.lt x min → Above o.lt x cmin)
      → ((x : K) → Under o x max → Below o.lt x cmax)
      → All (KeyFits b) ks
      → All (Within o min max) ks
      → All (InWindow cmin cmax) ks
  in_window min max cmin cmax [] f g hf hw = tt
  in_window min max cmin cmax (k ∷ ks) f g (hf, fits) ((lo, hi), w) =
      ((hf, f k lo, g k hi), in_window min max cmin cmax ks f g fits w)

  -- Skipping subtrees skips no match.
  yields-keep_from :
      (h : ℕ) (min max cmin : Option K) (t : Tree K h) (es : List (K × Tree K h)) (ts : List Sub)
      → ((x : K) → Above o.lt x min → Above o.lt x cmin)
      → Chain o (Ordered o h) min max t es
      → All (KeyFits b) (keys K h t ++ gather K (keys K h) es)
      → yields (keep_from h cmin t es ts)
        ≡ matching o b (keys K h t ++ gather K (keys K h) es) ++ yields ts
  yields-keep_from h min max cmin t [] ts f c fits = ground (
    arith,
    append-nil (keys K h t),
    matching-pruned cmin none (keys K h t) (
        in_window min max cmin none (keys K h t) f (λ x u. tt)
          (All-append_parts (KeyFits b) (keys K h t) [] fits).0 (keys-Within law h min max t c)),
  )
  yields-keep_from h min max cmin t ((k, u) ∷ es) ts f (ct, over, under, cs) fits =
      let parts = All-append_parts (KeyFits b) (keys K h t) _ fits in
      ground (
        arith,
        yields-keep_from h (some k) max (some k) u es ts (λ x a. a) cs parts.1,
        matching-append (keys K h t) (keys K h u ++ gather K (keys K h) es),
        append_assoc (matching o b (keys K h t))
            (matching o b (keys K h u ++ gather K (keys K h) es)) (yields ts),
        matching-pruned cmin (some k) (keys K h t) (
            in_window min (some k) cmin (some k) (keys K h t) f (λ x u. Under-Below x (some k) u)
              parts.0 (keys-Within law h min (some k) t ct)),
      )

  map-append : (ks ls : List K) → map {B = Item K} key (ks ++ ls) ≡ map key ks ++ map key ls
  map-append [] ls = refl
  map-append (k ∷ ks) ls = ap (λ t. key k ∷ t) (map-append ks ls)

  module _ (t : BpTree) (get_of : GetOf) where
    -- A subtree that the walk still meets: it stands in the store, and it is ordered.
    abbrev Stands : Sub → Type 0
    Stands p =
        Holds K (load o t get_of) p.0 p.1
        × ((min : Option K) × (max : Option K) × Ordered o p.0 min max p.1)
        × All (KeyFits b) (keys K p.0 p.1)

    children_stand :
        (h : ℕ) (min max : Option K) (u : Tree K h) (es : List (K × Tree K h))
        → Chain o (Ordered o h) min max u es
        → Holds K (load o t get_of) h u
        → All (λ e. Holds K (load o t get_of) h e.1) es
        → All (KeyFits b) (keys K h u ++ gather K (keys K h) es)
        → Stands (h, u) × All (λ e. Stands (h, e.1)) es
    children_stand h min max u [] c hu hes fits =
        ((hu, (min, max, c), (All-append_parts (KeyFits b) (keys K h u) [] fits).0), tt)
    children_stand h min max u ((k, v) ∷ es) (c, over, under, cs) hu (hv, hes) fits =
        let parts = All-append_parts (KeyFits b) (keys K h u) _ fits in
        let (sv, ses) = children_stand h (some k) max v es cs hv hes parts.1 in
        ((hu, (min, some k, c), parts.0), (sv, ses))

    walk-yields :
        (f : ℕ) (ts : List Sub)
        → total ts ≤ f
        → All Stands ts
        → walk o t get_of b f (roots ts) ≡ map key (yields ts)
    unfolding walk
    walk-yields f [] n s = refl
    walk-yields zero ((zero, u) ∷ ts) n s = absurd (omega (arith, n))
    walk-yields zero ((suc h, u) ∷ ts) n s = absurd (omega (arith, n))
    walk-yields (suc f) ((zero, u) ∷ ts) n ((hu, ou, fits), s) =
        rw (walk, hu)
          (ap (λ r. map key (matching o b u.1) ++ r) (walk-yields f ts (omega (arith, n)) s)
            ∙ sym (map-append (matching o b u.1) (yields ts)))
    walk-yields (suc f) ((suc h, u) ∷ ts) n (((at, first, rest), (lo, hi, ou), fits), s) =
        let below = children_stand h lo hi u.1 u.2 ou first rest fits in
        rw (walk, at)
          (ap (walk o t get_of b f) (expanded u ts)
            ∙ walk-yields f (keep_from h none u.1 u.2 ts)
                (omega (arith, n, total-keep_from h none u.1 u.2 ts))
                (All-keep_from Stands h none u.1 u.2 ts below.0 below.1 s)
            ∙ ap (map key) (yields-keep_from h lo hi none u.1 u.2 ts (λ x a. tt) ou fits))
      where
        expanded :
            (u : Tree K (suc h)) (ts : List Sub)
            → expand_children o b (root_id K h u.1) (entries_of K h u.2) (roots ts)
              ≡ roots (keep_from h none u.1 u.2 ts)
        expanded u ts = unfold expand_children in expand_from-keep_from h none u.1 u.2 ts

    -- Where a store holds a tree whose keys and whose bound fit, as many loads as the tree has
    -- nodes are enough for the walk, which prunes subtrees and yields, in the order of the leaves,
    -- the keys that match the bound, and no fault.
    pub search_keys-matching :
        (h f : ℕ) (u : Tree K h)
        → Represents o t (load o t get_of) h u
        → All (KeyFits b) (keys K h u)
        → size K h u ≤ f
        → search_keys o t get_of b f ≡ map key (matching o b (keys K h u))
    unfolding search_keys
    search_keys-matching h f u r fits enough =
        subst (λ c. walk o t get_of b f (c ∷ []) ≡ map key (matching o b (keys K h u))) r.root
          (walk-yields f ((h, u) ∷ []) (omega (arith, enough))
              ((r.holds, (none, none, r.ordered), fits), tt)
            ∙ ap (map key) (append-nil (matching o b (keys K h u))))
