-- ===== src/BpTree/Insert/Leaf.antt =====
-- An insert into a leaf, which may split it.
use wavedb.Base.{
  ℕ, zero, suc, ◌/◌, ◌≤◌, ◌≡◌, refl, sym, ap, subst, ◌∙◌, arith, List, [], ◌∷◌, ◌++◌, length, take,
  drop, append-nil, All, All-take, All-drop, append-take-drop, drop-some, length-take, true, false,
  Option, none, some, leb, Bool-cases, inl, inr, ◌⊎◌,
}
use wavedb.Ids.LocalId.{LocalId}
use wavedb.BpTree.Fault.{Result, ok}
use wavedb.BpTree.Key.{NodeKey, IsLawful}
use wavedb.BpTree.Node.{NodeBody, leaf, first}
use wavedb.BpTree.Search.{BpTree, Found, present, absent, binary_search}
use wavedb.BpTree.Insert.{
  put, PathFrame, prepend, descend, propagate, insert_leaf, insert_found, apply,
}
use wavedb.BpTree.Shape.{Tree, Holds, Over, IsSorted, Within, Ordered, lt_asym, le_lt_trans}
use wavedb.BpTree.Insert.Ids.{
  same_id_refl, take_change-put, take_change-put_ne, apply-split_left, apply-split_right,
  apply-split_ne,
}
use wavedb.BpTree.Insert.Order.{
  insert_sorted, insert_sorted-All, insert_sorted-IsSorted, place, place-binary_search,
}
use wavedb.BpTree.Insert.Chain.{Grown, insert_from, Distinct}

module _ {K : Type 0} {o : NodeKey K} (law : IsLawful o) where
  open law use {lt_irrefl, lt_trans, lt_total}

  -- Cutting sorted keys at `sep`.
  pub IsSorted-cut :
      (mid : ℕ) (ks : List K) (sep : K) (rest : List K)
      → IsSorted o ks
      → drop mid ks ≡ sep ∷ rest
      → All (λ k. o.lt k sep ≡ true) (take mid ks)
        × IsSorted o (take mid ks)
        × IsSorted o (sep ∷ rest)
  IsSorted-cut zero ks sep rest s e = (tt, tt, subst (IsSorted o) e s)
  IsSorted-cut (suc mid) [] sep rest s e = cc
  IsSorted-cut (suc mid) (k ∷ ks) sep rest (up, s) e =
      let (below, sorted, behind) = IsSorted-cut mid ks sep rest s e in
      (
        (
          head (λ l. o.lt k l ≡ true) sep rest
              (subst (All (λ l. o.lt k l ≡ true)) e (All-drop _ mid ks up)),
          below,
        ),
        (All-take _ mid ks up, sorted),
        behind,
      )
    where
      head : (P : K → Type 0) (a : K) (ks : List K) → All P (a ∷ ks) → P a
      head P a ks h = h.0

  -- Keys before the cut put it strictly above the lower edge.
  pub Over-cut :
      (min max : Option K) (sep : K) (ks : List K)
      → 1 ≤ length ks
      → All (Within o min max) ks
      → All (λ k. o.lt k sep ≡ true) ks
      → Over o sep min
  Over-cut min max sep [] n w h = absurd (omega (arith, n))
  Over-cut none max sep (k ∷ ks) n w h = tt
  Over-cut (some m) max sep (k ∷ ks) n (w, ws) (h, hs) = le_lt_trans law m k sep w.0 h

  pub sep_first :
      (max : Option K) (min : Option K) (sep : K) (rest : List K)
      → IsSorted o (sep ∷ rest)
      → All (Within o min max) (sep ∷ rest)
      → All (Within o (some sep) max) (sep ∷ rest)
  sep_first max min sep rest (up, s) (w, ws) = ((lt_irrefl sep, w.1), go rest up ws)
    where
      go :
          (rest : List K)
          → All (λ l. o.lt sep l ≡ true) rest
          → All (Within o min max) rest
          → All (Within o (some sep) max) rest
      go [] up ws = tt
      go (l ∷ rest) (u, up) (w, ws) = ((lt_asym law sep l u, w.1), go rest up ws)

  pub under_sep :
      (min max : Option K) (sep : K) (ks : List K)
      → All (Within o min max) ks
      → All (λ k. o.lt k sep ≡ true) ks
      → All (Within o min (some sep)) ks
  under_sep min max sep [] w h = tt
  under_sep min max sep (k ∷ ks) (w, ws) (h, hs) = ((w.0, h), under_sep min max sep ks ws hs)

  Found-cases : (f : Found) → ((i : ℕ) × (f ≡ present i)) ⊎ ((i : ℕ) × (f ≡ absent i))
  Found-cases (present i) = inl (i, refl)
  Found-cases (absent i) = inr (i, refl)

module _ {K : Type 0} {o : NodeKey K} (law : IsLawful o) (t : BpTree) (mint : ℕ → LocalId)
    (load : LocalId → Result (NodeBody K)) (x : K) where
  insert_found-present :
      (path : List (PathFrame K)) (id : LocalId) (ks : List K) (i : ℕ)
      → binary_search o ks x ≡ present i
      → insert_found o t mint x (path, id, ks) ≡ ([], t)
  unfolding insert_found
  insert_found-present path id ks i e = rw (insert_found, e) refl

  insert_found-absent :
      (path : List (PathFrame K)) (id : LocalId) (ks : List K) (i : ℕ)
      → binary_search o ks x ≡ absent i
      → insert_found o t mint x (path, id, ks) ≡ insert_leaf o t mint path id (insert_sorted o x ks)
  unfolding insert_found
  insert_found-absent path id ks i e =
      rw (insert_found, e)
        (ap (insert_leaf o t mint path id) (sym (ap (place x ks) e) ∙ place-binary_search law x ks))

  insert_leaf-fits :
      (path : List (PathFrame K)) (id : LocalId) (ks : List K)
      → leb (length ks) t.leaf_cap ≡ true
      → insert_leaf o t mint path id ks ≡ (put id (leaf ks) ∷ [], t)
  unfolding insert_leaf
  insert_leaf-fits path id ks h = rw h refl

  insert_leaf-splits :
      (path : List (PathFrame K)) (id : LocalId) (ks : List K) (mid : ℕ) (sep : K) (rest : List K)
      → mid ≡ length ks / 2
      → leb (length ks) t.leaf_cap ≡ false
      → drop mid ks ≡ sep ∷ rest
      → insert_leaf o t mint path id ks
        ≡ prepend
            (put id (leaf (take mid ks)) ∷ put (mint 0) (leaf (drop mid ks)) ∷ [])
            (propagate o t mint path id sep (mint 0) 1)
  unfolding insert_leaf
  insert_leaf-splits path id ks mid sep rest m h e =
      rw (m, h, ap first (sym (ap (λ i. drop i ks) m) ∙ e)) refl

  run_leaf :
      (id : LocalId) (ks : List K) (path : List (PathFrame K))
      → load id ≡ ok (leaf ks)
      → insert_from o t mint load x 0 id path ≡ ok (insert_found o t mint x (path, id, ks))
  run_leaf id ks path at = unfold descend in rw at refl

  -- The key is there, or the leaf has room for it.
  leaf_kept :
      (u : Tree K 0) (min max : Option K)
      → Ordered o 0 min max u
      → Holds K load 0 u
      → (i : ℕ) → binary_search o u.1 x ≡ present i
      → Grown o t mint load x 0 u min max
  leaf_kept u min max ou at i e = record {
    changes = [];
    used = 0;
    left = u;
    pend = none;
    used_up = tt;
    root = refl;
    run = λ path. run_leaf u.0 u.1 path at ∙ ap ok (insert_found-present path u.0 u.1 i e);
    holds_left = unfold apply in at;
    holds_pend = tt;
    ordered = ou;
    all_keys = append-nil u.1 ∙ sym (ap (place x u.1) e) ∙ place-binary_search law x u.1;
    all_ids = λ p. omega arith;
    kept = λ p n m. unfold apply in refl;
  }

  leaf_fits :
      (u : Tree K 0) (min max : Option K)
      → Ordered o 0 min max u
      → Holds K load 0 u
      → Within o min max x
      → (i : ℕ) → binary_search o u.1 x ≡ absent i
      → leb (length (insert_sorted o x u.1)) t.leaf_cap ≡ true
      → Grown o t mint load x 0 u min max
  leaf_fits (id, ks) min max (s, w) at wx i e fits = record {
    changes = put id (leaf (insert_sorted o x ks)) ∷ [];
    used = 0;
    left = (id, insert_sorted o x ks);
    pend = none;
    used_up = tt;
    root = refl;
    run = λ path.
        run_leaf id ks path at
        ∙ ap ok (
            insert_found-absent path id ks i e
            ∙ insert_leaf-fits path id (insert_sorted o x ks) fits);
    holds_left = unfold apply in take_change-put id _ load;
    holds_pend = tt;
    ordered =
        (insert_sorted-IsSorted law x ks s, insert_sorted-All law (Within o min max) x ks wx w);
    all_keys = append-nil (insert_sorted o x ks);
    all_ids = λ p. omega arith;
    kept = λ p n m. unfold apply in take_change-put_ne p id _ load (ground (arith, n));
  }

  -- The leaf splits before `sep`.
  leaf_splits :
      (u : Tree K 0) (min max : Option K) (new : List K) (mid : ℕ) (sep : K) (rest : List K)
      → new ≡ insert_sorted o x u.1
      → mid ≡ length new / 2
      → 1 ≤ length (take mid new)
      → drop mid new ≡ sep ∷ rest
      → IsSorted o new
      → All (Within o min max) new
      → Holds K load 0 u
      → Distinct o t mint load x (u.0 ∷ [])
      → (i : ℕ) → binary_search o u.1 x ≡ absent i
      → leb (length new) t.leaf_cap ≡ false
      → Grown o t mint load x 0 u min max
  leaf_splits (id, ks) min max new mid sep rest is_new is_mid left cut sorted within at d i e over =
      let (below, first_sorted, second_sorted) = IsSorted-cut law mid new sep rest sorted cut in
      let second : All (Within o min max) (sep ∷ rest) =
        subst (All (Within o min max)) cut (All-drop _ mid new within) in
      let first_within = All-take (Within o min max) mid new within in
      record {
        changes = put id (leaf (take mid new)) ∷ put (mint 0) (leaf (drop mid new)) ∷ [];
        used = 1;
        left = (id, take mid new);
        pend = some (sep, (mint 0, drop mid new));
        used_up = refl;
        root = refl;
        run = λ path.
            run_leaf id ks path at
            ∙ ap ok (
                insert_found-absent path id ks i e
                ∙ ap (insert_leaf o t mint path id) (sym is_new)
                ∙ insert_leaf-splits path id new mid sep rest is_mid over cut);
        holds_left =
            apply-split_left id (mint 0) _ _ load (ground (arith, (d id).1 1, same_id_refl id));
        holds_pend =
            (apply-split_right id (mint 0) (leaf (take mid new)) (leaf (drop mid new)) load, tt);
        ordered = (
          (first_sorted, under_sep law min max sep (take mid new) first_within below),
          Over-cut law min max sep (take mid new) left first_within below,
          second.0.1,
          (
            subst (IsSorted o) (sym cut) second_sorted,
            subst (All (Within o (some sep) max)) (sym cut)
                (sep_first law max min sep rest second_sorted second),
          ),
        );
        all_keys =
            ap (λ r. take mid new ++ r) (append-nil (drop mid new))
            ∙ append-take-drop mid new
            ∙ is_new;
        all_ids = λ p. omega arith;
        kept =
            λ p n m. apply-split_ne id (mint 0) _ _ load p (ground (arith, n)) (ground (arith, m));
      }

  -- An insert grows every leaf, where a leaf may hold a key.
  pub leaf_grows :
      1 ≤ t.leaf_cap
      → (u : Tree K 0) (min max : Option K) → Ordered o 0 min max u
      → Holds K load 0 u
      → Distinct o t mint load x (u.0 ∷ [])
      → Within o min max x
      → Grown o t mint load x 0 u min max
  leaf_grows room u min max (s, w) at d wx = elim (Found-cases law (binary_search o u.1 x)) [
    | inl (i, e) ↦ leaf_kept u min max (s, w) at i e
    | inr (i, e) ↦ elim (Bool-cases (leb (length new) t.leaf_cap)) [
      | inl fits ↦ leaf_fits u min max (s, w) at wx i e fits
      | inr over ↦
          (let long : 2 ≤ length new = ground (arith, over, room) in
            let (sep, rest, cut) = drop-some (length new / 2) new (omega (arith, long)) in
            leaf_splits u min max new (length new / 2) sep rest refl refl
              (omega (arith, long, length-take (length new / 2) new)) cut
              (insert_sorted-IsSorted law x u.1 s)
              (insert_sorted-All law (Within o min max) x u.1 wx w) at d i e over)
    ]
  ]
    where
      new : List K
      new = insert_sorted o x u.1
