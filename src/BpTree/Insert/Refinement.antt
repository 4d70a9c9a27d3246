-- ===== src/BpTree/Insert/Refinement.antt =====
-- `plan_insert` implements the insert of a key into sorted keys.
use wavedb.Base.{
  ℕ, zero, suc, ◌+◌, ◌/◌, ◌≤◌, ◌≡◌, refl, sym, ap, subst, ◌∙◌, arith, List, [], ◌∷◌, ◌++◌, length,
  append-nil, drop-some, drop-next, length-map, false, Option, none, some, leb, All, Bool-cases,
  Option-cases, inl, inr,
}
use wavedb.Ids.LocalId.{LocalId}
use wavedb.BpTree.Fault.{Result, ok, ◌>>=◌}
use wavedb.BpTree.Key.{NodeKey, IsLawful}
use wavedb.BpTree.Node.{leaf, NodeBody, internal}
use wavedb.BpTree.Search.{at, BpTree}
use wavedb.BpTree.Insert.{
  Nodes, plan_create, create, insert, Change, put, Plan, propagate, plan_insert, insert_found,
  descend, take_change, apply,
}
use wavedb.BpTree.Shape.{
  Tree, Represents, root_id, entries_of, gather, keys, ids, Holds, Chain, Ordered,
}
use wavedb.BpTree.Insert.Ids.{
  count, count-append, mints, take_change-put, take_change-put_ne, apply-append, Holds-frame,
}
use wavedb.BpTree.Insert.Order.{list_of, insert_sorted}
use wavedb.BpTree.Insert.Chain.{Grown, Chained, UsedUp, after, Distinct, chain_ids, insert_from}
use wavedb.BpTree.Insert.Below.{Grows, chained}
use wavedb.BpTree.Insert.Leaf.{leaf_grows}
use wavedb.BpTree.Insert.Grow.{node_kept, node_fits, node_splits}

module _ {K : Type 0} {o : NodeKey K} (law : IsLawful o) (t : BpTree) (mint : ℕ → LocalId)
    (load : LocalId → Result (NodeBody K)) (x : K) where
  module _ (once : (p : LocalId) (n : ℕ) → count p (mints mint n) ≤ 1) where
    node_grows :
        (h : ℕ) (id : LocalId) (u : Tree K h) (es : List (K × Tree K h)) (min max : Option K)
        → load id ≡ ok (internal (root_id K h u) (entries_of K h es))
        → Distinct o t mint load x (id ∷ chain_ids o t mint load x h u es)
        → Chained o t mint load x h u es min max
        → Grown o t mint load x (suc h) (id, u, es) min max
    node_grows h id u es min max at d c = elim (Option-cases c.pend) [
      | inl e ↦ node_kept law t mint load x h id u es min max at d c e
      | inr ((k, r), e) ↦ elim (Bool-cases (leb (length (entries_of K h c.rest)) t.internal_cap)) [
        | inl fits ↦ node_fits law t mint load x h id u es min max at d c k r e fits
        | inr over ↦
            (let ((k', v), more, cut) = drop-some (length (entries_of K h c.rest) / 2) c.rest (
                omega (
                  arith,
                  full (entries_of K h c.rest) over,
                  length-map {B = K × LocalId} (λ e. (e.0, root_id K h e.1)) c.rest,
                )) in
              node_splits law t mint load x h id u es min max at d c k r
                (length (entries_of K h c.rest) / 2) k' v more e
                (subst (UsedUp o t mint load x h c.used) e c.used_up) over refl cut
                (drop-next _ c.rest (k', v) more cut) once)
      ]
    ]
      where
        full : (es : List (K × LocalId)) → leb (length es) t.internal_cap ≡ false → 1 ≤ length es
        full es e = ground (arith, e)

    grows : 1 ≤ t.leaf_cap → (h : ℕ) → Grows law t mint load x h
    grows room zero u min max ou hu d w = leaf_grows law t mint load x room u min max ou hu d w
    grows room (suc h) (id, u, es) min max ou (at, first, rest) d w =
        node_grows h id u es min max at d (
          chained law t mint load x h (grows room h) u es min max ou first rest
            (λ p. (omega (arith, (d p).0), λ n m. (d p).1 n (omega (arith, m)))) w)

  -- Ids that the tree and the mint never repeat.
  pub record AreFresh (h : ℕ) (u : Tree K h) : Type 0 where
    pub once : (p : LocalId) (n : ℕ) → count p (mints mint n) ≤ 1
    pub distinct : Distinct o t mint load x (ids K h u)

  -- The tree that a plan leaves behind, once the store has taken its changes.
  pub record Inserted (h : ℕ) (u : Tree K h) (plan : Plan K) : Type 0 where
    pub height : ℕ
    pub tree : Tree K height
    pub used : ℕ
    pub represents : Represents o plan.1 (apply plan.0 load) height tree
    pub all_keys : keys K height tree ≡ insert_sorted o x (keys K h u)
    pub all_ids :
        (p : LocalId)
        → count p (ids K height tree) ≡ count p (ids K h u) + count p (mints mint used)

  same_root :
      (h : ℕ) (u : Tree K h)
      → Represents o t load h u
      → (g : Grown o t mint load x h u none none) → g.pend ≡ none
      → Inserted h u (g.changes, t)
  same_root h u r g e = record {
    height = h;
    tree = g.left;
    used = g.used;
    represents = record {
      root = g.root ∙ r.root;
      holds = g.holds_left;
      ordered = subst (λ q. Chain o (Ordered o h) none none g.left (list_of q)) e g.ordered;
    };
    all_keys =
        sym (append-nil _)
        ∙ sym (ap (λ q. keys K h g.left ++ gather K (keys K h) (list_of q)) e)
        ∙ g.all_keys;
    all_ids = λ p. omega (
      arith,
      g.all_ids p,
      ap (λ q. count p (ids K h g.left ++ gather K (ids K h) (list_of q))) e,
      count-append p (ids K h g.left) [],
    );
  }

  abbrev new_handle : LocalId → BpTree
  new_handle root = record t { root = root }

  -- The root split: a new root stands above its halves.
  new_root :
      (h : ℕ) (u : Tree K h)
      → Represents o t load h u
      → AreFresh h u
      → (g : Grown o t mint load x h u none none) → (k : K) (r : Tree K h) → g.pend ≡ some (k, r)
      → Inserted h u (
        g.changes ++ put (mint (suc h)) (internal t.root ((k, root_id K h r) ∷ [])) ∷ [],
        new_handle (mint (suc h)),
      )
  new_root h u rep fresh g k r e =
      let id : LocalId = mint (suc h) in
      let node : NodeBody K = internal t.root ((k, root_id K h r) ∷ []) in
      let below : LocalId → Result (NodeBody K) = apply g.changes load in
      let after_all : LocalId → Result (NodeBody K) = apply (g.changes ++ put id node ∷ []) load in
      let reads : (p : LocalId) → after_all p ≡ take_change (put id node) below p = λ p.
        ap (λ f. f p) (apply-append g.changes (put id node ∷ []) load) ∙ (unfold apply in refl) in
      let used_up : g.used ≡ suc h = subst (UsedUp o t mint load x h g.used) e g.used_up in
      let ids_of : (p : LocalId)
          → count p (ids K h g.left) + count p (ids K h r)
            ≡ count p (ids K h u) + count p (mints mint (suc h)) =
        λ p. omega (
          arith,
          g.all_ids p,
          ap (λ i. count p (mints mint i)) used_up,
          ap (λ q. count p (ids K h g.left ++ gather K (ids K h) (list_of q))) e,
          count-append p (ids K h g.left) (ids K h r ++ []),
          count-append p (ids K h r) [],
        ) in
      let same : (p : LocalId)
          → 1 ≤ count p (ids K h g.left) + count p (ids K h r)
          → after_all p ≡ below p =
        λ p n.
          reads p
          ∙ take_change-put_ne p id node below (
              ground (
                arith,
                n,
                ids_of p,
                (fresh.distinct p).1 (suc (suc h)),
                fresh.once p (suc (suc h)),
              )) in
      let holds_right : All {A = K × Tree K h} (λ q. Holds K below h q.1) ((k, r) ∷ []) =
        subst (λ q. All {A = K × Tree K h} (λ q. Holds K below h q.1) (list_of q)) e g.holds_pend in
      record {
        height = suc h;
        tree = (id, g.left, (k, r) ∷ []);
        used = suc (suc h);
        represents = record {
          root = refl;
          holds = (
            reads id
                ∙ take_change-put id node below
                ∙ ap (λ l. ok (internal l ((k, root_id K h r) ∷ []))) (sym (g.root ∙ rep.root)),
            Holds-frame below after_all h g.left (λ p n. same p (omega (arith, n))) g.holds_left,
            (Holds-frame below after_all h r (λ p n. same p (omega (arith, n))) holds_right.0, tt),
          );
          ordered = subst (λ q. Chain o (Ordered o h) none none g.left (list_of q)) e g.ordered;
        };
        all_keys =
            sym (ap (λ q. keys K h g.left ++ gather K (keys K h) (list_of q)) e) ∙ g.all_keys;
        all_ids = λ p. omega (
          arith,
          ids_of p,
          count-append p (ids K h g.left) (ids K h r ++ []),
          count-append p (ids K h r) [],
        );
      }

  finished :
      (h : ℕ) (u : Tree K h)
      → Represents o t load h u
      → (plan : Plan K) → insert_from o t mint load x h (root_id K h u) [] ≡ ok plan
      → plan_insert o t mint load (suc h) x ≡ ok plan
  finished h u r plan e =
      unfold plan_insert in
      subst
        (λ c.
          (descend o load (suc h) c [] x >>= λ found. ok (insert_found o t mint x found)) ≡ ok plan)
        r.root e

  split_root :
      (h : ℕ) (u : Tree K h)
      → Represents o t load h u
      → (cs : List (Change K)) (k : K) (s : Tree K h)
      → ◌≡◌ {A = Result (Plan K)}
          (ok (after o t mint load x h cs (root_id K h u) (some (k, s)) []))
          (ok (
            cs ++ put (mint (suc h)) (internal t.root ((k, root_id K h s) ∷ [])) ∷ [],
            new_handle (mint (suc h)),
          ))
  unfolding propagate
  split_root h u r cs k s =
      ap
        (λ l. ok (
          cs ++ put (mint (suc h)) (internal l ((k, root_id K h s) ∷ [])) ∷ [],
          new_handle (mint (suc h)),
        ))
        r.root

  -- Where a store holds a tree whose ids stand once and whose mint repeats none of them, and a leaf
  -- may hold a key, `h + 1` loads are enough for the plan of an insert. Once the store has taken
  -- the changes of the plan, it holds an ordered tree under the new handle; its keys are the old
  -- ones with the new one at its place, and its ids are the old ones and the first ids of the mint.
  pub plan_insert-insert_sorted :
      (h : ℕ) (u : Tree K h)
      → Represents o t load h u
      → AreFresh h u
      → 1 ≤ t.leaf_cap
      → (plan : Plan K) × (plan_insert o t mint load (suc h) x ≡ ok plan) × Inserted h u plan
  plan_insert-insert_sorted h u r fresh room = elim (Option-cases g.pend) [
    | inl e ↦ (
      (g.changes, t),
      finished h u r (g.changes, t)
          (g.run [] ∙ ap (λ q. ok (after o t mint load x h g.changes (root_id K h u) q [])) e),
      same_root h u r g e,
    )
    | inr ((k, s), e) ↦
        (let plan : Plan K = (
          g.changes ++ put (mint (suc h)) (internal t.root ((k, root_id K h s) ∷ [])) ∷ [],
          new_handle (mint (suc h)),
        ) in
          (
            plan,
            finished h u r plan (
                g.run []
                ∙ ap (λ q. ok (after o t mint load x h g.changes (root_id K h u) q [])) e
                ∙ split_root h u r g.changes k s),
            new_root h u r fresh g k s e,
          ))
  ]
    where
      g : Grown o t mint load x h u none none
      g = grows fresh.once room h u none none r.ordered r.holds fresh.distinct (tt, tt)

-- A created tree is an ordered tree of one empty leaf.
pub create-Represents :
    {K : Type 0} (o : NodeKey K) (mint : ℕ → LocalId) (tenant : ℕ)
    (load : LocalId → Result (NodeBody K))
    → Represents o (create mint tenant load).0 (create mint tenant load).1 0 (mint 0, [])
unfolding create plan_create at apply
create-Represents o mint tenant load = record {
  root = refl;
  holds = take_change-put (mint 0) (leaf []) load;
  ordered = (tt, tt);
}

-- On a tree that a store holds, with fresh ids and room for a key in a leaf, `insert` succeeds with
-- `h + 1` loads, and leaves a store that holds an ordered tree of the old keys and the new one.
pub insert-Represents :
    {K : Type 0} {o : NodeKey K} (law : IsLawful o) (t : BpTree) (mint : ℕ → LocalId)
    (load : LocalId → Result (NodeBody K)) (x : K) (h : ℕ) (u : Tree K h)
    → Represents o t load h u
    → AreFresh law t mint load x h u
    → 1 ≤ t.leaf_cap
    → (r : BpTree × Nodes K) × (insert o t mint load (suc h) x ≡ ok r)
      × (h' : ℕ) × (u' : Tree K h') × Represents o r.0 r.1 h' u'
      × (keys K h' u' ≡ insert_sorted o x (keys K h u))
unfolding insert
insert-Represents law t mint load x h u r fresh room =
    let (plan, e, done) = plan_insert-insert_sorted law t mint load x h u r fresh room in
    (
      (plan.1, apply plan.0 load),
      ap (λ p. p >>= λ q. ok (q.1, apply q.0 load)) e,
      done.height,
      done.tree,
      done.represents,
      done.all_keys,
    )
