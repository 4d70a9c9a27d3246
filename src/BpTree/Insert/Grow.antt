-- ===== src/BpTree/Insert/Grow.antt =====
-- An insert into an internal node, from what it makes of the node's subtrees.
use wavedb.Base.{
  ℕ, suc, ◌+◌, ◌/◌, ◌≤◌, ◌≡◌, refl, sym, ap, subst, ◌∙◌, arith, List, [], ◌∷◌, ◌++◌, length, take,
  drop, append-nil, append_assoc, All, All-take, All-drop, append-take-drop, true, false, Option,
  none, some, leb, take-map, drop-map,
}
use wavedb.Ids.LocalId.{LocalId}
use wavedb.BpTree.Fault.{Result, ok}
use wavedb.BpTree.Key.{NodeKey, IsLawful}
use wavedb.BpTree.Node.{NodeBody, internal}
use wavedb.BpTree.Search.{BpTree}
use wavedb.BpTree.Insert.{
  Change, put, PathFrame, Plan, prepend, propagate, same_id, take_change, apply,
}
use wavedb.BpTree.Shape.{
  gather-append, Tree, root_id, entries_of, gather, keys, ids, Holds, Ordered,
}
use wavedb.BpTree.Insert.Ids.{
  count, count-append, mints, same_id_refl, take_change-put, take_change-put_ne, apply-append,
  apply-split_left, apply-split_right, apply-split_ne, Holds-frame, All-Holds-frame,
}
use wavedb.BpTree.Insert.Order.{Chain-cut}
use wavedb.BpTree.Insert.Chain.{Grown, Chained, insert_from, after, enter, Distinct, chain_ids}
use wavedb.BpTree.Insert.Node.{frame, run_node, propagate-fits, propagate-splits}

module _ {K : Type 0} {o : NodeKey K} (law : IsLawful o) (t : BpTree) (mint : ℕ → LocalId)
    (load : LocalId → Result (NodeBody K)) (x : K) where
  module _ (h : ℕ) (id : LocalId) (u : Tree K h) (es : List (K × Tree K h)) (min max : Option K)
      (at : load id ≡ ok (internal (root_id K h u) (entries_of K h es)))
      (d : Distinct o t mint load x (id ∷ chain_ids o t mint load x h u es))
      (c : Chained o t mint load x h u es min max) where
    -- The ids of the subtrees, after the insert.
    abbrev grown_ids : List LocalId
    grown_ids = chain_ids o t mint load x h c.first c.rest

    -- A node of the subtrees is not the node above them.
    not_id : (p : LocalId) → 1 ≤ count p grown_ids → same_id p id ≡ false
    not_id p n = ground (arith, n, c.all_ids p, (d p).0, (d p).1 c.used)

    fresh_id : count id (mints mint c.used) ≡ 0
    fresh_id = (d id).1 c.used (ground (arith, same_id_refl id))

    id_once : count id (chain_ids o t mint load x h u es) ≡ 0
    id_once = ground (arith, (d id).0, same_id_refl id)

    run_below :
        (path : List (PathFrame K)) (pend : Option (K × Tree K h))
        → c.pend ≡ pend
        → insert_from o t mint load x (suc h) id path
          ≡ ok (
              after o t mint load x h c.changes c.child pend
                (frame law t mint load x id (root_id K h u) (entries_of K h es) c.index ∷ path))
    run_below path pend e =
        run_node law t mint load x h id (root_id K h u) c.child (entries_of K h es) c.index path at
          c.at
        ∙ c.run _
        ∙ ap
            (λ q. ok (
              after o t mint load x h c.changes c.child q
                (frame law t mint load x id (root_id K h u) (entries_of K h es) c.index ∷ path)))
            e

    entered :
        (pend : Option (K × Tree K h))
        → c.pend ≡ pend
        → entries_of K h c.rest ≡ enter o t mint load x h c.index pend (entries_of K h es)
    entered pend e = c.entries ∙ ap (λ q. enter o t mint load x h c.index q (entries_of K h es)) e

    -- No subtree split: the node stays as it is.
    pub node_kept : c.pend ≡ none → Grown o t mint load x (suc h) (id, u, es) min max
    node_kept e = record {
      changes = c.changes;
      used = c.used;
      left = (id, c.first, c.rest);
      pend = none;
      used_up = tt;
      root = refl;
      run = λ path. run_below path none e;
      holds_left = (
        c.kept id id_once fresh_id
            ∙ at
            ∙ ap (λ r. ok (internal r (entries_of K h es))) (sym c.root)
            ∙ ap (λ r. ok (internal (root_id K h c.first) r)) (sym (entered none e)),
        c.holds_first,
        c.holds_rest,
      );
      holds_pend = tt;
      ordered = c.ordered;
      all_keys = append-nil _ ∙ c.all_keys;
      all_ids = λ p. omega (arith, count-append p (id ∷ grown_ids) [], c.all_ids p);
      kept = λ p n. c.kept p (omega (arith, n));
    }

    -- A subtree split, and the node has room for its second half.
    pub node_fits :
        (k : K) (r : Tree K h)
        → c.pend ≡ some (k, r)
        → leb (length (entries_of K h c.rest)) t.internal_cap ≡ true
        → Grown o t mint load x (suc h) (id, u, es) min max
    node_fits k r e fits =
        let node : NodeBody K = internal (root_id K h c.first) (entries_of K h c.rest) in
        let new : List (Change K) = put id node ∷ [] in
        let below : LocalId → Result (NodeBody K) = apply c.changes load in
        let reads : (p : LocalId)
            → apply (c.changes ++ new) load p ≡ take_change (put id node) below p =
          λ p. ap (λ f. f p) (apply-append c.changes new load) ∙ (unfold apply in refl) in
        let same : (p : LocalId)
            → same_id p id ≡ false
            → apply (c.changes ++ new) load p ≡ below p =
          λ p n. reads p ∙ take_change-put_ne p id node below n in
        record {
          changes = c.changes ++ new;
          used = c.used;
          left = (id, c.first, c.rest);
          pend = none;
          used_up = tt;
          root = refl;
          run = λ path.
              run_below path (some (k, r)) e
              ∙ ap (λ q. ok (prepend c.changes q))
                  (propagate-fits law t mint load x _ path c.child k (root_id K h r) (suc h)
                    (entries_of K h c.rest) (entered (some (k, r)) e) fits)
              ∙ ap (λ l. ok (c.changes ++ put id (internal l (entries_of K h c.rest)) ∷ [], t))
                  (sym c.root);
          holds_left = (
            reads id ∙ take_change-put id node below,
            Holds-frame below (apply (c.changes ++ new) load) h c.first
                (λ p n. same p (
                  not_id p (
                    omega
                      (arith, n, count-append p (ids K h c.first) (gather K (ids K h) c.rest)))))
                c.holds_first,
            All-Holds-frame below (apply (c.changes ++ new) load) h c.rest
                (λ p n. same p (
                  not_id p (
                    omega
                      (arith, n, count-append p (ids K h c.first) (gather K (ids K h) c.rest)))))
                c.holds_rest,
          );
          holds_pend = tt;
          ordered = c.ordered;
          all_keys = append-nil _ ∙ c.all_keys;
          all_ids = λ p. omega (arith, count-append p (id ∷ grown_ids) [], c.all_ids p);
          kept = λ p n m. same p (ground (arith, n)) ∙ c.kept p (omega (arith, n)) m;
        }

    -- The ids and the keys of the subtrees, cut before the subtree `v`.
    cut_gather :
        {B : Type 0} (f : Tree K h → List B) (mid : ℕ) (k : K) (v : Tree K h)
        (more : List (K × Tree K h))
        → drop mid c.rest ≡ (k, v) ∷ more
        → gather K f c.rest ≡ gather K f (take mid c.rest) ++ (f v ++ gather K f more)
    cut_gather f mid k v more cut =
        ap (gather K f) (sym (append-take-drop mid c.rest))
        ∙ gather-append K f (take mid c.rest) (drop mid c.rest)
        ∙ ap (λ r. gather K f (take mid c.rest) ++ gather K f r) cut

    prepend_again :
        (cs ds : List (Change K)) (p : Plan K) → prepend cs (prepend ds p) ≡ prepend (cs ++ ds) p
    prepend_again cs ds p = ap (λ r. (r, p.1)) (sym (append_assoc cs ds p.0))

    -- A subtree split, and so does the node, before the separator `k'`.
    pub node_splits :
        (k : K) (r : Tree K h) (mid : ℕ) (k' : K) (v : Tree K h) (more : List (K × Tree K h))
        → c.pend ≡ some (k, r)
        → c.used ≡ suc h
        → leb (length (entries_of K h c.rest)) t.internal_cap ≡ false
        → mid ≡ length (entries_of K h c.rest) / 2
        → drop mid c.rest ≡ (k', v) ∷ more
        → drop (mid + 1) c.rest ≡ more
        → ((p : LocalId) (n : ℕ) → count p (mints mint n) ≤ 1)
        → Grown o t mint load x (suc h) (id, u, es) min max
    node_splits k r mid k' v more e full over is_mid cut next once =
        let right : LocalId = mint (suc h) in
        let node : NodeBody K = internal (root_id K h c.first) (entries_of K h (take mid c.rest)) in
        let half : NodeBody K = internal (root_id K h v) (entries_of K h more) in
        let new : List (Change K) = put id node ∷ put right half ∷ [] in
        let below : LocalId → Result (NodeBody K) = apply c.changes load in
        let reads : (p : LocalId) → apply (c.changes ++ new) load p ≡ apply new below p =
          λ p. ap (λ f. f p) (apply-append c.changes new load) in
        let same : (p : LocalId)
            → same_id p id ≡ false
            → same_id p right ≡ false
            → apply (c.changes ++ new) load p ≡ below p =
          λ p n m. reads p ∙ apply-split_ne id right node half below p n m in
        let not_right : (p : LocalId) → 1 ≤ count p grown_ids → same_id p right ≡ false = λ p n.
          ground (
            arith,
            n,
            c.all_ids p,
            (d p).1 (suc (suc h)),
            once p (suc (suc h)),
            full,
            ap (λ i. count p (mints mint i)) full,
          ) in
        let ids_cut : (p : LocalId)
            → count p grown_ids
              ≡ count p (ids K h c.first)
                + count p (gather K (ids K h) (take mid c.rest))
                + count p (ids K h v)
                + count p (gather K (ids K h) more) =
          λ p. omega (
            arith,
            count-append p (ids K h c.first) (gather K (ids K h) c.rest),
            ap (count p) (cut_gather (ids K h) mid k' v more cut),
            count-append p (gather K (ids K h) (take mid c.rest))
                (ids K h v ++ gather K (ids K h) more),
            count-append p (ids K h v) (gather K (ids K h) more),
          ) in
        let cut_holds : All (λ e. Holds K below h e.1) ((k', v) ∷ more) =
          subst (All (λ e. Holds K below h e.1)) cut (All-drop _ mid c.rest c.holds_rest) in
        let kept_node : (p : LocalId)
            → 1 ≤ count p grown_ids
            → apply (c.changes ++ new) load p ≡ below p =
          λ p n. same p (not_id p n) (not_right p n) in
        let (chain, above, under, behind) =
          Chain-cut law (Ordered o h) mid min max c.first c.rest k' v more c.ordered cut in
        record {
          changes = c.changes ++ new;
          used = suc (suc h);
          left = (id, c.first, take mid c.rest);
          pend = some (k', (right, v, more));
          used_up = refl;
          root = refl;
          run = λ path.
              run_below path (some (k, r)) e
              ∙ ap (λ q. ok (prepend c.changes q))
                  (propagate-splits law t mint load x _ path c.child k (root_id K h r) (suc h)
                    (entries_of K h c.rest) mid k' (root_id K h v) (entries_of K h more)
                    (entered (some (k, r)) e) over is_mid
                    (drop-map _ mid c.rest ∙ ap (entries_of K h) cut)
                    (drop-map _ (mid + 1) c.rest ∙ ap (entries_of K h) next))
              ∙ ap
                  (λ (f : LocalId × List (K × LocalId)). ok (
                    prepend c.changes (
                      prepend (put id (internal f.0 f.1) ∷ put right half ∷ [])
                        (propagate o t mint path id k' right (suc (suc h))))))
                  (ap (λ l. (l, take mid (entries_of K h c.rest))) (sym c.root)
                    ∙ ap (λ l. (root_id K h c.first, l)) (take-map _ mid c.rest))
              ∙ ap ok
                  (prepend_again c.changes new (propagate o t mint path id k' right (suc (suc h))));
          holds_left = (
            reads id
                ∙ apply-split_left id right node half below
                    (ground (arith, (d id).1 (suc (suc h)), same_id_refl id)),
            Holds-frame below (apply (c.changes ++ new) load) h c.first
                (λ p n. kept_node p (omega (arith, n, ids_cut p))) c.holds_first,
            All-Holds-frame below (apply (c.changes ++ new) load) h (take mid c.rest)
                (λ p n. kept_node p (omega (arith, n, ids_cut p)))
                (All-take _ mid c.rest c.holds_rest),
          );
          holds_pend = (
            (
              reads right ∙ apply-split_right id right node half below,
              Holds-frame below (apply (c.changes ++ new) load) h v
                  (λ p n. kept_node p (omega (arith, n, ids_cut p))) cut_holds.0,
              All-Holds-frame below (apply (c.changes ++ new) load) h more
                  (λ p n. kept_node p (omega (arith, n, ids_cut p))) cut_holds.1,
            ),
            tt,
          );
          ordered = (chain, above, under, behind);
          all_keys =
              ap (λ r. (keys K h c.first ++ gather K (keys K h) (take mid c.rest)) ++ r)
                (append-nil _)
              ∙ append_assoc (keys K h c.first) _ _
              ∙ ap (λ r. keys K h c.first ++ r) (sym (cut_gather (keys K h) mid k' v more cut))
              ∙ c.all_keys;
          all_ids = λ p. omega (
            arith,
            ids_cut p,
            c.all_ids p,
            ap (λ i. count p (mints mint i)) full,
            count-append p (ids K h c.first) (gather K (ids K h) (take mid c.rest)),
            count-append p (ids K h v) (gather K (ids K h) more),
            count-append p (right ∷ (ids K h v ++ gather K (ids K h) more)) [],
            count-append p (id ∷ (ids K h c.first ++ gather K (ids K h) (take mid c.rest)))
                ((right ∷ (ids K h v ++ gather K (ids K h) more)) ++ []),
          );
          kept = λ p n m.
              same p (ground (arith, n)) (ground (arith, m))
              ∙ c.kept p (omega (arith, n))
                  (omega (arith, m, ap (λ i. count p (mints mint i)) full));
        }
