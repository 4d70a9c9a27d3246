-- ===== src/BpTree/Insert/Node.antt =====
-- An insert into a node whose subtrees have grown: it keeps its entries, takes one, or splits.
use wavedb.Base.{
  ℕ, suc, ◌+◌, ◌/◌, ◌≡◌, refl, sym, ap, subst, ◌∙◌, arith, List, [], ◌∷◌, length, take, drop, true,
  false, leb,
}
use wavedb.Ids.LocalId.{LocalId}
use wavedb.BpTree.Fault.{Result, ok}
use wavedb.BpTree.Key.{NodeKey, IsLawful}
use wavedb.BpTree.Node.{NodeBody, internal, first}
use wavedb.BpTree.Search.{BpTree, child_and_index}
use wavedb.BpTree.Insert.{put, PathFrame, prepend, insert_at, descend, propagate}
use wavedb.BpTree.Insert.Chain.{insert_from}

module _ {K : Type 0} {o : NodeKey K} (law : IsLawful o) (t : BpTree) (mint : ℕ → LocalId)
    (load : LocalId → Result (NodeBody K)) (x : K) where
  abbrev pub frame : LocalId → LocalId → List (K × LocalId) → ℕ → PathFrame K
  frame id leftmost entries index = record {
    node_id = id;
    leftmost = leftmost;
    entries = entries;
    child_idx = index;
  }

  pub run_node :
      (h : ℕ) (id leftmost child : LocalId) (entries : List (K × LocalId)) (index : ℕ)
      (path : List (PathFrame K))
      → load id ≡ ok (internal leftmost entries)
      → child_and_index o leftmost entries x ≡ (child, index)
      → insert_from o t mint load x (suc h) id path
        ≡ insert_from o t mint load x h child (frame id leftmost entries index ∷ path)
  unfolding descend
  run_node h id leftmost child entries index path at to = rw at (
      ap
        (λ (r : LocalId × ℕ).
          insert_from o t mint load x h r.0 (frame id leftmost entries r.1 ∷ path))
        to)

  pub propagate-fits :
      (f : PathFrame K) (path : List (PathFrame K)) (node : LocalId) (sep : K) (right : LocalId)
      (n : ℕ) (entries : List (K × LocalId))
      → entries ≡ insert_at f.child_idx (sep, right) f.entries
      → leb (length entries) t.internal_cap ≡ true
      → propagate o t mint (f ∷ path) node sep right n
        ≡ (put f.node_id (internal f.leftmost entries) ∷ [], t)
  unfolding propagate
  propagate-fits f path node sep right n entries e fits = rw (propagate, sym e, fits) refl

  pub propagate-splits :
      (f : PathFrame K) (path : List (PathFrame K)) (node : LocalId) (sep : K) (right : LocalId)
      (n : ℕ) (entries : List (K × LocalId)) (mid : ℕ) (k : K) (c : LocalId)
      (more : List (K × LocalId))
      → entries ≡ insert_at f.child_idx (sep, right) f.entries
      → leb (length entries) t.internal_cap ≡ false
      → mid ≡ length entries / 2
      → drop mid entries ≡ (k, c) ∷ more
      → drop (mid + 1) entries ≡ more
      → propagate o t mint (f ∷ path) node sep right n
        ≡ prepend
            (put f.node_id (internal f.leftmost (take mid entries))
              ∷ put (mint n) (internal c more)
              ∷ [])
            (propagate o t mint path f.node_id k (mint n) (suc n))
  unfolding propagate
  propagate-splits f path node sep right n entries mid k c more e over m cut next =
      rw
        (
          e,
          m ∙ half,
          subst (λ es. leb (length es) t.internal_cap ≡ false) e over,
          ap first (cut_at (λ i. i) ∙ cut),
          cut_at (λ i. i + 1) ∙ next,
          plus_one n,
        )
        refl
    where
      plus_one : (i : ℕ) → i + 1 ≡ suc i
      plus_one i = omega arith

      new : List (K × LocalId)
      new = insert_at f.child_idx (sep, right) f.entries

      half : length entries / 2 ≡ length new / 2
      half = ap (λ es. length es / 2) e

      cut_at : (g : ℕ → ℕ) → drop (g (length new / 2)) new ≡ drop (g mid) entries
      cut_at g = ap (λ i. drop (g i) new) (sym (m ∙ half)) ∙ ap (drop (g mid)) (sym e)
