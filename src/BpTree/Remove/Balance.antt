-- ===== src/BpTree/Remove/Balance.antt =====
-- The widths of two siblings that share their entries out again.
use wavedb.Base.{
  ℕ, zero, suc, ◌+◌, ◌/◌, ◌≤◌, ◌≡◌, refl, sym, subst, arith, List, ◌∷◌, ◌++◌, length, take, drop,
  drop-some, length-append, length-take, length-drop, false, none, le→ltb,
}
use wavedb.Ids.LocalId.{LocalId}
use wavedb.BpTree.Node.{NodeBody, leaf, internal}
use wavedb.BpTree.Search.{BpTree}
use wavedb.BpTree.Shape.{Tree, root_id, entries_of}
use wavedb.BpTree.Remove.{merge, redistribute, is_underfull}
use wavedb.BpTree.Remove.Siblings.{body, width, capacity}
use wavedb.BpTree.Remove.Sharing.{
  redistribute_leaves, redistribute_internals, too_wide_leaves, too_wide_internals,
}

module _ {K : Type 0} (t : BpTree) where
  -- A node that needs neither a split nor a sibling.
  abbrev pub IsBalanced : NodeBody K → Type 0
  IsBalanced n = (is_underfull t n ≡ false) × (width n ≤ capacity t n)

  leaf-IsBalanced :
      (ks : List K) → t.leaf_cap / 4 ≤ length ks → length ks ≤ t.leaf_cap → IsBalanced (leaf ks)
  unfolding is_underfull
  leaf-IsBalanced ks a b = (le→ltb _ _ a, b)

  internal-IsBalanced :
      (c : LocalId) (es : List (K × LocalId))
      → t.internal_cap / 4 ≤ length es
      → length es ≤ t.internal_cap
      → IsBalanced (internal c es)
  unfolding is_underfull
  internal-IsBalanced c es a b = (le→ltb _ _ a, b)

  nodes-IsBalanced :
      (a b : LocalId) (l r : List (K × LocalId)) (sep : K)
      → merge t (internal a l) (internal b r) sep ≡ none
      → length l ≤ t.internal_cap
      → length r ≤ t.internal_cap
      → IsBalanced (redistribute (internal a l) (internal b r) sep).0
        × IsBalanced (redistribute (internal a l) (internal b r) sep).1
  nodes-IsBalanced a b l r sep apart wl wr =
      let new : List (K × LocalId) = l ++ (sep, b) ∷ r in
      let wide = too_wide_internals t a b l r sep apart in
      let ((k, c), rest, cut) =
        drop-some (length new / 2) new (omega (arith, wide, length-append l ((sep, b) ∷ r))) in
      let made = redistribute_internals a b l r new sep (length new / 2) k c rest refl refl cut in
      subst (λ q. IsBalanced q.0 × IsBalanced q.1) (sym made)
        (
          internal-IsBalanced a (take (length new / 2) new)
              (omega
                (arith, wide, length-append l ((sep, b) ∷ r), length-take (length new / 2) new))
              (omega
                (arith, wl, wr, length-append l ((sep, b) ∷ r), length-take (length new / 2) new)),
          internal-IsBalanced c (drop (length new / 2 + 1) new)
              (omega
                (arith, wide, length-append l ((sep, b) ∷ r), length-drop (length new / 2 + 1) new))
              (omega (
                arith,
                wl,
                wr,
                length-append l ((sep, b) ∷ r),
                length-drop (length new / 2 + 1) new,
              )),
        )

  -- If two siblings keep to the capacity of their kind and `merge` leaves them apart, neither half
  -- that `redistribute` makes of them is underfull or above its capacity.
  pub redistribute-IsBalanced :
      (h : ℕ) (l r : Tree K h) (sep : K)
      → merge t (body K h l) (body K h r) sep ≡ none
      → width (body K h l) ≤ capacity t (body K h l)
      → width (body K h r) ≤ capacity t (body K h r)
      → IsBalanced (redistribute (body K h l) (body K h r) sep).0
        × IsBalanced (redistribute (body K h l) (body K h r) sep).1
  redistribute-IsBalanced zero l r sep apart wl wr =
      let new : List K = l.1 ++ r.1 in
      let wide = too_wide_leaves t l.1 r.1 sep apart in
      let (k, rest, cut) =
        drop-some (length new / 2) new (omega (arith, wide, length-append l.1 r.1)) in
      let made = redistribute_leaves l.1 r.1 new sep (length new / 2) k rest refl refl cut in
      subst (λ q. IsBalanced q.0 × IsBalanced q.1) (sym made)
        (
          leaf-IsBalanced (take (length new / 2) new)
              (omega (arith, wide, length-append l.1 r.1, length-take (length new / 2) new))
              (omega (arith, wl, wr, length-append l.1 r.1, length-take (length new / 2) new)),
          leaf-IsBalanced (drop (length new / 2) new)
              (omega (arith, wide, length-append l.1 r.1, length-drop (length new / 2) new))
              (omega (arith, wl, wr, length-append l.1 r.1, length-drop (length new / 2) new)),
        )
  redistribute-IsBalanced (suc h) l r sep apart wl wr =
      nodes-IsBalanced (root_id K h l.1) (root_id K h r.1) (entries_of K h l.2) (entries_of K h r.2)
        sep apart wl wr
