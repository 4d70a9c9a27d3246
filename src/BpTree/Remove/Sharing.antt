-- ===== src/BpTree/Remove/Sharing.antt =====
-- Sharing the entries of two siblings out again.
use wavedb.Base.{
  ℕ, zero, suc, ◌+◌, ◌*◌, ◌/◌, ◌≤◌, ◌<◌, ◌≡◌, refl, sym, ap, subst, ◌∙◌, arith, List, ◌∷◌, ◌++◌,
  length, take, drop, append_assoc, All, All-take, All-drop, append-take-drop, drop-some, drop-next,
  take-map, drop-map, length-map, length-append, length-take, Option, none, some,
}
use wavedb.Ids.LocalId.{LocalId}
use wavedb.BpTree.Key.{NodeKey, IsLawful}
use wavedb.BpTree.Node.{leaf, internal, first}
use wavedb.BpTree.Search.{BpTree}
use wavedb.BpTree.Shape.{
  Tree, root_id, entries_of, gather, gather-append, keys, IsSorted, Within, Chain, Ordered,
}
use wavedb.BpTree.Insert.Order.{Chain-cut}
use wavedb.BpTree.Insert.Leaf.{IsSorted-cut, Over-cut, sep_first, under_sep}
use wavedb.BpTree.Remove.{merge, redistribute}
use wavedb.BpTree.Remove.Siblings.{body, AreSiblings, leaves_meet, nodes_meet}

module _ {K : Type 0} where
  pub redistribute_leaves :
      (l r new : List K) (sep : K) (mid : ℕ) (k : K) (rest : List K)
      → new ≡ l ++ r
      → mid ≡ length new / 2
      → drop mid new ≡ k ∷ rest
      → redistribute (leaf l) (leaf r) sep ≡ (leaf (take mid new), leaf (drop mid new), k)
  unfolding redistribute
  redistribute_leaves l r new sep mid k rest e m cut =
      rw (m, e, redistribute, ap first (sym (cut_at new e mid m) ∙ cut)) refl
    where
      cut_at :
          (new : List K)
          → new ≡ l ++ r
          → (mid : ℕ) → mid ≡ length new / 2
          → drop mid new ≡ drop (length (l ++ r) / 2) (l ++ r)
      cut_at new e mid m = rw (m, e) refl

  pub redistribute_internals :
      (a b : LocalId) (l r new : List (K × LocalId)) (sep : K) (mid : ℕ) (k : K) (c : LocalId)
      (rest : List (K × LocalId))
      → new ≡ l ++ (sep, b) ∷ r
      → mid ≡ length new / 2
      → drop mid new ≡ (k, c) ∷ rest
      → redistribute (internal a l) (internal b r) sep
        ≡ (internal a (take mid new), internal c (drop (mid + 1) new), k)
  unfolding redistribute
  redistribute_internals a b l r new sep mid k c rest e m cut =
      rw (m, e, redistribute, ap first (sym (cut_at new e mid m) ∙ cut)) refl
    where
      cut_at :
          (new : List (K × LocalId))
          → new ≡ l ++ (sep, b) ∷ r
          → (mid : ℕ) → mid ≡ length new / 2
          → drop mid new ≡ drop (length (l ++ (sep, b) ∷ r) / 2) (l ++ (sep, b) ∷ r)
      cut_at new e mid m = rw (m, e) refl

  -- Two nodes that are not merged have more entries than three quarters of a capacity.
  pub too_wide_leaves :
      (t : BpTree) (l r : List K) (sep : K)
      → merge t (leaf l) (leaf r) sep ≡ none
      → t.leaf_cap * 3 / 4 < length l + length r
  unfolding merge
  too_wide_leaves t l r sep e = ground arith

  pub too_wide_internals :
      (t : BpTree) (a b : LocalId) (l r : List (K × LocalId)) (sep : K)
      → merge t (internal a l) (internal b r) sep ≡ none
      → t.internal_cap * 3 / 4 < length l + length r + 1
  unfolding merge
  too_wide_internals t a b l r sep e = ground arith

module _ {K : Type 0} {o : NodeKey K} (law : IsLawful o) where
  -- What `redistribute` makes of two siblings.
  abbrev pub Shared : (h : ℕ) (l : Tree K h) (sep : K) (r : Tree K h) (min max : Option K) → Type 0
  Shared h l sep r min max =
      (l' : Tree K h) × (sep' : K) × (r' : Tree K h) × (redistribute (body K h l) (body K h r) sep
        ≡ (body K h l', body K h r', sep'))
      × AreSiblings law h l' sep' r' min max
      × (keys K h l' ++ keys K h r' ≡ keys K h l ++ keys K h r)

  Shared-leaves :
      (l : Tree K 0) (sep : K) (r : Tree K 0) (min max : Option K) (new : List K) (mid : ℕ) (k : K)
      (rest : List K)
      → IsSorted o new
      → All (Within o min max) new
      → new ≡ l.1 ++ r.1
      → mid ≡ length new / 2
      → drop mid new ≡ k ∷ rest
      → 1 ≤ length (take mid new)
      → Shared 0 l sep r min max
  Shared-leaves l sep r min max new mid k rest sorted within e m cut left =
      let (below, first_sorted, second_sorted) = IsSorted-cut law mid new k rest sorted cut in
      let second : All (Within o min max) (k ∷ rest) =
        subst (All (Within o min max)) cut (All-drop _ mid new within) in
      let first_within = All-take (Within o min max) mid new within in
      (
        (l.0, take mid new),
        k,
        (r.0, drop mid new),
        redistribute_leaves l.1 r.1 new sep mid k rest e m cut,
        record {
          left = (first_sorted, under_sep law min max k (take mid new) first_within below);
          over = Over-cut law min max k (take mid new) left first_within below;
          under = second.0.1;
          right = (
            subst (IsSorted o) (sym cut) second_sorted,
            subst (All (Within o (some k) max)) (sym cut)
                (sep_first law max min k rest second_sorted second),
          );
        },
        append-take-drop mid new ∙ e,
      )

  Shared-nodes :
      (h : ℕ) (l : Tree K (suc h)) (sep : K) (r : Tree K (suc h)) (min max : Option K)
      (new : List (K × Tree K h)) (mid : ℕ) (k : K) (v : Tree K h) (rest : List (K × Tree K h))
      → Chain o (Ordered o h) min max l.1 new
      → keys K h l.1 ++ gather K (keys K h) new ≡ keys K (suc h) l ++ keys K (suc h) r
      → entries_of K h new ≡ entries_of K h l.2 ++ (sep, root_id K h r.1) ∷ entries_of K h r.2
      → mid ≡ length (entries_of K h new) / 2
      → drop mid new ≡ (k, v) ∷ rest
      → drop (mid + 1) new ≡ rest
      → Shared (suc h) l sep r min max
  Shared-nodes h l sep r min max new mid k v rest chain all_keys e m cut next =
      let (before, over, under, behind) =
        Chain-cut law (Ordered o h) mid min max l.1 new k v rest chain cut in
      (
        (l.0, l.1, take mid new),
        k,
        (r.0, v, rest),
        redistribute_internals (root_id K h l.1) (root_id K h r.1) (entries_of K h l.2)
              (entries_of K h r.2) (entries_of K h new) sep mid k (root_id K h v)
              (entries_of K h rest) e m (drop-map _ mid new ∙ ap (entries_of K h) cut)
            ∙ ap
                (λ (q : List (K × LocalId) × List (K × LocalId)).
                  (internal (root_id K h l.1) q.0, internal (root_id K h v) q.1, k))
                (ap (λ q. (q, drop (mid + 1) (entries_of K h new))) (take-map _ mid new)
                  ∙ ap (λ q. (entries_of K h (take mid new), q))
                      (drop-map _ (mid + 1) new ∙ ap (entries_of K h) next)),
        record { left = before; over = over; under = under; right = behind },
        append_assoc (keys K h l.1) _ _
            ∙ ap (λ q. keys K h l.1 ++ q)
                (sym (
                  ap (gather K (keys K h)) (sym (append-take-drop mid new))
                  ∙ gather-append K (keys K h) (take mid new) (drop mid new)
                  ∙ ap (λ q. gather K (keys K h) (take mid new) ++ gather K (keys K h) q) cut))
            ∙ all_keys,
      )

  -- Where a leaf may hold two keys, `redistribute` of two siblings that `merge` leaves apart makes
  -- the roots of two ordered siblings around the new separator, which hold the same keys in the
  -- same order.
  pub redistribute-AreSiblings :
      (t : BpTree) (h : ℕ) (l : Tree K h) (sep : K) (r : Tree K h) (min max : Option K)
      → AreSiblings law h l sep r min max
      → 2 ≤ t.leaf_cap
      → merge t (body K h l) (body K h r) sep ≡ none
      → Shared h l sep r min max
  redistribute-AreSiblings t zero l sep r min max s two apart =
      let new : List K = l.1 ++ r.1 in
      let long : 2 ≤ length new =
        omega (arith, too_wide_leaves t l.1 r.1 sep apart, two, length-append l.1 r.1) in
      let (k, rest, cut) = drop-some (length new / 2) new (omega (arith, long)) in
      let (sorted, within) = leaves_meet law l r sep min max s in
      Shared-leaves l sep r min max new (length new / 2) k rest sorted within refl refl cut
        (omega (arith, long, length-take (length new / 2) new))
  redistribute-AreSiblings t (suc h) l sep r min max s two apart =
      let new : List (K × Tree K h) = l.2 ++ (sep, r.1) ∷ r.2 in
      let mid : ℕ = length (entries_of K h new) / 2 in
      let (chain, all_keys, all_entries) = nodes_meet law h l r sep min max s in
      let ((k, v), rest, cut) = drop-some mid new (
        omega (
          arith,
          length-map {B = K × LocalId} (λ e. (e.0, root_id K h e.1)) new,
          length-append l.2 ((sep, r.1) ∷ r.2),
        )) in
      Shared-nodes h l sep r min max new mid k v rest chain all_keys all_entries refl cut
        (drop-next mid new (k, v) rest cut)
