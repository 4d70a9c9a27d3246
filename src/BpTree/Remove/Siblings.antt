-- ===== src/BpTree/Remove/Siblings.antt =====
-- Merging two siblings and sharing their entries out again keep the keys and their order.
use wavedb.Base.{
  ℕ, zero, suc, ◌+◌, ◌*◌, ◌/◌, ◌≤◌, ◌≡◌, refl, sym, ap, ◌∙◌, arith, List, [], ◌∷◌, ◌++◌, map,
  length, append_assoc, All, All-imp, All-append, length-append, true, false, Option, some,
}
use wavedb.Ids.LocalId.{LocalId}
use wavedb.BpTree.Key.{NodeKey, IsLawful}
use wavedb.BpTree.Node.{NodeBody, leaf, internal}
use wavedb.BpTree.Search.{BpTree}
use wavedb.BpTree.Shape.{
  gather-append, Tree, root_id, entries_of, gather, keys, Under, Over, IsSorted, Within, Chain,
  Ordered, lt_le_trans,
}
use wavedb.BpTree.Order.{Under-trans, Above-trans}
use wavedb.BpTree.Remove.{merge}

-- The node at the root of a tree.
abbrev pub body : (K : Type 0) (h : ℕ) → Tree K h → NodeBody K
body K zero u = leaf u.1
body K (suc h) u = internal (root_id K h u.1) (entries_of K h u.2)

-- The number of keys or of entries.
abbrev pub width : {K : Type 0} → NodeBody K → ℕ
width (leaf keys) = length keys
width (internal leftmost entries) = length entries

-- The capacity of a node of its kind.
abbrev pub capacity : {K : Type 0} → BpTree → NodeBody K → ℕ
capacity t (leaf keys) = t.leaf_cap
capacity t (internal leftmost entries) = t.internal_cap

map-append : {A B : Type 0} (f : A → B) (xs ys : List A) → map f (xs ++ ys) ≡ map f xs ++ map f ys
map-append f [] ys = refl
map-append f (x ∷ xs) ys = ap (λ r. f x ∷ r) (map-append f xs ys)

module _ {K : Type 0} {o : NodeKey K} (law : IsLawful o) where
  open law use {lt_irrefl, lt_trans, lt_total}

  -- Two chains that meet at a separator.
  pub Chain-append :
      {A : Type 0} (P : Option K → Option K → A → Type 0) (min max : Option K) (t : A)
      (es : List (K × A)) (sep : K) (u : A) (ds : List (K × A))
      → Chain o P min (some sep) t es
      → Over o sep min
      → Under o sep max
      → Chain o P (some sep) max u ds
      → Chain o P min max t (es ++ (sep, u) ∷ ds)
  Chain-append P min max t [] sep u ds c over under cs = (c, over, under, cs)
  Chain-append P min max t ((k, v) ∷ es) sep u ds (ct, over', under', c) over under cs = (
    ct,
    over',
    Under-trans law k sep max under' under,
    Chain-append P (some k) max v es sep u ds c under' under cs,
  )

  IsSorted-append :
      (sep : K) (ks ls : List K)
      → IsSorted o ks
      → IsSorted o ls
      → All (λ k. o.lt k sep ≡ true) ks
      → All (λ l. o.lt l sep ≡ false) ls
      → IsSorted o (ks ++ ls)
  IsSorted-append sep [] ls s r h g = r
  IsSorted-append sep (k ∷ ks) ls (up, s) r (h, hs) g = (
    All-append _ ks ls up (All-imp (λ l n. lt_le_trans law k sep l h n) ls g),
    IsSorted-append sep ks ls s r hs g,
  )

  -- The keys of both leaves between the outer edges.
  both-Within :
      (min max : Option K) (sep : K) (ks ls : List K)
      → Over o sep min
      → Under o sep max
      → All (Within o min (some sep)) ks
      → All (Within o (some sep) max) ls
      → All (Within o min max) (ks ++ ls)
  both-Within min max sep ks ls over under hk hl =
      All-append _ ks ls (All-imp (λ k w. (w.0, Under-trans law k sep max w.1 under)) ks hk)
        (All-imp (λ l w. (Above-trans law l sep min w.0 over, w.1)) ls hl)

  -- Siblings around a separator: what a node of height `h` and its right neighbour are.
  pub record AreSiblings (h : ℕ) (l : Tree K h) (sep : K) (r : Tree K h) (min max : Option K)
      : Type 0 where
    pub left : Ordered o h min (some sep) l
    pub over : Over o sep min
    pub under : Under o sep max
    pub right : Ordered o h (some sep) max r

  merge_leaves :
      (t : BpTree) (l r : List K) (sep : K) (n : NodeBody K)
      → merge t (leaf l) (leaf r) sep ≡ some n
      → (leaf (l ++ r) ≡ n) × (length l + length r ≤ t.leaf_cap * 3 / 4)
  unfolding merge
  merge_leaves t l r sep n e = ground arith

  merge_internals :
      (t : BpTree) (a b : LocalId) (l r : List (K × LocalId)) (sep : K) (n : NodeBody K)
      → merge t (internal a l) (internal b r) sep ≡ some n
      → (internal a (l ++ (sep, b) ∷ r) ≡ n) × (length l + length r + 1 ≤ t.internal_cap * 3 / 4)
  unfolding merge
  merge_internals t a b l r sep n e = ground arith

  pub leaves_meet :
      (l r : Tree K 0) (sep : K) (min max : Option K)
      → AreSiblings 0 l sep r min max
      → IsSorted o (l.1 ++ r.1) × All (Within o min max) (l.1 ++ r.1)
  leaves_meet l r sep min max s = (
    IsSorted-append sep l.1 r.1 s.left.0 s.right.0 (All-imp (λ k w. w.1) l.1 s.left.1)
        (All-imp (λ k w. w.0) r.1 s.right.1),
    both-Within min max sep l.1 r.1 s.over s.under s.left.1 s.right.1,
  )

  pub nodes_meet :
      (h : ℕ) (l r : Tree K (suc h)) (sep : K) (min max : Option K)
      → AreSiblings (suc h) l sep r min max
      → Chain o (Ordered o h) min max l.1 (l.2 ++ (sep, r.1) ∷ r.2)
        × (keys K h l.1 ++ gather K (keys K h) (l.2 ++ (sep, r.1) ∷ r.2)
            ≡ keys K (suc h) l ++ keys K (suc h) r)
        × (entries_of K h (l.2 ++ (sep, r.1) ∷ r.2)
            ≡ entries_of K h l.2 ++ (sep, root_id K h r.1) ∷ entries_of K h r.2)
  nodes_meet h l r sep min max s = (
    Chain-append (Ordered o h) min max l.1 l.2 sep r.1 r.2 s.left s.over s.under s.right,
    ap (λ q. keys K h l.1 ++ q) (gather-append K (keys K h) l.2 ((sep, r.1) ∷ r.2))
        ∙ sym (append_assoc (keys K h l.1) _ _),
    map-append _ l.2 ((sep, r.1) ∷ r.2),
  )

  -- `merge` of two siblings, where it makes a node, makes the root of an ordered tree with the keys
  -- of both, and the node fills at most three quarters of its capacity.
  pub merge-joins :
      (t : BpTree) (h : ℕ) (l : Tree K h) (sep : K) (r : Tree K h) (min max : Option K)
      (n : NodeBody K)
      → AreSiblings h l sep r min max
      → merge t (body K h l) (body K h r) sep ≡ some n
      → (j : Tree K h) × (body K h j ≡ n)
        × Ordered o h min max j
        × (keys K h j ≡ keys K h l ++ keys K h r)
        × (width (body K h j) ≤ capacity t (body K h j) * 3 / 4)
  merge-joins t zero l sep r min max n s e =
      let (is_n, room) = merge_leaves t l.1 r.1 sep n e in
      (
        (l.0, l.1 ++ r.1),
        is_n,
        leaves_meet l r sep min max s,
        refl,
        omega (arith, room, length-append l.1 r.1),
      )
  merge-joins t (suc h) l sep r min max n s e =
      let (is_n, room) = merge_internals t _ _ _ _ sep n e in
      let (ordered, all_keys, all_entries) = nodes_meet h l r sep min max s in
      (
        (l.0, l.1, l.2 ++ (sep, r.1) ∷ r.2),
        ap (internal (root_id K h l.1)) all_entries ∙ is_n,
        ordered,
        all_keys,
        omega (
          arith,
          room,
          ap length all_entries,
          length-append (entries_of K h l.2) ((sep, root_id K h r.1) ∷ entries_of K h r.2),
        ),
      )
