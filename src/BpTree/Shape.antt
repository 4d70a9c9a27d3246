-- ===== src/BpTree/Shape.antt =====
-- The trees of nodes that a store holds: their shape, their keys and their order.
use wavedb.Base.{
  ap, sym, ◌∙◌, refl, append_assoc, ℕ, zero, suc, ◌+◌, ◌≡◌, arith, List, [], ◌∷◌, ◌++◌, map, All,
  true, false, Option, none, some,
}
use wavedb.Ids.LocalId.{LocalId}
use wavedb.Index.NodeKey.Pruning.{Above}
use wavedb.BpTree.Fault.{Result, ok}
use wavedb.BpTree.Key.{NodeKey, IsLawful}
use wavedb.BpTree.Search.{BpTree}
use wavedb.BpTree.Node.{NodeBody, leaf, internal}

-- A tree of the height `h`: a leaf is its id and its keys; an internal node its id, the leftmost
-- subtree and the separators with their subtrees.
abbrev pub Tree : Type 0 → ℕ → Type 0
Tree K zero = LocalId × List K
Tree K (suc h) = LocalId × Tree K h × List (K × Tree K h)

module _ (K : Type 0) where
  abbrev pub root_id : (h : ℕ) → Tree K h → LocalId
  root_id zero t = t.0
  root_id (suc h) t = t.0

  -- The entries of the node over the subtrees.
  abbrev pub entries_of : (h : ℕ) → List (K × Tree K h) → List (K × LocalId)
  entries_of h es = map (λ e. (e.0, root_id h e.1)) es

  abbrev pub gather : {A B : Type 0} → (A → List B) → List (K × A) → List B
  gather f [] = []
  gather f ((k, t) ∷ es) = f t ++ gather f es

  -- The keys of the leaves, from the left.
  abbrev pub keys : (h : ℕ) → Tree K h → List K
  keys zero t = t.1
  keys (suc h) t = keys h t.1 ++ gather (keys h) t.2

  abbrev pub sum : {A : Type 0} → (A → ℕ) → List (K × A) → ℕ
  sum f [] = 0
  sum f ((k, t) ∷ es) = f t + sum f es

  -- The number of nodes.
  abbrev pub size : (h : ℕ) → Tree K h → ℕ
  size zero t = 1
  size (suc h) t = suc (size h t.1 + sum (size h) t.2)

  -- The ids of the nodes.
  abbrev pub ids : (h : ℕ) → Tree K h → List LocalId
  ids zero t = t.0 ∷ []
  ids (suc h) t = t.0 ∷ (ids h t.1 ++ gather (ids h) t.2)

  -- Each node of the tree loads under its id.
  abbrev pub Holds : (LocalId → Result (NodeBody K)) → (h : ℕ) → Tree K h → Type 0
  Holds load zero t = load t.0 ≡ ok (leaf t.1)
  Holds load (suc h) t =
      (load t.0 ≡ ok (internal (root_id h t.1) (entries_of h t.2)))
      × Holds load h t.1
      × All (λ e. Holds load h e.1) t.2

module _ (K : Type 0) where
  pub gather-append :
      {A B : Type 0} (f : A → List B) (es ds : List (K × A))
      → gather K f (es ++ ds) ≡ gather K f es ++ gather K f ds
  gather-append f [] ds = refl
  gather-append f ((k, u) ∷ es) ds =
      ap (λ r. f u ++ r) (gather-append f es ds) ∙ sym (append_assoc (f u) _ _)

module _ {K : Type 0} (o : NodeKey K) where
  -- Below an upper edge and above a lower one, both strictly; an edge may be absent.
  abbrev pub Under : K → Option K → Type 0
  Under k none = Unit
  Under k (some max) = o.lt k max ≡ true

  abbrev pub Over : K → Option K → Type 0
  Over k none = Unit
  Over k (some min) = o.lt min k ≡ true

  abbrev pub IsSorted : List K → Type 0
  IsSorted [] = Unit
  IsSorted (k ∷ ks) = All (λ l. o.lt k l ≡ true) ks × IsSorted ks

  -- The keys of a leaf or of a subtree lie from `min` on and below `max`.
  abbrev pub Within : Option K → Option K → K → Type 0
  Within min max k = Above o.lt k min × Under k max

  -- Subtrees from the left, with ascending separators between them.
  abbrev pub Chain :
      {A : Type 0}
      → (Option K → Option K → A → Type 0)
      → Option K
      → Option K
      → A
      → List (K × A)
      → Type 0
  Chain P min max t [] = P min max t
  Chain P min max t ((k, u) ∷ es) =
      P min (some k) t × Over k min × Under k max × Chain P (some k) max u es

  abbrev pub Ordered : (h : ℕ) → Option K → Option K → Tree K h → Type 0
  Ordered zero min max t = IsSorted t.1 × All (Within min max) t.1
  Ordered (suc h) min max t = Chain (Ordered h) min max t.1 t.2

-- The store holds the ordered tree `u` of the height `h` under the root of the handle.
pub record Represents {K : Type 0} (o : NodeKey K) (t : BpTree)
    (load : LocalId → Result (NodeBody K)) (h : ℕ) (u : Tree K h) : Type 0 where
  pub root : root_id K h u ≡ t.root
  pub holds : Holds K load h u
  pub ordered : Ordered o h none none u

module _ {K : Type 0} {o : NodeKey K} (law : IsLawful o) where
  open law use {lt_irrefl, lt_trans, lt_total}

  pub lt_asym : (a b : K) → o.lt a b ≡ true → o.lt b a ≡ false
  lt_asym a b h = ground (arith, lt_irrefl a, lt_trans a b a)

  -- `a ≤ b < c` and `a < b ≤ c`.
  pub le_lt_trans : (a b c : K) → o.lt b a ≡ false → o.lt b c ≡ true → o.lt a c ≡ true
  le_lt_trans a b c p q = grind (arith, lt_total a b, lt_trans a b c)

  pub lt_le_trans : (a b c : K) → o.lt a b ≡ true → o.lt c b ≡ false → o.lt a c ≡ true
  lt_le_trans a b c p q = grind (arith, lt_total b c, lt_trans a b c)
