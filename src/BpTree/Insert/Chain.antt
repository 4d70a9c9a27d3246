-- ===== src/BpTree/Insert/Chain.antt =====
-- What an insert makes of a subtree, and of the subtrees of one node.
use wavedb.Base.{ℕ, suc, ◌+◌, ◌≤◌, ◌≡◌, List, ◌++◌, All, Option, none, some}
use wavedb.Ids.LocalId.{LocalId}
use wavedb.BpTree.Fault.{Result, ok, ◌>>=◌}
use wavedb.BpTree.Key.{NodeKey}
use wavedb.BpTree.Node.{NodeBody}
use wavedb.BpTree.Search.{BpTree, child_and_index}
use wavedb.BpTree.Insert.{
  Change, PathFrame, Plan, prepend, insert_at, descend, propagate, insert_found, apply,
}
use wavedb.BpTree.Shape.{Tree, root_id, entries_of, gather, keys, ids, Holds, Chain, Ordered}
use wavedb.BpTree.Insert.Ids.{count, mints}
use wavedb.BpTree.Insert.Order.{insert_sorted, list_of}

-- Where the inserted key lands below a subtree of the height `h`: the descent and what follows it.
module _ {K : Type 0} (o : NodeKey K) (t : BpTree) (mint : ℕ → LocalId)
    (load : LocalId → Result (NodeBody K)) (x : K) where
  abbrev pub insert_from : ℕ → LocalId → List (PathFrame K) → Result (Plan K)
  insert_from h id path =
      descend o load (suc h) id path x >>= λ found. ok (insert_found o t mint x found)

  -- The changes below `id`, and what the split of `id` leaves to the frames above.
  abbrev pub after :
      (h : ℕ) → List (Change K) → LocalId → Option (K × Tree K h) → List (PathFrame K) → Plan K
  after h cs id none path = (cs, t)
  after h cs id (some (k, r)) path =
      prepend cs (propagate o t mint path id k (root_id K h r) (suc h))

  -- A split at the height `h` has minted `h + 1` ids.
  abbrev pub UsedUp : (h : ℕ) → ℕ → Option (K × Tree K h) → Type 0
  UsedUp h used none = Unit
  UsedUp h used (some e) = used ≡ suc h

  -- What an insert makes of the subtree `u`: the subtree itself, and one behind it where it split.
  pub record Grown (h : ℕ) (u : Tree K h) (min max : Option K) : Type 0 where
    pub changes : List (Change K)
    pub used : ℕ
    pub left : Tree K h
    pub pend : Option (K × Tree K h)
    pub used_up : UsedUp h used pend
    pub root : root_id K h left ≡ root_id K h u
    pub run :
        (path : List (PathFrame K))
        → insert_from h (root_id K h u) path ≡ ok (after h changes (root_id K h u) pend path)
    pub holds_left : Holds K (apply changes load) h left
    pub holds_pend : All (λ e. Holds K (apply changes load) h e.1) (list_of pend)
    pub ordered : Chain o (Ordered o h) min max left (list_of pend)
    pub all_keys :
        keys K h left ++ gather K (keys K h) (list_of pend) ≡ insert_sorted o x (keys K h u)
    pub all_ids :
        (p : LocalId)
        → count p (ids K h left ++ gather K (ids K h) (list_of pend))
          ≡ count p (ids K h u) + count p (mints mint used)
    pub kept :
        (p : LocalId)
        → count p (ids K h u) ≡ 0
        → count p (mints mint used) ≡ 0
        → apply changes load p ≡ load p

  -- The entries of the node once the split of the child `i` is entered.
  abbrev pub enter : (h : ℕ) → ℕ → Option (K × Tree K h) → List (K × LocalId) → List (K × LocalId)
  enter h i none es = es
  enter h i (some (k, r)) es = insert_at i (k, root_id K h r) es

  abbrev pub chain_keys : (h : ℕ) → Tree K h → List (K × Tree K h) → List K
  chain_keys h u es = keys K h u ++ gather K (keys K h) es

  abbrev pub chain_ids : (h : ℕ) → Tree K h → List (K × Tree K h) → List LocalId
  chain_ids h u es = ids K h u ++ gather K (ids K h) es

  -- The same for the subtrees of a node, of which the descent takes the child `child`.
  pub record Chained (h : ℕ) (u : Tree K h) (es : List (K × Tree K h)) (min max : Option K)
      : Type 0 where
    pub changes : List (Change K)
    pub used : ℕ
    pub child : LocalId
    pub index : ℕ
    pub pend : Option (K × Tree K h)
    pub first : Tree K h
    pub rest : List (K × Tree K h)
    pub used_up : UsedUp h used pend
    pub at : child_and_index o (root_id K h u) (entries_of K h es) x ≡ (child, index)
    pub root : root_id K h first ≡ root_id K h u
    pub entries : entries_of K h rest ≡ enter h index pend (entries_of K h es)
    pub run :
        (path : List (PathFrame K))
        → insert_from h child path ≡ ok (after h changes child pend path)
    pub holds_first : Holds K (apply changes load) h first
    pub holds_rest : All (λ e. Holds K (apply changes load) h e.1) rest
    pub ordered : Chain o (Ordered o h) min max first rest
    pub all_keys : chain_keys h first rest ≡ insert_sorted o x (chain_keys h u es)
    pub all_ids :
        (p : LocalId)
        → count p (chain_ids h first rest) ≡ count p (chain_ids h u es) + count p (mints mint used)
    pub kept :
        (p : LocalId)
        → count p (chain_ids h u es) ≡ 0
        → count p (mints mint used) ≡ 0
        → apply changes load p ≡ load p

  -- No id stands twice, and no id that may be minted stands in the tree.
  abbrev pub Distinct : List LocalId → Type 0
  Distinct qs =
      (p : LocalId) → (count p qs ≤ 1) × ((n : ℕ) → 1 ≤ count p qs → count p (mints mint n) ≡ 0)
