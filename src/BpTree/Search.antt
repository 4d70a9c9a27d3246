-- ===== src/BpTree/Search.antt =====
-- crates/wavedb-core/src/index/tree.rs: the handle of a tree, its descents and the search walk.
-- A loop over nodes takes fuel, which counts the nodes that it loads.
use wavedb.Base.{
  ℕ, zero, suc, List, [], ◌∷◌, ◌++◌, map, Bool, true, false, Option, none, some, if◌then◌else◌,
}
use wavedb.Ids.Id.{CompositeId}
use wavedb.Ids.LocalId.{LocalId, to_id}
use wavedb.Index.Bound.{Bound}
use wavedb.BpTree.Fault.{Fault, Result, ok, err, stuck, bp_tree_node_missing, ◌>>=◌}
use wavedb.BpTree.Key.{NodeKey}
use wavedb.BpTree.Node.{NodeBody, leaf, internal, bptree_node_struct_hash, from_bytes, to_bytes}

-- What a tree reads of a `Store`: `get_of` with a struct hash and an id.
abbrev pub GetOf : Type 0
GetOf = ℕ → CompositeId → Result (Option (List ℕ))

-- `enum Write`, of which a tree makes two.
pub data Write : Type 0 where
  put : CompositeId → List ℕ → Write
  remove : ℕ → CompositeId → Write

abbrev pub default_leaf_cap : ℕ
default_leaf_cap = 1819

abbrev pub default_internal_cap : ℕ
default_internal_cap = 1630

-- `struct BpTree`.
pub record BpTree : Type 0 where
  pub root : LocalId
  pub tenant : ℕ
  pub leaf_cap : ℕ
  pub internal_cap : ℕ

unfoldable pub at : LocalId → ℕ → BpTree
at root tenant = record {
  root = root;
  tenant = tenant;
  leaf_cap = default_leaf_cap;
  internal_cap = default_internal_cap;
}

-- What the stream yields: keys, and faults behind which it goes on.
pub data Item (K : Type 0) : Type 0 where
  key : K → Item K
  fault : Fault → Item K
  unfinished : Item K

-- What a binary search of a sorted slice answers: the place of the target, or the place where it
-- would be inserted.
pub data Found : Type 0 where
  present : ℕ → Found
  absent : ℕ → Found

abbrev pub next_place : Found → Found
next_place (present i) = present (suc i)
next_place (absent i) = absent (suc i)

abbrev pub is_present : Found → Bool
is_present (present i) = true
is_present (absent i) = false

-- `v.last()`.
abbrev pub last {ℓ} : {A : Type ℓ} → List A → Option A
last [] = none
last (x ∷ []) = some x
last (x ∷ y ∷ ys) = last (y ∷ ys)

-- Child `0` is `leftmost` and child `i + 1` stands in `entries[i]`. An index past the end is out
-- of range in the source; here it gives the last child.
abbrev pub child_id {ℓ} : {K : Type ℓ} → LocalId → List (K × LocalId) → ℕ → LocalId
child_id leftmost entries zero = leftmost
child_id leftmost [] (suc c) = leftmost
child_id leftmost ((k, child) ∷ entries) (suc c) = child_id child entries c

-- `entries.last().map_or(leftmost, |(_, child)| *child)`.
abbrev pub last_child {ℓ} : {K : Type ℓ} → LocalId → Option (K × LocalId) → LocalId
last_child leftmost none = leftmost
last_child leftmost (some e) = e.1

-- The `match` on the answer of the search.
abbrev pub found_child {ℓ} : {K : Type ℓ} → LocalId → List (K × LocalId) → Found → LocalId × ℕ
found_child leftmost entries (present i) = (child_id leftmost entries (suc i), suc i)
found_child leftmost entries (absent i) = (child_id leftmost entries i, i)

module _ {K : Type 0} (o : NodeKey K) where
  -- `keys.binary_search(&target)`, on the keys in order.
  unfoldable pub binary_search : List K → K → Found
  binary_search [] target = absent 0
  binary_search (k ∷ keys) target =
      let rest = binary_search keys target in
      if o.lt k target then next_place rest else if o.lt target k then absent 0 else present 0

  -- The last separator that is not above the target.
  unfoldable pub child_and_index : LocalId → List (K × LocalId) → K → LocalId × ℕ
  unfolding binary_search
  child_and_index leftmost entries target =
      found_child leftmost entries (binary_search (map (λ e. e.0) entries) target)

  unfoldable pub child_for : LocalId → List (K × LocalId) → K → LocalId
  unfolding child_and_index
  child_for leftmost entries target = (child_and_index leftmost entries target).0

  module _ (t : BpTree) where
    unfoldable pub node_put : LocalId → NodeBody K → Write
    unfolding to_bytes
    node_put node n = put (to_id node t.tenant) (to_bytes o.wire n)

    unfoldable pub remove_node : LocalId → Write
    remove_node node = remove bptree_node_struct_hash (to_id node t.tenant)

    module _ (get_of : GetOf) where
      abbrev pub or_missing : LocalId → Option (List ℕ) → Result (List ℕ)
      or_missing node none = err (bp_tree_node_missing node)
      or_missing node (some bytes) = ok bytes

      unfoldable pub load : LocalId → Result (NodeBody K)
      unfolding to_id from_bytes
      load node = do
        found ← get_of bptree_node_struct_hash (to_id node t.tenant)
        bytes ← or_missing node found
        from_bytes o.wire bytes

      unfoldable pub contains_from : ℕ → LocalId → K → Result Bool
      unfolding load child_for binary_search
      contains_from zero node target = stuck
      contains_from (suc fuel) node target = do
        body ← load node
        elim body [
          | leaf keys ↦ ok (is_present (binary_search keys target))
          | internal leftmost entries ↦
              contains_from fuel (child_for leftmost entries target) target
        ]

      unfoldable pub max_key_from : ℕ → LocalId → Result (Option K)
      unfolding load
      max_key_from zero node = stuck
      max_key_from (suc fuel) node = do
        body ← load node
        elim body [
          | leaf keys ↦ ok (last keys)
          | internal leftmost entries ↦ max_key_from fuel (last_child leftmost (last entries))
        ]

      unfoldable pub contains : ℕ → K → Result Bool
      unfolding contains_from
      contains fuel target = contains_from fuel t.root target

      unfoldable pub max_key : ℕ → Result (Option K)
      unfolding max_key_from
      max_key fuel = max_key_from fuel t.root

  -- `st.nodes.push_front(child)` where the window of the child may hold a match.
  unfoldable pub push_kept : Bound → Option K → LocalId → Option K → List LocalId → List LocalId
  push_kept bound min child max nodes =
      if o.may_intersect bound min max then child ∷ nodes else nodes

  -- The children from the last to the leftmost one; `min` is the separator before `leftmost`.
  unfoldable pub expand_from :
      Bound → Option K → LocalId → List (K × LocalId) → List LocalId → List LocalId
  unfolding push_kept
  expand_from bound min leftmost [] nodes = push_kept bound min leftmost none nodes
  expand_from bound min leftmost ((sep, child) ∷ entries) nodes =
      push_kept bound min leftmost (some sep) (expand_from bound (some sep) child entries nodes)

  unfoldable pub expand_children :
      Bound → LocalId → List (K × LocalId) → List LocalId → List LocalId
  unfolding expand_from
  expand_children bound leftmost entries nodes = expand_from bound none leftmost entries nodes

  -- `for k in keys { if k.matches(&st.bound) { st.ready.push_back(k) } }`, on an empty `ready`.
  unfoldable pub matching : Bound → List K → List K
  matching bound [] = []
  matching bound (k ∷ keys) =
      let rest = matching bound keys in if o.matches k bound then k ∷ rest else rest

  module _ (t : BpTree) (get_of : GetOf) (bound : Bound) where
    -- The whole stream: `ready` is yielded before the next node is loaded.
    unfoldable pub walk : ℕ → List LocalId → List (Item K)
    unfolding load matching expand_children
    walk fuel [] = []
    walk zero (node ∷ nodes) = unfinished ∷ []
    walk (suc fuel) (node ∷ nodes) = elim (load t get_of node) [
      | ok (leaf keys) ↦ map key (matching bound keys) ++ walk fuel nodes
      | ok (internal leftmost entries) ↦ walk fuel (expand_children bound leftmost entries nodes)
      | err e ↦ fault e ∷ walk fuel nodes
      | stuck ↦ unfinished ∷ []
    ]

    unfoldable pub search_keys : ℕ → List (Item K)
    unfolding walk
    search_keys fuel = walk fuel (t.root ∷ [])
