-- ===== src/BpTree/Insert.antt =====
-- crates/wavedb-core/src/index/tree_insert.rs: the plan of an insert, and the descent that an
-- insert and a removal begin with.
pub mod Ids
pub mod Order
pub mod Chain
pub mod Below
pub mod Leaf
pub mod Node
pub mod Grow
pub mod Refinement
use wavedb.Base.{
  ℕ, zero, suc, ◌+◌, ◌/◌, List, [], ◌∷◌, ◌++◌, map, length, take, drop, Bool, true, false, Option,
  none, some, leb, ◌==◌, ◌&&◌, if◌then◌else◌,
}
use wavedb.Ids.LocalId.{LocalId}
use wavedb.BpTree.Fault.{Result, ok, err, stuck, bp_tree_node_missing, ◌>>=◌}
use wavedb.BpTree.Key.{NodeKey}
use wavedb.BpTree.Node.{NodeBody, leaf, internal, first}
use wavedb.BpTree.Search.{
  at, BpTree, Write, node_put, remove_node, Found, present, absent, binary_search, child_and_index,
}

-- A write of a node before its bytes are made.
pub data Change (K : Type 0) : Type 0 where
  put : LocalId → NodeBody K → Change K
  remove : LocalId → Change K

-- `self.put(id, n)` and `self.remove_node(id)`.
unfoldable pub write_of : {K : Type 0} → NodeKey K → BpTree → Change K → Write
unfolding node_put remove_node
write_of o t (put id n) = node_put o t id n
write_of o t (remove id) = remove_node o t id

-- `struct PathFrame`.
pub record PathFrame (K : Type 0) : Type 0 where
  pub node_id : LocalId
  pub leftmost : LocalId
  pub entries : List (K × LocalId)
  pub child_idx : ℕ

-- `v.insert(i, a)`. An index past the end is out of range in the source; here it appends.
abbrev pub insert_at {ℓ} : {A : Type ℓ} → ℕ → A → List A → List A
insert_at zero a xs = a ∷ xs
insert_at (suc i) a [] = a ∷ []
insert_at (suc i) a (x ∷ xs) = x ∷ insert_at i a xs

module _ {K : Type 0} (o : NodeKey K) (load : LocalId → Result (NodeBody K)) where
  -- The descent to the leaf of `target`: the frames, the deepest first, the leaf's id and its keys.
  unfoldable pub descend :
      ℕ → LocalId → List (PathFrame K) → K → Result (List (PathFrame K) × LocalId × List K)
  unfolding child_and_index
  descend zero node path target = stuck
  descend (suc fuel) node path target = do
    body ← load node
    elim body [
      | leaf keys ↦ ok (path, node, keys)
      | internal leftmost entries ↦
          (let (next, child_idx) = child_and_index o leftmost entries target in
            descend fuel next
              (record {
                node_id = node;
                leftmost = leftmost;
                entries = entries;
                child_idx = child_idx;
              }
                ∷ path)
              target)
    ]

-- What a plan gives: its changes in order, and the handle after it.
abbrev pub Plan : Type 0 → Type 0
Plan K = List (Change K) × BpTree

-- Changes that come before a plan.
abbrev pub prepend : {K : Type 0} → List (Change K) → Plan K → Plan K
prepend cs p = (cs ++ p.0, p.1)

-- `mint i` is the id that the insert mints after `i` others; ids come from the clock and a counter.
module _ {K : Type 0} (o : NodeKey K) (t : BpTree) (mint : ℕ → LocalId) where
  -- The `while` loop: the split of `node_id` put `right` behind `sep`, and `n` ids are minted.
  unfoldable pub propagate : List (PathFrame K) → LocalId → K → LocalId → ℕ → Plan K
  propagate [] node_id sep right n =
      (put (mint n) (internal node_id ((sep, right) ∷ [])) ∷ [], record t { root = mint n })
  propagate (f ∷ path) node_id sep right n =
      let entries : List (K × LocalId) = insert_at f.child_idx (sep, right) f.entries in
      let mid : ℕ = length entries / 2 in
      let split : Plan K = elim (first (drop mid entries)) [
        | none ↦ ([], t)
        | some promote ↦
            prepend
              (put f.node_id (internal f.leftmost (take mid entries))
                ∷ put (mint n) (internal promote.1 (drop (mid + 1) entries))
                ∷ [])
              (propagate path f.node_id promote.0 (mint n) (n + 1))
      ] in
      if leb (length entries) t.internal_cap
      then (put f.node_id (internal f.leftmost entries) ∷ [], t)
      else split

  -- From the leaf with the new key on. A leaf that is too long has a middle.
  unfoldable pub insert_leaf : List (PathFrame K) → LocalId → List K → Plan K
  unfolding propagate
  insert_leaf path node_id keys =
      let mid : ℕ = length keys / 2 in
      let split : Plan K = elim (first (drop mid keys)) [
        | none ↦ ([], t)
        | some sep ↦
            prepend (put node_id (leaf (take mid keys)) ∷ put (mint 0) (leaf (drop mid keys)) ∷ [])
              (propagate path node_id sep (mint 0) 1)
      ] in
      if leb (length keys) t.leaf_cap then (put node_id (leaf keys) ∷ [], t) else split

  -- Behind the descent: a key that is there needs no write.
  unfoldable pub insert_found : K → List (PathFrame K) × LocalId × List K → Plan K
  unfolding insert_leaf binary_search
  insert_found target (path, node_id, keys) = elim (binary_search o keys target) [
    | present i ↦ ([], t)
    | absent pos ↦ insert_leaf path node_id (insert_at pos target keys)
  ]

  unfoldable pub plan_insert : (LocalId → Result (NodeBody K)) → ℕ → K → Result (Plan K)
  unfolding descend insert_found
  plan_insert load fuel target = do
    found ← descend o load fuel t.root [] target
    ok (insert_found target found)

-- The derived equality of ids.
abbrev pub same_id : LocalId → LocalId → Bool
same_id a b = a.key == b.key && a.lower == b.lower

-- What the nodes read as once a store has taken a change, and the changes in their order.
unfoldable pub take_change :
    {K : Type 0} → Change K → (LocalId → Result (NodeBody K)) → LocalId → Result (NodeBody K)
take_change (put at n) load id = if same_id id at then ok n else load id
take_change (remove at) load id = if same_id id at then err (bp_tree_node_missing at) else load id

unfoldable pub apply :
    {K : Type 0} → List (Change K) → (LocalId → Result (NodeBody K)) → LocalId → Result (NodeBody K)
unfolding take_change
apply [] load = load
apply (c ∷ cs) load = apply cs (take_change c load)

-- The nodes of a store, as they load.
abbrev pub Nodes : Type 0 → Type 0
Nodes K = LocalId → Result (NodeBody K)

-- `BpTree::plan_create`; `mint` gives its first id.
unfoldable pub plan_create : {K : Type 0} → (ℕ → LocalId) → ℕ → BpTree × Change K
unfolding at
plan_create mint tenant = (at (mint 0) tenant, put (mint 0) (leaf []))

-- `create` and `insert` apply their plan at once.
unfoldable pub create : {K : Type 0} → (ℕ → LocalId) → ℕ → Nodes K → BpTree × Nodes K
unfolding plan_create apply
create mint tenant load =
    let (tree, write) = plan_create mint tenant in (tree, apply (write ∷ []) load)

unfoldable pub insert :
    {K : Type 0} → NodeKey K → BpTree → (ℕ → LocalId) → Nodes K → ℕ → K → Result (BpTree × Nodes K)
unfolding plan_insert apply
insert o t mint load fuel target = do
  plan ← plan_insert o t mint load fuel target
  ok (plan.1, apply plan.0 load)
