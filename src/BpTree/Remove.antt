-- ===== src/BpTree/Remove.antt =====
-- crates/wavedb-core/src/index/tree_delete.rs: the plan of a removal.
pub mod Siblings
pub mod Sharing
pub mod Balance
use wavedb.Base.{
  ℕ, zero, suc, ◌+◌, ◌-◌, ◌*◌, ◌/◌, List, [], ◌∷◌, ◌++◌, length, take, drop, Bool, true, false,
  Option, none, some, ltb, leb, ◌==◌, if◌then◌else◌,
}
use wavedb.Ids.LocalId.{LocalId}
use wavedb.BpTree.Fault.{Result, ok, stuck, ◌>>=◌}
use wavedb.BpTree.Key.{NodeKey}
use wavedb.BpTree.Node.{NodeBody, leaf, internal, first}
use wavedb.BpTree.Search.{BpTree, Found, present, absent, binary_search, child_id}
use wavedb.BpTree.Insert.{Change, put, remove, PathFrame, Plan, prepend, descend, Nodes, apply}

-- `v.remove(i)`. An index past the end is out of range in the source; here nothing goes.
abbrev pub remove_at {ℓ} : {A : Type ℓ} → ℕ → List A → List A
remove_at i [] = []
remove_at zero (x ∷ xs) = xs
remove_at (suc i) (x ∷ xs) = x ∷ remove_at i xs

-- `entries[i].0 = sep`.
abbrev pub set_key {ℓ κ} : {K : Type ℓ} {A : Type κ} → ℕ → K → List (K × A) → List (K × A)
set_key i sep [] = []
set_key zero sep ((k, a) ∷ es) = (sep, a) ∷ es
set_key (suc i) sep (e ∷ es) = e ∷ set_key i sep es

-- `enum Rebalanced`.
pub data Rebalanced (K : Type 0) : Type 0 where
  parent_pending : LocalId → NodeBody K → Rebalanced K
  done : Rebalanced K

-- The two halves and the separator between them. Two nodes of different kinds stay as they are; so
-- do two without entries, of which the source reads the first entry and panics.
unfoldable pub redistribute :
    {K : Type 0} → NodeBody K → NodeBody K → K → NodeBody K × NodeBody K × K
redistribute (leaf l) (leaf r) sep =
    let combined = l ++ r in
    let mid : ℕ = length combined / 2 in
    elim (first (drop mid combined)) [
      | none ↦ (leaf l, leaf r, sep)
      | some new_sep ↦ (leaf (take mid combined), leaf (drop mid combined), new_sep)
    ]
redistribute (internal l_lm l_e) (internal r_lm r_e) sep =
    let combined = l_e ++ (sep, r_lm) ∷ r_e in
    let mid : ℕ = length combined / 2 in
    elim (first (drop mid combined)) [
      | none ↦ (internal l_lm l_e, internal r_lm r_e, sep)
      | some e ↦ (internal l_lm (take mid combined), internal e.1 (drop (mid + 1) combined), e.0)
    ]
redistribute l r sep = (l, r, sep)

module _ {K : Type 0} (t : BpTree) where
  unfoldable pub is_underfull : NodeBody K → Bool
  is_underfull (leaf keys) = ltb (length keys) (t.leaf_cap / 4)
  is_underfull (internal leftmost entries) = ltb (length entries) (t.internal_cap / 4)

  unfoldable pub merge : NodeBody K → NodeBody K → K → Option (NodeBody K)
  merge (leaf l) (leaf r) sep =
      if leb (length l + length r) (t.leaf_cap * 3 / 4) then some (leaf (l ++ r)) else none
  merge (internal l_lm l_e) (internal r_lm r_e) sep =
      if leb (length l_e + length r_e + 1) (t.internal_cap * 3 / 4)
      then some (internal l_lm (l_e ++ (sep, r_lm) ∷ r_e))
      else none
  merge l r sep = none

  unfoldable pub finish_at_root : LocalId → NodeBody K → Plan K
  finish_at_root root_id (internal leftmost []) =
      (remove root_id ∷ [], record t { root = leftmost })
  finish_at_root root_id root = (put root_id root ∷ [], t)

  -- Both siblings are there: merge them, or share their entries out again.
  unfoldable pub join_siblings :
      PathFrame K → ℕ → NodeBody K → NodeBody K → K → List (Change K) × Rebalanced K
  unfolding merge redistribute
  join_siblings f left_idx left right sep =
      let left_id = child_id f.leftmost f.entries left_idx in
      let right_id = child_id f.leftmost f.entries (left_idx + 1) in
      let (new_left, new_right, new_sep) = redistribute left right sep in
      elim (merge left right sep) [
        | some merged ↦ (
          put left_id merged ∷ remove right_id ∷ [],
          parent_pending f.node_id (internal f.leftmost (remove_at left_idx f.entries)),
        )
        | none ↦ (
          put left_id new_left
              ∷ put right_id new_right
              ∷ put f.node_id (internal f.leftmost (set_key left_idx new_sep f.entries))
              ∷ [],
          done,
        )
      ]

module _ {K : Type 0} (o : NodeKey K) (t : BpTree) (load : LocalId → Result (NodeBody K)) where
  unfoldable pub rebalance :
      LocalId → NodeBody K → PathFrame K → Result (List (Change K) × Rebalanced K)
  unfolding join_siblings
  rebalance node_id current f =
      let left_idx : ℕ = f.child_idx - 1 in
      elim f.entries [
        | [] ↦
            ok (put node_id current ∷ [], parent_pending f.node_id (internal f.leftmost f.entries))
        | e ∷ es ↦ elim (first (drop left_idx f.entries)) [
          | none ↦ stuck
          | some (sep, child) ↦
              if f.child_idx == left_idx
              then (do
                right ← load (child_id f.leftmost f.entries (left_idx + 1))
                ok (join_siblings t f left_idx current right sep))
              else (do
                left ← load (child_id f.leftmost f.entries left_idx)
                ok (join_siblings t f left_idx left current sep))
        ]
      ]

  -- The loop up the path.
  unfoldable pub climb : List (PathFrame K) → LocalId → NodeBody K → Result (Plan K)
  unfolding finish_at_root is_underfull rebalance
  climb [] node_id current = ok (finish_at_root t node_id current)
  climb (f ∷ path) node_id current =
      let go_on : Result (Plan K) = (do
        step ← rebalance node_id current f
        elim step.1 [
          | parent_pending id node ↦ (do rest ← climb path id node; ok (prepend step.0 rest))
          | done ↦ ok (step.0, t)
        ]) in
      if is_underfull t current then go_on else ok (put node_id current ∷ [], t)

  unfoldable pub remove_found : K → List (PathFrame K) × LocalId × List K → Result (Option (Plan K))
  unfolding binary_search climb
  remove_found target (path, node_id, keys) = elim (binary_search o keys target) [
    | absent i ↦ ok none
    | present pos ↦ (do plan ← climb path node_id (leaf (remove_at pos keys)); ok (some plan))
  ]

  unfoldable pub plan_remove : ℕ → K → Result (Option (Plan K))
  unfolding descend remove_found
  plan_remove fuel target = do
    found ← descend o load fuel t.root [] target
    remove_found target found

-- `remove`: whether the key was there, with the handle and the nodes after it.
unfoldable pub remove_key :
    {K : Type 0} → NodeKey K → BpTree → Nodes K → ℕ → K → Result (Bool × BpTree × Nodes K)
unfolding plan_remove apply
remove_key o t load fuel target = do
  plan ← plan_remove o t load fuel target
  elim plan [ none ↦ ok (false, t, load) | some p ↦ ok (true, p.1, apply p.0 load) ]
