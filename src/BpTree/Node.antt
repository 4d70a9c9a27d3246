-- ===== src/BpTree/Node.antt =====
-- crates/wavedb-core/src/index/node.rs: a node, and its bytes in the store.
pub mod Laws
use wavedb.Base.{
  ℕ, zero, suc, ◌+◌, List, [], ◌∷◌, ◌++◌, length, take, drop, Option, none, some, ltb, ◌==◌,
  if◌then◌else◌,
}
use wavedb.Ids.LocalId.{LocalId, local_id_wire}
use wavedb.Wire.Error.{unexpected_eof}
use wavedb.Wire.Cursor.{to_le_bytes, from_le_bytes}
use wavedb.Wire.Codec.{WaveWire, to_wire, from_wire}
use wavedb.Wire.Dynamic.{vec}
use wavedb.Wire.Compose.{pair}
use wavedb.BpTree.Fault.{Result, ok, err, stuck, wire, bp_tree_node_bad_tag, ◌>>=◌, from_wire_error}

-- `enum NodeBody`.
pub data NodeBody (K : Type 0) : Type 0 where
  leaf : List K → NodeBody K
  internal : LocalId → List (K × LocalId) → NodeBody K

abbrev pub bptree_node_struct_hash : ℕ
bptree_node_struct_hash = 0x4250545245450001

abbrev pub node_prefix : ℕ
node_prefix = 8

abbrev pub kind_leaf : ℕ
kind_leaf = 0

abbrev pub kind_internal : ℕ
kind_internal = 1

-- `buf.get(NODE_PREFIX)`, of what is left behind the tag.
abbrev pub first {ℓ} : {A : Type ℓ} → List A → Option A
first [] = none
first (x ∷ xs) = some x

module _ {K : Type 0} (key_wire : WaveWire K) where
  unfoldable pub entries_wire : WaveWire (List (K × LocalId))
  unfolding vec pair local_id_wire
  entries_wire = vec (pair key_wire local_id_wire)

  unfoldable pub to_bytes : NodeBody K → List ℕ
  unfolding to_wire vec entries_wire
  to_bytes (leaf keys) =
      to_le_bytes node_prefix bptree_node_struct_hash ++ kind_leaf ∷ to_wire (vec key_wire) keys
  to_bytes (internal leftmost entries) =
      to_le_bytes node_prefix bptree_node_struct_hash
      ++ kind_internal ∷ (to_wire local_id_wire leftmost ++ to_wire entries_wire entries)

  unfoldable pub internal_from_bytes : List ℕ → Result (NodeBody K)
  unfolding from_wire entries_wire local_id_wire
  internal_from_bytes payload =
      let split = local_id_wire.stack_size in
      if ltb (length payload) split then err (wire unexpected_eof) else (do
        leftmost ← from_wire_error (from_wire local_id_wire (take split payload))
        entries ← from_wire_error (from_wire entries_wire (drop split payload))
        ok (internal leftmost entries))

  -- The `match` on the kind byte, which may be absent.
  unfoldable pub kind_from_bytes : ℕ → Option ℕ → List ℕ → Result (NodeBody K)
  unfolding from_wire vec internal_from_bytes
  kind_from_bytes tag none payload = err (bp_tree_node_bad_tag tag)
  kind_from_bytes tag (some kind) payload =
      if kind == kind_leaf
      then (do keys ← from_wire_error (from_wire (vec key_wire) payload); ok (leaf keys))
      else if kind == kind_internal
      then internal_from_bytes payload
      else err (bp_tree_node_bad_tag tag)

  unfoldable pub from_bytes : List ℕ → Result (NodeBody K)
  unfolding kind_from_bytes
  from_bytes buf =
      let tag = from_le_bytes (take node_prefix buf) in
      if ltb (length buf) node_prefix
      then err (bp_tree_node_bad_tag 0)
      else if tag == bptree_node_struct_hash
      then kind_from_bytes tag (first (drop node_prefix buf)) (drop (node_prefix + 1) buf)
      else err (bp_tree_node_bad_tag tag)
