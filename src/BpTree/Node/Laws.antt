-- ===== src/BpTree/Node/Laws.antt =====
-- The bytes of a node read back, and a foreign tag is refused.
use wavedb.Base.{
  ℕ, ◌^◌, ◌<◌, ◌≡◌, refl, sym, ap, ◌∙◌, arith, List, [], ◌∷◌, ◌++◌, length, All, some, le→ltb,
  append-nil, take_front, drop_front, length-append,
}
use wavedb.Ids.LocalId.{LocalId, local_id_wire}
use wavedb.Ids.Laws.{local_id_wire-IsWire}
use wavedb.Wire.Cursor.{to_le_bytes, from_le_bytes}
use wavedb.Wire.Codec.{WaveWire, to_wire, from_wire}
use wavedb.Wire.Codec.Laws.{IsWire}
use wavedb.Wire.Codec.RoundTrip.{from_wire-to_wire, length-to_wire}
use wavedb.Wire.Dynamic.{vec, vec_heap_size}
use wavedb.Wire.Dynamic.Laws.{vec-IsWire}
use wavedb.Wire.Compose.{pair}
use wavedb.Wire.Compose.Laws.{pair-IsWire}
use wavedb.Wire.Error.{ok as wire_ok}
use wavedb.BpTree.Fault.{ok}
use wavedb.BpTree.Node.{
  NodeBody, leaf, internal, bptree_node_struct_hash, node_prefix, entries_wire, to_bytes,
  internal_from_bytes, kind_from_bytes, from_bytes,
}

abbrev pub IdFits : LocalId → Type 0
IdFits l = (l.key < 256 ^ 8) × (l.lower < 256 ^ 2)

abbrev tag_bytes : List ℕ
tag_bytes = to_le_bytes node_prefix bptree_node_struct_hash

module _ {K : Type 0} {w : WaveWire K} {Fits : K → Type 0} (law : IsWire w Fits) where
  -- The keys and ids of a node fit their widths, and its payload is below 2 ^ 32 bytes.
  abbrev pub NodeFits : NodeBody K → Type 0
  NodeFits (leaf keys) = All Fits keys × (vec_heap_size w keys < 2 ^ 32)
  NodeFits (internal leftmost entries) =
      IdFits leftmost
      × All (λ e. Fits e.0 × IdFits e.1) entries
      × (vec_heap_size (pair w local_id_wire) entries < 2 ^ 32)

  abbrev EntriesFit : List (K × LocalId) → Type 0
  EntriesFit entries =
      All (λ e. Fits e.0 × IdFits e.1) entries
      × (vec_heap_size (pair w local_id_wire) entries < 2 ^ 32)

  entries_law : IsWire (entries_wire w) EntriesFit
  unfolding entries_wire
  entries_law =
      vec-IsWire (pair-IsWire law local_id_wire-IsWire) (unfold pair local_id_wire in omega arith)

  leaf_payload :
      0 < w.stack_size
      → (keys : List K) → NodeFits (leaf keys)
      → from_wire (vec w) (to_wire (vec w) keys) ≡ wire_ok keys
  leaf_payload pos keys fits =
      ap (from_wire (vec w)) (sym (append-nil _))
      ∙ from_wire-to_wire (vec-IsWire law pos) keys [] fits

  -- Behind the tag stand the kind byte and the payload.
  from_bytes-tagged :
      (k : ℕ) (payload : List ℕ)
      → from_bytes w (tag_bytes ++ k ∷ payload)
        ≡ kind_from_bytes w bptree_node_struct_hash (some k) payload
  unfolding from_bytes to_le_bytes from_le_bytes
  from_bytes-tagged k payload = rw (le→ltb (length (tag_bytes ++ k ∷ payload)) 8 (omega arith)) refl

  internal_payload :
      (leftmost : LocalId) (entries : List (K × LocalId))
      → NodeFits (internal leftmost entries)
      → internal_from_bytes w (to_wire local_id_wire leftmost ++ to_wire (entries_wire w) entries)
        ≡ ok (internal leftmost entries)
  unfolding internal_from_bytes
  internal_payload leftmost entries fits =
      rw
        (le→ltb (length (front ++ back)) local_id_wire.stack_size
          (omega (arith, length-append front back, len)))
        (rw (take_front local_id_wire.stack_size front back len) (
          rw (drop_front local_id_wire.stack_size front back len) (
            rw
              (ap (from_wire local_id_wire) (sym (append-nil front))
                ∙ from_wire-to_wire local_id_wire-IsWire leftmost [] fits.0)
              (rw
                (ap (from_wire (entries_wire w)) (sym (append-nil back))
                  ∙ from_wire-to_wire entries_law entries [] (fits.1, fits.2))
                refl))))
    where
      front : List ℕ
      front = to_wire local_id_wire leftmost

      back : List ℕ
      back = to_wire (entries_wire w) entries

      len : length front ≡ local_id_wire.stack_size
      len = length-to_wire local_id_wire-IsWire leftmost ∙ refl

  -- Where keys have a lawful codec with a stack section, a node whose keys and ids fit reads back
  -- from its bytes.
  pub from_bytes-to_bytes :
      0 < w.stack_size → (n : NodeBody K) → NodeFits n → from_bytes w (to_bytes w n) ≡ ok n
  unfolding to_bytes kind_from_bytes
  from_bytes-to_bytes pos (leaf keys) fits =
      from_bytes-tagged 0 (to_wire (vec w) keys) ∙ rw (leaf_payload pos keys fits) refl
  from_bytes-to_bytes pos (internal leftmost entries) fits =
      from_bytes-tagged 1 _ ∙ internal_payload leftmost entries fits
