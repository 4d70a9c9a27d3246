-- ===== src/Runs/BpTree.antt =====
-- A tree of two leaves in a store of bytes, searched and inserted into.
use wavedb.Base.{
  ◌++◌, ℕ, zero, suc, ◌+◌, ◌≤◌, ◌<◌, ◌≡◌, refl, arith, List, [], ◌∷◌, Option, none, some, ◌==◌,
  if◌then◌else◌,
}
use wavedb.Ids.Id.{CompositeId}
use wavedb.Ids.Id
use wavedb.Wire.Cursor
use wavedb.Ids.LocalId.{LocalId, local_id_wire}
use wavedb.Index.Bound.{Bound, range}
use wavedb.BpTree.Fault.{Result, ok}
use wavedb.BpTree.Key.{local_key, local_key-IsLawful}
use wavedb.BpTree.Node.{NodeBody, leaf, internal, to_bytes, from_bytes}
use wavedb.BpTree.Search.{BpTree, GetOf, load, contains, search_keys, key, matching}
use wavedb.BpTree.Shape.{Tree, Represents, keys}
use wavedb.BpTree.Contains.{contains-member}
use wavedb.BpTree.Order.{member}
use wavedb.Base.{map}
use wavedb.Index.Bound.Laws.{BoundFits}
use wavedb.Wire.Dynamic.{vec_heap_size}
use wavedb.Wire.Compose.{pair}
use wavedb.Index.Bytes.{to_be_bytes, to_be_bytes-AreBytes}
use wavedb.Ids.Laws.{local_id_wire-IsWire}
use wavedb.BpTree.Node.Laws.{from_bytes-to_bytes}
use wavedb.BpTree.Insert.{Plan, plan_insert}
use wavedb.BpTree.Insert.Ids.{count, mints}
use wavedb.BpTree.Insert.Refinement.{AreFresh, Inserted, plan_insert-insert_sorted}
use wavedb.Base.{◌*◌, ◌/◌}
use wavedb.BpTree.Shape.{Ordered}
use wavedb.BpTree.Remove.{merge, redistribute}
use wavedb.BpTree.Remove.Siblings.{body, width, capacity, AreSiblings, merge-joins}
use wavedb.BpTree.Remove.Sharing.{Shared, redistribute-AreSiblings}
use wavedb.BpTree.Remove.Balance.{IsBalanced, redistribute-IsBalanced}
use wavedb.BpTree.Walk.{search_keys-matching}

abbrev k : ℕ → LocalId
k n = record { key = n; lower = 0 }

abbrev nodes : ℕ → Option (NodeBody LocalId)
nodes n =
    if n == 100
    then some (internal (k 101) ((k 5, k 102) ∷ []))
    else if n == 101
    then some (leaf (k 1 ∷ k 2 ∷ []))
    else if n == 102
    then some (leaf (k 5 ∷ k 6 ∷ []))
    else none

abbrev bytes_of : Option (NodeBody LocalId) → Option (List ℕ)
bytes_of none = none
bytes_of (some n) = some (to_bytes local_id_wire n)

abbrev get_of : GetOf
get_of hash id = ok (bytes_of (nodes (Id.key id)))

abbrev handle : BpTree
handle = record { root = k 100; tenant = 7; leaf_cap = 2; internal_cap = 2 }

abbrev two_leaves : Tree LocalId 1
two_leaves = (k 100, (k 101, k 1 ∷ k 2 ∷ []), (k 5, (k 102, k 5 ∷ k 6 ∷ [])) ∷ [])

two_leaves-Represents : Represents local_key handle (load local_key handle get_of) 1 two_leaves
unfolding load local_key to_bytes from_bytes Id.key Id.new Cursor.to_le_bytes Cursor.from_le_bytes
    Cursor.take Cursor.new Cursor.u32
two_leaves-Represents = record {
  root = refl;
  holds = (refl, refl, (refl, tt));
  ordered = (
    (((refl, tt), (tt, tt)), ((tt, refl), ((tt, refl), tt))),
    tt,
    tt,
    (((refl, tt), (tt, tt)), ((refl, tt), ((refl, tt), tt))),
  );
}

contains-member_example :
    contains local_key handle get_of 2 (k 6)
    ≡ ok (member local_key-IsLawful (k 6) (keys LocalId 1 two_leaves))
contains-member_example =
    contains-member local_key-IsLawful handle get_of 1 (k 6) two_leaves two_leaves-Represents

-- The keys from 2 to 5, as bytes of eight.
abbrev some_keys : Bound
some_keys = range (to_be_bytes 8 2) (to_be_bytes 8 6)

fits : BoundFits some_keys
fits = (to_be_bytes-AreBytes 8 2, to_be_bytes-AreBytes 8 6)

search_keys-matching_example :
    search_keys local_key handle get_of some_keys 3
    ≡ map key (matching local_key some_keys (keys LocalId 1 two_leaves))
unfolding local_key-IsLawful
search_keys-matching_example =
    search_keys-matching local_key-IsLawful some_keys handle get_of 1 3 two_leaves
      two_leaves-Represents
      ((
        (omega arith, fits),
        ((omega arith, fits), ((omega arith, fits), ((omega arith, fits), tt))),
      ))
      (omega arith)

abbrev a_node : NodeBody LocalId
a_node = internal (k 101) ((k 5, k 102) ∷ [])

from_bytes-to_bytes_example : from_bytes local_id_wire (to_bytes local_id_wire a_node) ≡ ok a_node
from_bytes-to_bytes_example =
    from_bytes-to_bytes local_id_wire-IsWire (unfold local_id_wire in omega arith) a_node (
      (omega arith, omega arith),
      ((((omega arith), (omega arith)), (omega arith, omega arith)), tt),
      unfold vec_heap_size pair local_id_wire in omega arith,
    )

abbrev mint : ℕ → LocalId
mint i = k (200 + i)

-- An id is minted once, and below the next key.
mint_bound : (p : LocalId) (n : ℕ) → 200 + n ≤ p.key → count p (mints mint n) ≡ 0
mint_bound p zero h = refl
mint_bound p (suc n) h = ground (arith, mint_bound p n)

mint_once : (p : LocalId) (n : ℕ) → count p (mints mint n) ≤ 1
mint_once p zero = omega arith
mint_once p (suc n) = ground (arith, mint_bound p n, mint_once p n)

mint_above : (p : LocalId) (n : ℕ) → p.key < 200 → count p (mints mint n) ≡ 0
mint_above p zero h = refl
mint_above p (suc n) h = ground (arith, mint_above p n)

abbrev load_nodes : LocalId → Result (NodeBody LocalId)
load_nodes = load local_key handle get_of

two_leaves-AreFresh : AreFresh local_key-IsLawful handle mint load_nodes (k 7) 1 two_leaves
two_leaves-AreFresh = record {
  once = mint_once;
  distinct = λ p. (ground arith, λ n m. mint_above p n (ground (arith, m)));
}

plan_insert-insert_sorted_example :
    (plan : Plan LocalId) × (plan_insert local_key handle mint load_nodes 2 (k 7) ≡ ok plan)
    × Inserted local_key-IsLawful handle mint load_nodes (k 7) 1 two_leaves plan
plan_insert-insert_sorted_example =
    plan_insert-insert_sorted local_key-IsLawful handle mint load_nodes (k 7) 1 two_leaves
      two_leaves-Represents two_leaves-AreFresh (omega arith)

-- Two leaves around the separator 5: together they are too wide for one leaf of two keys, and not
-- for one of eight.
abbrev low : Tree LocalId 0
low = (k 101, k 1 ∷ k 2 ∷ [])

abbrev high : Tree LocalId 0
high = (k 102, k 5 ∷ k 6 ∷ [])

low-AreSiblings : AreSiblings local_key-IsLawful 0 low (k 5) high none none
unfolding local_key
low-AreSiblings = record {
  left = ((((refl, tt), (tt, tt)), ((tt, refl), ((tt, refl), tt))));
  over = tt;
  under = tt;
  right = (((refl, tt), (tt, tt)), ((refl, tt), ((refl, tt), tt)));
}

abbrev wide : BpTree
wide = record handle { leaf_cap = 8 }

abbrev both : NodeBody LocalId
both = leaf (k 1 ∷ k 2 ∷ k 5 ∷ k 6 ∷ [])

too_wide : merge handle (body LocalId 0 low) (body LocalId 0 high) (k 5) ≡ none
unfolding merge
too_wide = refl

fits_in : merge wide (body LocalId 0 low) (body LocalId 0 high) (k 5) ≡ some both
unfolding merge
fits_in = refl

redistribute-AreSiblings_example : Shared local_key-IsLawful 0 low (k 5) high none none
redistribute-AreSiblings_example =
    redistribute-AreSiblings local_key-IsLawful handle 0 low (k 5) high none none low-AreSiblings
      (omega arith) too_wide

merge-joins_example :
    (j : Tree LocalId 0) × (body LocalId 0 j ≡ both)
    × Ordered local_key 0 none none j
    × (keys LocalId 0 j ≡ keys LocalId 0 low ++ keys LocalId 0 high)
    × (width (body LocalId 0 j) ≤ capacity wide (body LocalId 0 j) * 3 / 4)
merge-joins_example =
    merge-joins local_key-IsLawful wide 0 low (k 5) high none none both low-AreSiblings fits_in

redistribute-IsBalanced_example :
    IsBalanced handle (redistribute (body LocalId 0 low) (body LocalId 0 high) (k 5)).0
    × IsBalanced handle (redistribute (body LocalId 0 low) (body LocalId 0 high) (k 5)).1
redistribute-IsBalanced_example =
    redistribute-IsBalanced handle 0 low high (k 5) too_wide (omega arith) (omega arith)
