-- ===== src/BpTree/Key.antt =====
-- crates/wavedb-core/src/index/node_key.rs: the trait `NodeKey`, and the keys that implement it.
use wavedb.Base.{ℕ, ◌^◌, ◌<◌, ◌≡◌, refl, arith, Bool, true, false, Option, List, [], ◌∷◌}
use wavedb.Ids.LocalId.{LocalId, local_id_wire}
use wavedb.Ids.Laws.{lt_local}
use wavedb.Wire.Codec.{WaveWire}
use wavedb.Wire.Dynamic.{vec}
use wavedb.Wire.Scalars.{uint}
use wavedb.Wire.Compose.{pair}
use wavedb.Wire.Derive.{derive_struct}
use wavedb.Index.Bytes.{slice_lt, slice_eq→eq, slice_eq_refl, slice_lt_irrefl}
use wavedb.Index.Bound.{Bound}
use wavedb.Index.Bound.Laws.{BoundFits}
use wavedb.Index.NodeKey.{
  local_matches, local_may_intersect, SecKey, sec_lt, sec_matches, sec_may_intersect,
}
use wavedb.Index.NodeKey.Pruning.{Above, Below, sec_may_intersect_sound, local_may_intersect_sound}

-- `trait NodeKey`: the order, the codec and the two questions of a search.
pub record NodeKey (K : Type 0) : Type 0 where
  pub lt : K → K → Bool
  pub wire : WaveWire K
  pub record_of : K → LocalId
  pub matches : K → Bound → Bool
  pub may_intersect : Bound → Option K → Option K → Bool

-- What the trait asks of an implementation: a strict total order, and a pruning that is sound for
-- the keys and the bounds that fit.
pub record IsLawful {K : Type 0} (o : NodeKey K) : Type 1 where
  pub lt_irrefl : (a : K) → o.lt a a ≡ false
  pub lt_trans : (a b c : K) → o.lt a b ≡ true → o.lt b c ≡ true → o.lt a c ≡ true
  pub lt_total : (a b : K) → o.lt a b ≡ false → o.lt b a ≡ false → a ≡ b
  pub KeyFits : Bound → K → Type 0
  pub may_intersect_sound :
      (b : Bound) (k : K) (min max : Option K)
      → KeyFits b k
      → o.matches k b ≡ true
      → Above o.lt k min
      → Below o.lt k max
      → o.may_intersect b min max ≡ true

-- `impl NodeKey for LocalId`.
unfoldable pub local_key : NodeKey LocalId
unfolding local_matches local_may_intersect
local_key = record {
  lt = lt_local;
  wire = local_id_wire;
  record_of = λ l. l;
  matches = local_matches;
  may_intersect = local_may_intersect;
}

-- The derived codec of a secondary key.
unfoldable pub sec_key_wire : WaveWire SecKey
unfolding derive_struct pair vec uint local_id_wire
sec_key_wire =
    derive_struct (λ t. record { field = t.0; rec = t.1 }) (λ k. (k.field, k.rec))
      (pair (vec (uint 1)) local_id_wire)

-- `impl NodeKey for SecKey`.
unfoldable pub sec_key : NodeKey SecKey
unfolding sec_key_wire sec_lt sec_matches sec_may_intersect
sec_key = record {
  lt = sec_lt;
  wire = sec_key_wire;
  record_of = λ k. k.rec;
  matches = sec_matches;
  may_intersect = sec_may_intersect;
}

local_eq : (a b : LocalId) → a.key ≡ b.key → a.lower ≡ b.lower → a ≡ b
local_eq a b p q = cc

pub local_total : (a b : LocalId) → lt_local a b ≡ false → lt_local b a ≡ false → a ≡ b
local_total a b p q = local_eq a b (ground arith) (ground arith)

pub local_irrefl : (a : LocalId) → lt_local a a ≡ false
local_irrefl a = ground arith

pub local_trans :
    (a b c : LocalId) → lt_local a b ≡ true → lt_local b c ≡ true → lt_local a c ≡ true
local_trans a b c p q = ground arith

unfoldable pub local_key-IsLawful : IsLawful local_key
unfolding local_key
local_key-IsLawful = record {
  lt_irrefl = local_irrefl;
  lt_trans = local_trans;
  lt_total = local_total;
  KeyFits = λ b k. (k.key < 2 ^ 64) × BoundFits b;
  may_intersect_sound = λ b k min max f. local_may_intersect_sound b k min max f.0 f.1;
}

slice_total : (x y : List ℕ) → slice_lt x y ≡ false → slice_lt y x ≡ false → x ≡ y
unfolding slice_lt
slice_total [] [] p q = refl
slice_total [] (y ∷ ys) p q = cc
slice_total (x ∷ xs) [] p q = cc
slice_total (x ∷ xs) (y ∷ ys) p q = ground (arith, slice_total xs ys)

slice_lt_trans : (x y z : List ℕ) → slice_lt x y ≡ true → slice_lt y z ≡ true → slice_lt x z ≡ true
unfolding slice_lt
slice_lt_trans x y [] p q = q
slice_lt_trans x [] (c ∷ z) p q = cc
slice_lt_trans [] (b ∷ y) (c ∷ z) p q = refl
slice_lt_trans (a ∷ x) (b ∷ y) (c ∷ z) p q = ground (arith, slice_lt_trans x y z)

sec_eq : (a b : SecKey) → a.field ≡ b.field → a.rec ≡ b.rec → a ≡ b
sec_eq a b p q = cc

sec_lt_trans : (a b c : SecKey) → sec_lt a b ≡ true → sec_lt b c ≡ true → sec_lt a c ≡ true
unfolding sec_lt
sec_lt_trans a b c p q = ground (
  arith,
  slice_lt_trans a.field b.field c.field,
  slice_eq→eq a.field b.field,
  slice_eq→eq b.field c.field,
)

sec_total : (a b : SecKey) → sec_lt a b ≡ false → sec_lt b a ≡ false → a ≡ b
unfolding sec_lt
sec_total a b p q =
    ground (
      arith,
      slice_total a.field b.field,
      slice_eq_refl a.field,
      local_total a.rec b.rec,
      sec_eq a b,
    )

pub sec_key-IsLawful : IsLawful sec_key
unfolding sec_key sec_lt
sec_key-IsLawful = record {
  lt_irrefl = λ a. ground (arith, slice_lt_irrefl a.field);
  lt_trans = λ a b c. sec_lt_trans a b c;
  lt_total = λ a b. sec_total a b;
  KeyFits = λ b k. Unit;
  may_intersect_sound = λ b k min max f. sec_may_intersect_sound b k min max;
}
