-- ===== src/Index/NodeKey.antt =====
-- crates/wavedb-core/src/index/node_key.rs: the keys of a tree and the pruning of a search.
pub mod Pruning
use wavedb.Base.{
  ℕ, ◌-◌, ◌^◌, List, [], ◌∷◌, Bool, true, false, not, ◌&&◌, ◌||◌, ltb, leb, ◌==◌, Option, none,
  some, if◌then◌else◌,
}
use wavedb.Ids.LocalId.{LocalId}
use wavedb.Ids.Laws.{lt_local}
use wavedb.Index.Bytes.{slice_lt, slice_eq, to_be_bytes}
use wavedb.Index.Bound.{Bound, all, exact, range, prefix, contains, created_at_range}

-- `o.is_none_or(f)`.
abbrev pub is_none_or {ℓ} : {A : Type ℓ} → Option A → (A → Bool) → Bool
is_none_or none f = true
is_none_or (some a) f = f a

-- `o.map_or(d, f)`.
abbrev pub map_or {ℓ} : {A : Type ℓ} → Option A → ℕ → (A → ℕ) → ℕ
map_or none d f = d
map_or (some a) d f = f a

abbrev pub u64_max : ℕ
u64_max = 2 ^ 64 - 1

-- `impl NodeKey for LocalId`.
unfoldable pub local_matches : LocalId → Bound → Bool
unfolding contains
local_matches l all = true
local_matches l (exact k) = contains (exact k) (to_be_bytes 8 l.key)
local_matches l (range lo hi) = contains (range lo hi) (to_be_bytes 8 l.key)
local_matches l (prefix p) = contains (prefix p) (to_be_bytes 8 l.key)

unfoldable pub local_may_intersect : Bound → Option LocalId → Option LocalId → Bool
unfolding created_at_range
local_may_intersect bound min max = is_none_or (created_at_range bound) λ r.
    let win_min = map_or min 0 (λ k. k.key) in
    let win_max = map_or max u64_max (λ k. k.key) in leb r.0 win_max && leb win_min r.1

-- A secondary key: the encoded field, then the record.
pub record SecKey : Type 0 where
  pub field : List ℕ
  pub rec : LocalId

-- The derived order: by field, ties broken by the record.
unfoldable pub sec_lt : SecKey → SecKey → Bool
unfolding slice_lt slice_eq
sec_lt a b = slice_lt a.field b.field || (slice_eq a.field b.field && lt_local a.rec b.rec)

unfoldable pub le_prefix_max : List ℕ → List ℕ → Bool
le_prefix_max (a ∷ x) (b ∷ p) = if a == b then le_prefix_max x p else ltb a b
le_prefix_max _ _ = true

unfoldable pub sec_matches : SecKey → Bound → Bool
unfolding contains
sec_matches k bound = contains bound k.field

-- `min.map(|k| k.field)` and `max.map(|k| k.field)` are read in place.
unfoldable pub sec_may_intersect : Bound → Option SecKey → Option SecKey → Bool
unfolding slice_lt le_prefix_max
sec_may_intersect all min max = true
sec_may_intersect (exact k) min max =
    is_none_or max (λ h. not (slice_lt h.field k)) && is_none_or min (λ l. not (slice_lt k l.field))
sec_may_intersect (range b_lo b_hi) min max =
    is_none_or max (λ h. not (slice_lt h.field b_lo)) && is_none_or min (λ l. slice_lt l.field b_hi)
sec_may_intersect (prefix p) min max =
    is_none_or max (λ h. not (slice_lt h.field p)) && is_none_or min (λ l. le_prefix_max l.field p)
