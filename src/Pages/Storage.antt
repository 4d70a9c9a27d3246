-- ===== src/Pages/Storage.antt =====
-- crates/wavedb-storage/src/struct_storage.rs: the resident state of one type.
use wavedb.Base.{ℕ, ◌+◌, List, [], ◌∷◌, Bool, true, false, length, ltb, Option, none, if◌then◌else◌}
use wavedb.Ids.Id.{CompositeId}
use wavedb.Pages.Map.{Map, Set, has, add}
use wavedb.Pages.Map
use wavedb.Pages.Dictionary.{DictState}
use wavedb.Pages.Dictionary
use wavedb.Pages.Directory.{Directory, empty}

-- The locks are left out: each operation runs by itself.
pub record StructStorage : Type 0 where
  pub struct_hash : ℕ
  pub cache : Map (List ℕ)
  pub dir : Option Directory
  pub dict : DictState
  pub dead : Set

abbrev pub fresh_dict : Bool → DictState
fresh_dict enabled = record { enabled = enabled; dict = record { buf = [] }; desc = empty }

unfoldable pub new : ℕ → StructStorage
new struct_hash = record {
  struct_hash = struct_hash;
  cache = [];
  dir = none;
  dict = fresh_dict true;
  dead = [];
}

unfoldable pub without_compression : ℕ → StructStorage
without_compression struct_hash = record {
  struct_hash = struct_hash;
  cache = [];
  dir = none;
  dict = fresh_dict false;
  dead = [];
}

unfoldable pub get : CompositeId → StructStorage → Option (List ℕ)
get id s = Map.get id.raw s.cache

abbrev pub sum_bytes : Map (List ℕ) → ℕ
sum_bytes [] = 0
sum_bytes ((k, v) ∷ m) = length v + sum_bytes m

unfoldable pub cached_bytes : StructStorage → ℕ
cached_bytes s = sum_bytes s.cache

-- The entries popped from the front until `target` bytes are freed.
abbrev pub evict_loop : ℕ → ℕ → Map (List ℕ) → Map (List ℕ) × ℕ
evict_loop target freed [] = ([], freed)
evict_loop target freed ((k, v) ∷ m) =
    let rest = evict_loop target (freed + length v) m in
    if ltb freed target then rest else ((k, v) ∷ m, freed)

unfoldable pub evict_up_to : ℕ → StructStorage → StructStorage × ℕ
evict_up_to target s =
    let (cache, freed) = evict_loop target 0 s.cache in (record s { cache = cache }, freed)

unfoldable pub mark_removed : CompositeId → StructStorage → StructStorage
mark_removed id s = record s { dead = add id.raw s.dead }

unfoldable pub clear_removed : CompositeId → StructStorage → StructStorage
clear_removed id s = record s { dead = Map.remove id.raw s.dead }

unfoldable pub is_removed : CompositeId → StructStorage → Bool
is_removed id s = has id.raw s.dead

unfoldable pub reset : StructStorage → StructStorage
reset s = record s { cache = []; dir = none; dict = Dictionary.reset s.dict; dead = [] }
