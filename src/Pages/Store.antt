-- ===== src/Pages/Store.antt =====
-- crates/wavedb-storage/src/apply.rs and read_through.rs, and the lookups of page_store.rs: the reads
-- of a `PageStore` and the application of a batch.
pub mod Slots
pub mod Effect
pub mod Routing
pub mod Apply
use wavedb.Base.{
  ℕ, zero, suc, ◌+◌, List, [], ◌∷◌, ◌++◌, Bool, true, false, not, length, take, ltb, leb, ◌==◌,
  ◌&&◌, Option, none, some, if◌then◌else◌,
}
use mathlib.Core.Option
use wavedb.Ids.Id.{CompositeId}
use wavedb.Wire.Cursor.{from_le_bytes}
use wavedb.Journal.{Journal, append, append_deferred, sync}
use wavedb.Journal.Frame.{Write, put, remove, expect, JournalFrame, batch, journal_frame_wire}
use wavedb.Pages.Map
use wavedb.Pages.Fault.{
  StorageResult, ok, err, stuck, corrupt, unregistered_struct_hash, conflict,
  record_shorter_than_struct_hash, expect_ok, ◌>>=◌,
}
use wavedb.Pages.Directory.{Directory, Seed, Env, File, get_record}
use wavedb.Pages.Storage.{StructStorage, is_removed, mark_removed, clear_removed}
use wavedb.Pages.Storage

abbrev pub Touched : Type 0
Touched = List (ℕ × List CompositeId)

-- The allocator and the log of the addresses stand in the settling of a round. `window` is
-- `relax_window`.
pub record PageStore : Type 0 where
  pub file : File
  pub journal : Journal
  pub types : List StructStorage
  pub seed : Seed
  pub pending : Touched
  pub window : ℕ

-- The binary search on the types, which are sorted by their hash, and the slot that it finds.
unfoldable pub slot_index : ℕ → List StructStorage → Option ℕ
slot_index hash [] = none
slot_index hash (s ∷ types) =
    if s.struct_hash == hash then some 0 else Option.map suc (slot_index hash types)

unfoldable pub slot_of : ℕ → List StructStorage → Option StructStorage
slot_of hash [] = none
slot_of hash (s ∷ types) = if s.struct_hash == hash then some s else slot_of hash types

-- A method of `self.types[idx]` that changes it.
abbrev pub modify : ℕ → (StructStorage → StructStorage) → List StructStorage → List StructStorage
modify idx f [] = []
modify zero f (s ∷ types) = f s ∷ types
modify (suc idx) f (s ∷ types) = s ∷ modify idx f types

unfoldable pub struct_hash_of : List ℕ → StorageResult ℕ
struct_hash_of bytes =
    if ltb (length bytes) 8
    then err (corrupt record_shorter_than_struct_hash)
    else ok (from_le_bytes (take 8 bytes))

unfoldable pub note_touched : ℕ → CompositeId → Touched → Touched
note_touched idx id [] = (idx, id ∷ []) ∷ []
note_touched idx id ((i, ids) ∷ touched) =
    if i == idx then (i, ids ++ id ∷ []) ∷ touched else (i, ids) ∷ note_touched idx id touched

abbrev pub note_all : ℕ → List CompositeId → Touched → Touched
note_all idx [] pending = pending
note_all idx (id ∷ ids) pending = note_all idx ids (note_touched idx id pending)

unfoldable pub merge_touched : Touched → Touched → Touched
unfolding note_touched
merge_touched pending [] = pending
merge_touched pending ((idx, ids) ∷ touched) = merge_touched (note_all idx ids pending) touched

-- The hash of a write's type.
unfoldable pub routed_hash : Write → StorageResult ℕ
unfolding struct_hash_of
routed_hash (put id bytes) = struct_hash_of bytes
routed_hash (remove hash id) = ok hash
routed_hash (expect hash id bytes) = ok hash

abbrev pub registered : ℕ → Option StructStorage → StorageResult (Unit {0})
registered hash none = err (unregistered_struct_hash hash)
registered hash (some slot) = ok tt

unfoldable pub route_batch : List Write → List StructStorage → StorageResult (Unit {0})
unfolding routed_hash slot_of
route_batch [] types = ok tt
route_batch (w ∷ writes) types = do
  hash ← routed_hash w
  _ ← registered hash (slot_of hash types)
  route_batch writes types

-- `slot_index`, whose `expect` panics on a type that is not registered.
abbrev pub expect_index : Option ℕ → StorageResult ℕ
expect_index none = stuck
expect_index (some idx) = ok idx

-- The cache and the tombstones of a slot behind one write.
unfoldable pub slot_put : CompositeId → List ℕ → StructStorage → StructStorage
unfolding clear_removed
slot_put id bytes s = clear_removed id (record s { cache = Map.insert id.raw bytes s.cache })

unfoldable pub slot_remove : CompositeId → StructStorage → StructStorage
unfolding mark_removed
slot_remove id s = mark_removed id (record s { cache = Map.remove id.raw s.cache })

-- One round of the loop of `commit_to_caches`.
unfoldable pub commit_write :
    Write → List StructStorage × Touched → StorageResult (List StructStorage × Touched)
unfolding struct_hash_of slot_index slot_put slot_remove note_touched
commit_write (put id bytes) (types, touched) = do
  hash ← expect_ok (struct_hash_of bytes)
  idx ← expect_index (slot_index hash types)
  ok (modify idx (slot_put id bytes) types, note_touched idx id touched)
commit_write (remove hash id) (types, touched) = do
  idx ← expect_index (slot_index hash types)
  ok (modify idx (slot_remove id) types, note_touched idx id touched)
commit_write (expect hash id bytes) state = ok state

abbrev pub commit_loop :
    List Write → List StructStorage × Touched → StorageResult (List StructStorage × Touched)
commit_loop [] state = ok state
commit_loop (w ∷ writes) state = do state ← commit_write w state; commit_loop writes state

unfoldable pub commit_to_caches :
    List Write → List StructStorage → StorageResult (List StructStorage × Touched)
unfolding commit_write
commit_to_caches writes types = commit_loop writes (types, [])

-- The writes that are no guards.
unfoldable pub effective : List Write → List Write
effective [] = []
effective (put id bytes ∷ writes) = put id bytes ∷ effective writes
effective (remove hash id ∷ writes) = remove hash id ∷ effective writes
effective (expect hash id bytes ∷ writes) = effective writes

-- `==` on `Option<Vec<u8>>`.
abbrev pub bytes_eq : List ℕ → List ℕ → Bool
bytes_eq [] [] = true
bytes_eq [] (y ∷ ys) = false
bytes_eq (x ∷ xs) [] = false
bytes_eq (x ∷ xs) (y ∷ ys) = x == y && bytes_eq xs ys

abbrev pub record_eq : Option (List ℕ) → Option (List ℕ) → Bool
record_eq none none = true
record_eq none (some y) = false
record_eq (some x) none = false
record_eq (some x) (some y) = bytes_eq x y

module _ (env : Env) where
  abbrev pub from_directory :
      StructStorage → File → CompositeId → Option Directory → StorageResult (Option (List ℕ))
  from_directory slot file id none = ok none
  from_directory slot file id (some dir) = get_record env dir slot.struct_hash file id slot.dict

  unfoldable pub read_from_pages :
      StructStorage → File → CompositeId → StorageResult (Option (List ℕ))
  unfolding is_removed
  read_from_pages slot file id =
      if is_removed id slot then ok none else from_directory slot file id slot.dir

  abbrev pub read_missed :
      StructStorage → File → CompositeId → Option (List ℕ) → StorageResult (Option (List ℕ))
  read_missed slot file id (some bytes) = ok (some bytes)
  read_missed slot file id none = read_from_pages slot file id

  abbrev pub read_slot : Option StructStorage → File → CompositeId → StorageResult (Option (List ℕ))
  read_slot none file id = ok none
  read_slot (some slot) file id = read_missed slot file id (Storage.get id slot)

  unfoldable pub read_of : PageStore → ℕ → CompositeId → StorageResult (Option (List ℕ))
  unfolding slot_of read_from_pages Storage.get
  read_of s struct_hash id = read_slot (slot_of struct_hash s.types) s.file id

  -- One guard, or a write that is none.
  unfoldable pub check_guard : PageStore → Write → StorageResult (Unit {0})
  check_guard s (put id bytes) = ok tt
  check_guard s (remove hash id) = ok tt
  check_guard s (expect hash id expected) = do
    found ← read_of s hash id
    if record_eq found expected then ok tt else err (conflict id)

  unfoldable pub check_guards : PageStore → List Write → StorageResult (Unit {0})
  unfolding check_guard
  check_guards s [] = ok tt
  check_guards s (w ∷ writes) = do _ ← check_guard s w; check_guards s writes

  -- The journal behind the append: a barrier at once, or one for each `window`, where `since` is
  -- what `since_last_sync` reads.
  unfoldable pub log : ℕ → PageStore → JournalFrame → Journal
  log since s frame =
      if s.window == 0
      then append env.codecs.crc journal_frame_wire frame s.journal
      else let j = append_deferred env.codecs.crc journal_frame_wire frame s.journal in
        if leb s.window since then sync j else j

  abbrev pub committed :
      PageStore
      → Journal
      → StorageResult (List StructStorage × Touched)
      → StorageResult (Unit {0}) × PageStore
  committed s j (ok (types, touched)) =
      (ok tt, record s { journal = j; types = types; pending = merge_touched s.pending touched })
  committed s j (err e) = (err e, record s { journal = j })
  committed s j stuck = (stuck, record s { journal = j })

  abbrev pub applied :
      ℕ → PageStore → List Write → StorageResult (Unit {0}) → StorageResult (Unit {0}) × PageStore
  applied since s writes (ok u) =
      committed s (log since s (batch (effective writes)))
        (commit_to_caches (effective writes) s.types)
  applied since s writes (err e) = (err e, s)
  applied since s writes stuck = (stuck, s)

  -- The result and the store behind it, whether or not there was an error.
  unfoldable pub apply_inner : ℕ → List Write → PageStore → StorageResult (Unit {0}) × PageStore
  unfolding route_batch check_guards log commit_to_caches effective merge_touched
  apply_inner since writes s =
      applied since s writes (do _ ← route_batch writes s.types; check_guards s writes)
