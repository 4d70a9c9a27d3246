-- ===== src/Pages/Directory.antt =====
-- crates/wavedb-storage/src/directory.rs and directory_pages.rs: the directory of a type's buckets.
use wavedb.Base.{ℕ, zero, suc, List, [], ◌∷◌, ◌++◌, true, false, length, Option, none, some}
use wavedb.Ids.Id.{CompositeId}
use wavedb.Blocks.Descriptor.{BlockDescriptor, Run, is_allocated, run}
use wavedb.Wire.Cursor.{to_le_bytes}
use wavedb.Pages.Fault.{StorageResult, ok, stuck, ◌>>=◌}
use wavedb.Pages.Dictionary.{DictState}
use wavedb.Pages.Page.{SlotPage, Codecs, from_bytes}
use wavedb.Pages.Page
use wavedb.Pages.Buckets.{bucket_index}

abbrev pub Seed : Type 0
Seed = ℕ × ℕ × ℕ × ℕ

-- `BlockDescriptor::EMPTY`.
abbrev pub empty : BlockDescriptor
empty = record { raw = 0 }

pub record Directory : Type 0 where
  pub slots : List BlockDescriptor
  pub seed : Seed

abbrev pub new : Seed → Directory
new seed = record { slots = empty ∷ []; seed = seed }

-- `self.slots[bucket]`, `none` out of range, where the source panics.
abbrev pub descriptor : List BlockDescriptor → ℕ → Option BlockDescriptor
descriptor [] bucket = none
descriptor (d ∷ slots) zero = some d
descriptor (d ∷ slots) (suc bucket) = descriptor slots bucket

abbrev pub set_at : List BlockDescriptor → ℕ → BlockDescriptor → List BlockDescriptor
set_at [] bucket desc = []
set_at (d ∷ slots) zero desc = desc ∷ slots
set_at (d ∷ slots) (suc bucket) desc = d ∷ set_at slots bucket desc

unfoldable pub set_descriptor : ℕ → BlockDescriptor → Directory → Directory
set_descriptor bucket desc dir = record dir { slots = set_at dir.slots bucket desc }

unfoldable pub push_bucket : BlockDescriptor → Directory → Directory × ℕ
push_bucket desc dir = (record dir { slots = dir.slots ++ desc ∷ [] }, length dir.slots)

-- `read_run` of the file, with `Seahash` and the codecs, which are crates.
pub record Env : Type 0 where
  pub codecs : Codecs
  pub hash_seeded : List ℕ → Seed → ℕ

abbrev pub File : Type 0
File = Run → StorageResult (List ℕ)

module _ (env : Env) where
  unfoldable pub hash_of : ℕ → Seed → ℕ
  hash_of id seed = env.hash_seeded (to_le_bytes 16 id) seed

  unfoldable pub bucket_of : Directory → ℕ → ℕ
  unfolding hash_of
  bucket_of dir id = bucket_index (length dir.slots) (hash_of id dir.seed)

  abbrev pub page_at : ℕ → File → DictState → Option BlockDescriptor → StorageResult SlotPage
  page_at struct_hash file dict none = stuck
  page_at struct_hash file dict (some desc) = elim (is_allocated desc) [
    | false ↦ ok (Page.new struct_hash)
    | true ↦ (do bytes ← file (run desc); from_bytes env.codecs dict.dict bytes)
  ]

  -- The debug assertion on the type of the page is left out.
  unfoldable pub read_page : Directory → ℕ → File → ℕ → DictState → StorageResult SlotPage
  read_page dir struct_hash file bucket dict =
      page_at struct_hash file dict (descriptor dir.slots bucket)

  unfoldable pub get_record :
      Directory → ℕ → File → CompositeId → DictState → StorageResult (Option (List ℕ))
  unfolding bucket_of read_page
  get_record dir struct_hash file id dict = do
    page ← read_page dir struct_hash file (bucket_of dir id.raw) dict
    ok (Page.get id page)
