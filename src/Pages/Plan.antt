-- ===== src/Pages/Plan.antt =====
-- crates/wavedb-storage/src/plan.rs: what the pages of one type are to be behind a settle round.
pub mod Reading
pub mod Stage
pub mod Images
pub mod Divide
pub mod Split
pub mod Total
pub mod Keeps
use wavedb.Base.{
  ℕ, zero, suc, ◌+◌, ◌-◌, ◌/◌, List, [], ◌∷◌, ◌++◌, Bool, true, false, ◌||◌, length, leb, ◌==◌,
  Option, none, some, if◌then◌else◌,
}
use wavedb.Ids.Id.{CompositeId}
use wavedb.Blocks.Descriptor.{BlockDescriptor, block_size, count}
use wavedb.Pages.Map.{Map}
use wavedb.Pages.Map
use wavedb.Pages.Fault.{StorageResult, ok, err, stuck, ◌>>=◌}
use wavedb.Pages.Buckets
use wavedb.Pages.Buckets.{hash_bit}
use wavedb.Pages.Dictionary.{DictState, sample_state, dict_bytes}
use wavedb.Pages.Page.{SlotPage, to_bytes, upsert}
use wavedb.Pages.Page
use wavedb.Pages.Directory.{
  Directory, Seed, Env, File, empty, new, descriptor, push_bucket, bucket_of, hash_of, read_page,
}
use wavedb.Pages.Storage.{StructStorage}
use wavedb.Pages.Storage

abbrev pub max_splits_per_round : ℕ
max_splits_per_round = 64

pub record SlotPlan : Type 0 where
  pub idx : ℕ
  pub dir : Directory
  pub pages : Map (List ℕ)
  pub dict : Option (List ℕ)
  pub cleared : List CompositeId

-- `div_ceil`.
abbrev pub blocks_of : List ℕ → ℕ
blocks_of bytes = (length bytes + (block_size - 1)) / block_size

-- The bucket that is next to split is in range.
abbrev pub blocks_at : Option BlockDescriptor → ℕ
blocks_at none = 0
blocks_at (some desc) = count desc

unfoldable pub planned_blocks : Directory → Map (List ℕ) → ℕ → ℕ
planned_blocks dir pages bucket = elim (Map.get bucket pages) [
  | none ↦ blocks_at (descriptor dir.slots bucket)
  | some bytes ↦ blocks_of bytes
]

-- `staged`, the dictionary, `cleared` and `dict_grew` of the first loop.
pub record Staging : Type 0 where
  pub staged : Map SlotPage
  pub dict : DictState
  pub cleared : List CompositeId
  pub grew : Bool

-- `dir`, `staged` and `pages` of the loop of the splits.
pub record Splitting : Type 0 where
  pub dir : Directory
  pub staged : Map SlotPage
  pub pages : Map (List ℕ)

module _ (env : Env) (file : File) (slot : StructStorage) where
  -- The page that the caller changes in place comes out beside the map that it is put back into.
  unfoldable pub staged_page : Directory → DictState → Map SlotPage → ℕ → StorageResult SlotPage
  staged_page dir dict staged bucket = elim (Map.get bucket staged) [
    | none ↦ read_page env dir slot.struct_hash file bucket dict
    | some page ↦ ok page
  ]

  -- The page behind one id, whose record is cached or gone.
  abbrev pub put_back : ℕ → CompositeId → Staging → SlotPage → Option (List ℕ) → Staging
  put_back bucket id st page (some bytes) =
      let (dict, grew) = sample_state bytes st.dict in
      record st {
        staged = Map.insert bucket (upsert id bytes page) st.staged;
        dict = dict;
        grew = st.grew || grew;
      }
  put_back bucket id st page none = record st {
    staged = Map.insert bucket (Page.remove id page) st.staged;
    cleared = st.cleared ++ id ∷ [];
  }

  unfoldable pub stage_id : Directory → CompositeId → Staging → StorageResult Staging
  unfolding staged_page
  stage_id dir id st =
      let bucket : ℕ = bucket_of env dir id.raw in
      (do
        page ← staged_page dir st.dict st.staged bucket
        ok (put_back bucket id st page (Storage.get id slot)))

  unfoldable pub stage_loop : Directory → List CompositeId → Staging → StorageResult Staging
  unfolding stage_id
  stage_loop dir [] st = ok st
  stage_loop dir (id ∷ ids) st = do st ← stage_id dir id st; stage_loop dir ids st

  -- The bytes of the staged pages.
  unfoldable pub page_images : DictState → Map SlotPage → StorageResult (Map (List ℕ))
  page_images dict [] = ok []
  page_images dict ((bucket, page) ∷ staged) = do
    bytes ← to_bytes env.codecs dict.dict dict.enabled page
    rest ← page_images dict staged
    ok ((bucket, bytes) ∷ rest)

  -- The entries of a page by the splitting bit of their hash. The entries have different keys, so it
  -- is no matter in which order they are put into the two pages.
  unfoldable pub divide : Directory → ℕ → Map (List ℕ) → SlotPage × SlotPage
  divide dir level [] = (Page.new slot.struct_hash, Page.new slot.struct_hash)
  divide dir level ((raw, bytes) ∷ entries) =
      let (keep, moved) = divide dir level entries in
      if hash_bit (hash_of env raw dir.seed) level == 0
      then (upsert (record { raw = raw }) bytes keep, moved)
      else (keep, upsert (record { raw = raw }) bytes moved)

  -- One round of the loop of `plan_splits`, behind the test of the target.
  unfoldable pub split_once : DictState → Splitting → StorageResult Splitting
  unfolding staged_page divide push_bucket
  split_once dict st =
      let level : ℕ = Buckets.split_bit (length st.dir.slots) in
      let source : ℕ = Buckets.next_split_bucket (length st.dir.slots) in
      (do
        page ← staged_page st.dir dict st.staged source
        let parts = divide st.dir level page.records
        let pushed = push_bucket empty st.dir
        keep ← to_bytes env.codecs dict.dict dict.enabled parts.0
        moved ← to_bytes env.codecs dict.dict dict.enabled parts.1
        ok (record {
          dir = pushed.0;
          staged = Map.insert pushed.1 parts.1 (Map.insert source parts.0 st.staged);
          pages = Map.insert pushed.1 moved (Map.insert source keep st.pages);
        }))

  unfoldable pub plan_splits : ℕ → ℕ → DictState → Splitting → StorageResult Splitting
  unfolding split_once planned_blocks
  plan_splits target zero dict st = ok st
  plan_splits target (suc rounds) dict st =
      elim (leb (planned_blocks st.dir st.pages (Buckets.next_split_bucket (length st.dir.slots)))
        target) [
          | true ↦ ok st
          | false ↦ (do st ← split_once dict st; plan_splits target rounds dict st)
        ]

  abbrev pub start : Staging
  start = record { staged = []; dict = slot.dict; cleared = []; grew = false }

  abbrev pub resident : Seed → Option Directory → Directory
  resident seed none = new seed
  resident seed (some dir) = dir

  -- The stagings that `plan_slot` makes the plan of.
  unfoldable pub plan_pages : Seed → ℕ → List CompositeId → StorageResult (Staging × Splitting)
  unfolding stage_loop page_images plan_splits
  plan_pages seed target ids =
      let dir : Directory = resident seed slot.dir in
      (do
        st ← stage_loop dir ids start
        pages ← page_images st.dict st.staged
        sp ←
            plan_splits target max_splits_per_round st.dict
              (record { dir = dir; staged = st.staged; pages = pages })
        ok (st, sp))

  -- The plan, and the dictionary that the samples leave in the slot.
  unfoldable pub plan_slot : ℕ → Seed → ℕ → List CompositeId → StorageResult (SlotPlan × DictState)
  unfolding plan_pages
  plan_slot idx seed target ids = do
    planned ← plan_pages seed target ids
    ok (
      record {
        idx = idx;
        dir = planned.1.dir;
        pages = planned.1.pages;
        dict =
            if planned.0.grew then some (dict_bytes env.codecs.crc planned.0.dict.dict) else none;
        cleared = planned.0.cleared;
      },
      planned.0.dict,
    )
