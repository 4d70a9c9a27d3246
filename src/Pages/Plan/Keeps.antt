-- ===== src/Pages/Plan/Keeps.antt =====
-- A planned round makes of the records of a type what the cache says of the round's ids, and keeps the
-- others, whatever buckets are split.
use wavedb.Base.{
  ℕ, ◌+◌, ◌<◌, ◌^◌, ◌≡◌, refl, sym, ap, ◌∙◌, arith, List, length, subst, if◌then◌else◌,
}
use wavedb.Ids.Id.{CompositeId}
use wavedb.Pages.Map
use wavedb.Pages.Fault.{ok}
use wavedb.Pages.Dictionary.Laws.{Grown, Grown-refl}
use wavedb.Pages.Page.{SlotPage}
use wavedb.Pages.Page
use wavedb.Pages.Directory.{Directory, Seed, Env, File, bucket_of, read_page}
use wavedb.Pages.Storage.{StructStorage}
use wavedb.Pages.Storage
use wavedb.Pages.Plan.{
  Staging, Splitting, stage_loop, page_images, plan_splits, plan_pages, start, resident,
  max_splits_per_round,
}
use wavedb.Pages.Plan.Stage.{page_in, listed, stage_loop-StagedAs}
use wavedb.Pages.Plan.Images.{bind_inv, ok_eq, AreImages, page_images-AreImages}
use wavedb.Pages.Map.{Map}
use wavedb.Pages.Dictionary.{DictState}
use wavedb.Pages.Plan.Total.{Compresses, page_images_total, plan_splits_total}
use wavedb.Pages.Plan.Split.{IsSplit, plan_splits-records}

-- A splitting that begins.
begun-IsSplit :
    (env : Env) (file : File) (slot : StructStorage) (dir : Directory) (page_of : ℕ → SlotPage)
    (dict dict' : DictState)
    (reads : (b : ℕ)
      → b < length dir.slots
      → read_page env dir slot.struct_hash file b dict ≡ ok (page_of b))
    (grown : Grown dict.dict dict'.dict) (staged : Map SlotPage) (pages : Map (List ℕ))
    → AreImages env dict' staged pages
    → IsSplit env file slot dir page_of dict dict' reads grown
        (record { dir = dir; staged = staged; pages = pages })
begun-IsSplit env file slot dir page_of dict dict' reads grown staged pages images = record {
  more = omega arith;
  same_seed = refl;
  old = λ b h. refl;
  staged_new = λ b h e. h;
  images = images;
}

-- A plan that is made.
planned_keeps :
    (env : Env) (file : File) (slot : StructStorage) (seed : Seed) (target : ℕ)
    (ids : List CompositeId) (page_of : ℕ → SlotPage) (planned : Staging × Splitting)
    → ((b : ℕ)
        → b < length (resident env file slot seed slot.dir).slots
        → read_page env (resident env file slot seed slot.dir) slot.struct_hash file b slot.dict
          ≡ ok (page_of b))
    → 0 < length (resident env file slot seed slot.dir).slots
    → length (resident env file slot seed slot.dir).slots + max_splits_per_round < 2 ^ 64
    → plan_pages env file slot seed target ids ≡ ok planned
    → AreImages env planned.0.dict planned.1.staged planned.1.pages
      × ((j : CompositeId)
          → Page.get j (page_in page_of planned.1.staged (bucket_of env planned.1.dir j.raw)) ≡ (
              if listed ids j
              then Storage.get j slot
              else Page.get j
                  (page_of (bucket_of env (resident env file slot seed slot.dir) j.raw))))
unfolding plan_pages Map.get
planned_keeps env file slot seed target ids page_of planned reads some_slots few_slots h =
    let dir : Directory = resident env file slot seed slot.dir in
    let (st, staged, (grown, records)) =
      stage_loop-StagedAs env file slot dir page_of slot.dict reads some_slots
        (omega (arith, few_slots)) ids (start env file slot) (Grown-refl slot.dict.dict) in
    let (st', done, rest) = bind_inv (stage_loop env file slot dir ids (start env file slot)) _ h in
    let same : st' ≡ st = ok_eq (sym done ∙ staged) in
    let (pages, images, rest') = bind_inv (page_images env file slot st'.dict st'.staged) _ rest in
    let begun : Splitting = record { dir = dir; staged = st'.staged; pages = pages } in
    let (sp, splits, last) =
      bind_inv (plan_splits env file slot target max_splits_per_round st'.dict begun) _ rest' in
    let grown' : Grown slot.dict.dict st'.dict.dict =
      subst (λ s. Grown slot.dict.dict s.dict.dict) (sym same) grown in
    let (is, kept) =
      plan_splits-records env file slot dir page_of slot.dict st'.dict reads grown' target
        max_splits_per_round begun sp
        (begun-IsSplit env file slot dir page_of slot.dict st'.dict reads grown' st'.staged pages
          (page_images-AreImages env file slot st'.dict st'.staged pages images))
        some_slots few_slots splits in
    let whole : (st', sp) ≡ planned = ok_eq last in
    (
      subst (λ s. AreImages env s.0.dict s.1.staged s.1.pages) whole is.images,
      λ j.
          ap (λ s. Page.get j (page_in page_of s.1.staged (bucket_of env s.1.dir j.raw)))
            (sym whole)
          ∙ (kept j
              ∙ (ap (λ s. Page.get j (page_in page_of s.staged (bucket_of env dir j.raw))) same
                  ∙ records j)),
    )

-- Where the compressor does not fail, and a page can be read for every bucket of the directory that
-- a round starts from, which has a bucket at least and fewer than 2 ^ 64 behind 64 splits, the
-- round is planned, however many buckets it splits: the bytes planned for a bucket are those of its
-- staged page under the dictionary of the round, and in the page that its bucket has then, an id of
-- the round reads as the cache says and any other id as its page did before.
pub plan_pages_keeps :
    (env : Env) (file : File) (slot : StructStorage) (seed : Seed) (target : ℕ)
    (ids : List CompositeId) (page_of : ℕ → SlotPage)
    → Compresses env.codecs
    → ((b : ℕ)
        → b < length (resident env file slot seed slot.dir).slots
        → read_page env (resident env file slot seed slot.dir) slot.struct_hash file b slot.dict
          ≡ ok (page_of b))
    → 0 < length (resident env file slot seed slot.dir).slots
    → length (resident env file slot seed slot.dir).slots + max_splits_per_round < 2 ^ 64
    → (planned : Staging × Splitting) × (plan_pages env file slot seed target ids ≡ ok planned)
      × AreImages env planned.0.dict planned.1.staged planned.1.pages
      × ((j : CompositeId)
          → Page.get j (page_in page_of planned.1.staged (bucket_of env planned.1.dir j.raw)) ≡ (
              if listed ids j
              then Storage.get j slot
              else Page.get j
                  (page_of (bucket_of env (resident env file slot seed slot.dir) j.raw))))
unfolding plan_pages
plan_pages_keeps env file slot seed target ids page_of packs reads some_slots few_slots =
    let dir : Directory = resident env file slot seed slot.dir in
    let (st, staged, (grown, records)) =
      stage_loop-StagedAs env file slot dir page_of slot.dict reads some_slots
        (omega (arith, few_slots)) ids (start env file slot) (Grown-refl slot.dict.dict) in
    let (pages, images) = page_images_total env file slot packs st.dict st.staged in
    let begun =
      begun-IsSplit env file slot dir page_of slot.dict st.dict reads grown st.staged pages
        (page_images-AreImages env file slot st.dict st.staged pages images) in
    let (sp, splits) =
      plan_splits_total env file slot dir page_of slot.dict st.dict reads grown packs target
        max_splits_per_round (record { dir = dir; staged = st.staged; pages = pages }) begun
        some_slots few_slots in
    let made : plan_pages env file slot seed target ids ≡ ok (st, sp) =
      rw (plan_pages, staged, images, splits) refl in
    (
      (st, sp),
      made,
      (planned_keeps env file slot seed target ids page_of (st, sp) reads some_slots few_slots
          made).0,
      (planned_keeps env file slot seed target ids page_of (st, sp) reads some_slots few_slots
          made).1,
    )
