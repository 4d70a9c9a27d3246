-- ===== src/Pages/Plan/Stage.antt =====
-- What the first loop of a plan makes of the records of a type.
use wavedb.Base.{
  ℕ, ◌<◌, ◌^◌, ◌≡◌, refl, ap, ◌∙◌, arith, List, [], ◌∷◌, Bool, true, false, ◌||◌, ◌==◌, length,
  Option, none, some, if◌then◌else◌, Bool-cases, Option-cases, inl, inr, ==_iff,
}
use wavedb.Ids.Id.{CompositeId}
use wavedb.Pages.Map.{Map, get-insert, get-remove}
use wavedb.Pages.Map
use wavedb.Pages.Fault.{ok}
use wavedb.Pages.Buckets.Laws.{bucket_index-lt}
use wavedb.Pages.Dictionary.{DictState}
use wavedb.Pages.Dictionary.Laws.{Grown, Grown-trans, sample_state-Grown}
use wavedb.Pages.Page.{SlotPage, upsert}
use wavedb.Pages.Page
use wavedb.Pages.Directory.{Directory, Env, File, bucket_of, read_page}
use wavedb.Pages.Storage.{StructStorage}
use wavedb.Pages.Storage
use wavedb.Pages.Plan.{Staging, staged_page, put_back, stage_id, stage_loop}
use wavedb.Pages.Plan.Reading.{read_page-Grown}

-- The page of a bucket: the staged one, or the one in the file.
abbrev pub page_in : (ℕ → SlotPage) → Map SlotPage → ℕ → SlotPage
page_in page_of staged bucket = elim (Map.get bucket staged) [ none ↦ page_of bucket | some p ↦ p ]

pub page_in-insert :
    (page_of : ℕ → SlotPage) (staged : Map SlotPage) (bucket b : ℕ) (p : SlotPage)
    → page_in page_of (Map.insert bucket p staged) b
      ≡ (if bucket == b then p else page_in page_of staged b)
page_in-insert page_of staged bucket b p = ground (arith, get-insert bucket b p staged)

joined {ℓ} :
    {A : Type ℓ} (a b : Bool) (new old new' mid : A)
    → (a ≡ true → new' ≡ new)
    → mid ≡ (if a then new' else old)
    → (if b then new else mid) ≡ (if a || b then new else old)
joined true true new old new' mid f e = refl
joined true false new old new' mid f e = e ∙ f refl
joined false true new old new' mid f e = refl
joined false false new old new' mid f e = e

-- Whether an id is among those of the round.
abbrev pub listed : List CompositeId → CompositeId → Bool
listed [] j = false
listed (id ∷ ids) j = id.raw == j.raw || listed ids j

-- `staged_page` gives the page of the bucket, where one that is not staged reads.
pub staged_page-page_in :
    (env : Env) (file : File) (slot : StructStorage) (page_of : ℕ → SlotPage) (dir : Directory)
    (dict : DictState) (staged : Map SlotPage) (bucket : ℕ)
    → (Map.get bucket staged ≡ none
        → read_page env dir slot.struct_hash file bucket dict ≡ ok (page_of bucket))
    → staged_page env file slot dir dict staged bucket ≡ ok (page_in page_of staged bucket)
unfolding staged_page
staged_page-page_in env file slot page_of dir dict staged bucket h =
    elim (Option-cases (Map.get bucket staged)) [
      | inr (p, e) ↦ rw (staged_page, page_in, e) refl
      | inl e ↦ rw (staged_page, page_in, e) (h e)
    ]

module _ (env : Env) (file : File) (slot : StructStorage) (dir : Directory) (page_of : ℕ → SlotPage)
    (dict : DictState)
    (reads : (b : ℕ)
      → b < length dir.slots
      → read_page env dir slot.struct_hash file b dict ≡ ok (page_of b))
    (some_slots : 0 < length dir.slots) (few_slots : length dir.slots < 2 ^ 64) where
  -- The record of an id, in the page of its bucket.
  abbrev record_in : Map SlotPage → CompositeId → Option (List ℕ)
  record_in staged j = Page.get j (page_in page_of staged (bucket_of env dir j.raw))

  in_range : (raw : ℕ) → bucket_of env dir raw < length dir.slots
  unfolding bucket_of
  in_range raw = bucket_index-lt _ _ some_slots few_slots

  staged_page_lem :
      (st : Staging) (id : CompositeId)
      → Grown dict.dict st.dict.dict
      → staged_page env file slot dir st.dict st.staged (bucket_of env dir id.raw)
        ≡ ok (page_in page_of st.staged (bucket_of env dir id.raw))
  staged_page_lem st id g =
      staged_page-page_in env file slot page_of dir st.dict st.staged (bucket_of env dir id.raw)
        (λ e.
          read_page-Grown env dir slot.struct_hash file (bucket_of env dir id.raw) dict st.dict _ g
            (reads (bucket_of env dir id.raw) (in_range id.raw)))

  get-upsert :
      (id j : CompositeId) (bytes : List ℕ) (p : SlotPage)
      → Page.get j (upsert id bytes p) ≡ (if id.raw == j.raw then some bytes else Page.get j p)
  unfolding Page.get upsert
  get-upsert id j bytes p = get-insert id.raw j.raw bytes p.records

  get-drop :
      (id j : CompositeId) (p : SlotPage)
      → Page.get j (Page.remove id p) ≡ (if id.raw == j.raw then none else Page.get j p)
  unfolding Page.get Page.remove
  get-drop id j p = get-remove id.raw j.raw p.records

  insert_record :
      (staged : Map SlotPage) (id j : CompositeId) (new : SlotPage) (o : Option (List ℕ))
      → Page.get j new ≡ (
          if id.raw == j.raw
          then o
          else Page.get j (page_in page_of staged (bucket_of env dir id.raw)))
      → record_in (Map.insert (bucket_of env dir id.raw) new staged) j
        ≡ (if id.raw == j.raw then o else record_in staged j)
  insert_record staged id j new o e =
      rw (page_in-insert page_of staged (bucket_of env dir id.raw) (bucket_of env dir j.raw) new)
        (elim (Bool-cases (id.raw == j.raw)) [
          | inl same ↦
              let one : (bucket_of env dir id.raw == bucket_of env dir j.raw) ≡ true =
                (==_iff _ _).1 (ap (bucket_of env dir) ((==_iff id.raw j.raw).0 same)) in
              rw (one, same) (rw same at e)
          | inr other ↦ elim (Bool-cases (bucket_of env dir id.raw == bucket_of env dir j.raw)) [
            | inr apart ↦ rw (apart, other) refl
            | inl together ↦
                rw (together, other)
                  (rw other at e
                    ∙ ap (λ b. Page.get j (page_in page_of staged b)) ((==_iff _ _).0 together))
          ]
        ])

  put_back_record :
      (id j : CompositeId) (st : Staging) (o : Option (List ℕ))
      → record_in
          (put_back env file slot
            (bucket_of env dir id.raw)
            id
            st
            (page_in page_of st.staged (bucket_of env dir id.raw))
            o).staged
          j
        ≡ (if id.raw == j.raw then o else record_in st.staged j)
  put_back_record id j st (some bytes) =
      insert_record st.staged id j _ (some bytes) (get-upsert id j bytes _)
  put_back_record id j st none = insert_record st.staged id j _ none (get-drop id j _)

  put_back-Grown :
      (bucket : ℕ) (id : CompositeId) (st : Staging) (page : SlotPage) (o : Option (List ℕ))
      → Grown dict.dict st.dict.dict
      → Grown dict.dict (put_back env file slot bucket id st page o).dict.dict
  put_back-Grown bucket id st page none g = g
  put_back-Grown bucket id st page (some bytes) g =
      Grown-trans dict.dict st.dict.dict _ g (sample_state-Grown bytes st.dict)

  -- What a staging holds of the round's ids so far.
  abbrev pub StagedAs : List CompositeId → Staging → Staging → Type 0
  StagedAs ids st st' =
      Grown dict.dict st'.dict.dict
      × ((j : CompositeId)
          → record_in st'.staged j
            ≡ (if listed ids j then Storage.get j slot else record_in st.staged j))

  same_record :
      (id j : CompositeId) → (id.raw == j.raw) ≡ true → Storage.get id slot ≡ Storage.get j slot
  unfolding Storage.get
  same_record id j e = ap (λ k. Map.get k slot.cache) ((==_iff id.raw j.raw).0 e)

  pub stage_loop-StagedAs :
      (ids : List CompositeId) (st : Staging)
      → Grown dict.dict st.dict.dict
      → (st' : Staging) × (stage_loop env file slot dir ids st ≡ ok st') × StagedAs ids st st'
  unfolding stage_loop stage_id
  stage_loop-StagedAs [] st g = (st, refl, (g, λ j. refl))
  stage_loop-StagedAs (id ∷ ids) st g =
      let first : Staging =
        put_back env file slot (bucket_of env dir id.raw) id st
          (page_in page_of st.staged (bucket_of env dir id.raw)) (Storage.get id slot) in
      let (st', done, (g', rest)) =
        stage_loop-StagedAs ids first
          (put_back-Grown (bucket_of env dir id.raw) id st _ (Storage.get id slot) g) in
      (
        st',
        rw (staged_page_lem st id g) done,
        (
          g',
          λ j.
              rest j
              ∙ joined (id.raw == j.raw) (listed ids j) _ _ _ _ (λ e. same_record id j e)
                  (put_back_record id j st (Storage.get id slot)),
        ),
      )
