-- ===== src/Pages/Plan/Total.antt =====
-- Where the compressor does not fail, a round is planned to its end.
use wavedb.Base.{
  ℕ, zero, suc, ◌+◌, ◌<◌, ◌≡◌, ◌^◌, refl, arith, List, [], ◌∷◌, Bool, true, false, length, leb,
  Bool-cases, inl, inr,
}
use wavedb.Pages.Map.{Map}
use wavedb.Pages.Fault.{StorageResult, ok, ◌>>=◌}
use wavedb.Pages.Dictionary.{Dictionary, DictState}
use wavedb.Pages.Dictionary.Laws.{Grown}
use wavedb.Pages.Buckets.{next_split_bucket, split_bit}
use wavedb.Pages.Page.{Codecs, SlotPage, PagePayload, payload_of, to_bytes}
use wavedb.Pages.Directory.{Directory, Env, File, read_page}
use wavedb.Pages.Storage.{StructStorage}
use wavedb.Pages.Plan.{
  Splitting, staged_page, divide, page_images, split_once, plan_splits, planned_blocks,
}
use wavedb.Pages.Plan.Stage.{page_in, staged_page-page_in}
use wavedb.Pages.Plan.Divide.{next_split-lt}
use wavedb.Pages.Plan.Split.{IsSplit, read_old, split_once-IsSplit}

-- The compressor makes bytes of any bytes, under any dictionary.
abbrev pub Compresses : Codecs → Type 0
Compresses c = (dict plain : List ℕ) → (packed : List ℕ) × (c.compress dict plain ≡ ok packed)

bind_total {ℓ κ} :
    {A : Type ℓ} {B : Type κ} (m : StorageResult A) (f : A → StorageResult B)
    → (a : A) × (m ≡ ok a)
    → ((a : A) → (b : B) × (f a ≡ ok b))
    → (b : B) × ((m >>= f) ≡ ok b)
bind_total m f (a, e) g = let (b, e') = g a in (b, rw e e')

to_bytes_total :
    (c : Codecs)
    → Compresses c
    → (dict : Dictionary) (compressed : Bool) (p : SlotPage)
    → (bytes : List ℕ) × (to_bytes c dict compressed p ≡ ok bytes)
unfolding to_bytes payload_of
to_bytes_total c packs dict compressed p =
    bind_total (payload_of c dict compressed _) _ (payload_total compressed _)
      (λ payload. (_, refl))
  where
    payload_total :
        (compressed : Bool) (plain : List ℕ)
        → (payload : PagePayload) × (payload_of c dict compressed plain ≡ ok payload)
    payload_total false plain = (_, refl)
    payload_total true plain =
        bind_total (c.compress dict.buf plain) _ (packs dict.buf plain) (λ packed. (_, refl))

pub page_images_total :
    (env : Env) (file : File) (slot : StructStorage)
    → Compresses env.codecs
    → (dict : DictState) (staged : Map SlotPage)
    → (pages : Map (List ℕ)) × (page_images env file slot dict staged ≡ ok pages)
unfolding page_images
page_images_total env file slot packs dict [] = ([], refl)
page_images_total env file slot packs dict ((bucket, page) ∷ staged) =
    bind_total (to_bytes env.codecs dict.dict dict.enabled page) _
      (to_bytes_total env.codecs packs dict.dict dict.enabled page)
      (λ bytes.
        bind_total (page_images env file slot dict staged) _
          (page_images_total env file slot packs dict staged) (λ rest. (_, refl)))

module _ (env : Env) (file : File) (slot : StructStorage) (dir : Directory) (page_of : ℕ → SlotPage)
    (dict dict' : DictState)
    (reads : (b : ℕ)
      → b < length dir.slots
      → read_page env dir slot.struct_hash file b dict ≡ ok (page_of b))
    (grown : Grown dict.dict dict'.dict) (packs : Compresses env.codecs) where
  abbrev Splits : Splitting → Type 0
  Splits st = IsSplit env file slot dir page_of dict dict' reads grown st

  split_once_total :
      (st : Splitting)
      → Splits st
      → next_split_bucket (length st.dir.slots) < length st.dir.slots
      → (st' : Splitting) × (split_once env file slot dict' st ≡ ok st')
  unfolding split_once
  split_once_total st is lt =
      let source : ℕ = next_split_bucket (length st.dir.slots) in
      let page : SlotPage = page_in page_of st.staged source in
      let found : staged_page env file slot st.dir dict' st.staged source ≡ ok page =
        staged_page-page_in env file slot page_of st.dir dict' st.staged source (λ e.
          read_old env file slot dir page_of dict dict' reads grown st source is
            (is.staged_new source lt e)) in
      bind_total (staged_page env file slot st.dir dict' st.staged source) _ (page, found)
        (λ page.
          let parts = divide env file slot st.dir (split_bit (length st.dir.slots)) page.records in
          bind_total (to_bytes env.codecs dict'.dict dict'.enabled parts.0) _
            (to_bytes_total env.codecs packs dict'.dict dict'.enabled parts.0)
            (λ keep.
              bind_total (to_bytes env.codecs dict'.dict dict'.enabled parts.1) _
                (to_bytes_total env.codecs packs dict'.dict dict'.enabled parts.1)
                (λ moved. (_, refl))))

  pub plan_splits_total :
      (target rounds : ℕ) (st : Splitting)
      → Splits st
      → 0 < length st.dir.slots
      → length st.dir.slots + rounds < 2 ^ 64
      → (st' : Splitting) × (plan_splits env file slot target rounds dict' st ≡ ok st')
  unfolding plan_splits
  plan_splits_total target zero st is some_slots few_slots = (st, refl)
  plan_splits_total target (suc rounds) st is some_slots few_slots =
      let lt = next_split-lt (length st.dir.slots) some_slots (omega (arith, few_slots)) in
      elim (Bool-cases
        (leb (planned_blocks st.dir st.pages (next_split_bucket (length st.dir.slots))) target)) [
          | inl enough ↦ (st, rw (enough, plan_splits) refl)
          | inr too_many ↦
              let (next, once) = split_once_total st is lt in
              let (is', by_one) =
                split_once-IsSplit env file slot dir page_of dict dict' reads grown st next is lt
                  once in
              let (last, e) =
                plan_splits_total target rounds next is' (omega (arith, by_one))
                  (omega (arith, by_one, few_slots)) in
              (last, rw (too_many, plan_splits, once) e)
        ]
