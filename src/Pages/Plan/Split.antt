-- ===== src/Pages/Plan/Split.antt =====
-- A split moves records to the new bucket and loses none.
use wavedb.Base.{
  ℕ, zero, suc, ◌+◌, ◌<◌, ◌≤◌, ◌^◌, ◌≡◌, refl, sym, ap, ◌∙◌, arith, List, [], ◌∷◌, length,
  length-append, leb, Option, none, Bool-cases, inl, inr, subst,
}
use wavedb.Ids.Id.{CompositeId}
use wavedb.Pages.Map.{Map, get-insert}
use wavedb.Pages.Map
use wavedb.Pages.Fault.{ok}
use wavedb.Pages.Buckets.{next_split_bucket, split_bit, hash_bit}
use wavedb.Pages.Buckets.Laws.{bucket_index-lt}
use wavedb.Pages.Dictionary.{DictState}
use wavedb.Pages.Dictionary.Laws.{Grown}
use wavedb.Pages.Page.{SlotPage, upsert, to_bytes}
use wavedb.Pages.Page
use wavedb.Pages.Directory.{
  Directory, Env, File, empty, descriptor, push_bucket, bucket_of, hash_of, read_page,
}
use wavedb.Pages.Storage.{StructStorage}
use wavedb.Pages.Plan.{Splitting, staged_page, divide, split_once, plan_splits, planned_blocks}
use wavedb.Pages.Plan.Images.{bind_inv, ok_eq, AreImages, insert-AreImages}
use wavedb.Pages.Plan.Reading.{read_page-Grown}
use wavedb.Pages.Plan.Stage.{page_in, staged_page-page_in}
use wavedb.Pages.Plan.Divide.{
  divide_kept, bucket_of-push, not_inserted, length-push, descriptor-append, next_split-lt,
  hash_bit-lt, split_record,
}

module _ (env : Env) (file : File) (slot : StructStorage) (dir : Directory) (page_of : ℕ → SlotPage)
    (dict dict' : DictState)
    (reads : (b : ℕ)
      → b < length dir.slots
      → read_page env dir slot.struct_hash file b dict ≡ ok (page_of b))
    (grown : Grown dict.dict dict'.dict) where
  -- A splitting that began at the directory `dir`: its old buckets are as they were, its new ones are
  -- staged, and the planned bytes are those of the staged pages.
  pub record IsSplit (st : Splitting) : Type 0 where
    pub more : length dir.slots ≤ length st.dir.slots
    pub same_seed : st.dir.seed ≡ dir.seed
    pub old : (b : ℕ) → b < length dir.slots → descriptor st.dir.slots b ≡ descriptor dir.slots b
    pub staged_new :
        (b : ℕ) → b < length st.dir.slots → Map.get b st.staged ≡ none → b < length dir.slots
    pub images : AreImages env dict' st.staged st.pages

  -- The record of an id in the page of its bucket.
  abbrev pub record_of : Splitting → CompositeId → Option (List ℕ)
  record_of st j = Page.get j (page_in page_of st.staged (bucket_of env st.dir j.raw))

  pub read_old :
      (st : Splitting) (b : ℕ)
      → IsSplit st
      → b < length dir.slots
      → read_page env st.dir slot.struct_hash file b dict' ≡ ok (page_of b)
  unfolding read_page
  read_old st b is h = rw (is.old b h) (
      unfold read_page in
      (read_page-Grown env dir slot.struct_hash file b dict dict' _ grown (reads b h)))

  abbrev behind : Splitting → SlotPage → List ℕ → List ℕ → Splitting
  behind st page keep moved =
      let parts = divide env file slot st.dir (split_bit (length st.dir.slots)) page.records in
      let source = next_split_bucket (length st.dir.slots) in
      record {
        dir = (push_bucket empty st.dir).0;
        staged = Map.insert (length st.dir.slots) parts.1 (Map.insert source parts.0 st.staged);
        pages = Map.insert (length st.dir.slots) moved (Map.insert source keep st.pages);
      }

  -- The bytes of the two halves of a page.
  abbrev ArePacked : Splitting → SlotPage → List ℕ → List ℕ → Type 0
  ArePacked st page keep moved =
      let parts = divide env file slot st.dir (split_bit (length st.dir.slots)) page.records in
      (to_bytes env.codecs dict'.dict dict'.enabled parts.0 ≡ ok keep)
      × (to_bytes env.codecs dict'.dict dict'.enabled parts.1 ≡ ok moved)

  split_once_lem :
      (st st' : Splitting)
      → IsSplit st
      → next_split_bucket (length st.dir.slots) < length st.dir.slots
      → split_once env file slot dict' st ≡ ok st'
      → (keep : List ℕ) × (moved : List ℕ) × ArePacked st
          (page_in page_of st.staged (next_split_bucket (length st.dir.slots)))
          keep
          moved
        × (st'
            ≡ behind st
                (page_in page_of st.staged (next_split_bucket (length st.dir.slots)))
                keep
                moved)
  unfolding split_once push_bucket
  split_once_lem st st' is lt h =
      let source : ℕ = next_split_bucket (length st.dir.slots) in
      let level : ℕ = split_bit (length st.dir.slots) in
      let found =
        staged_page-page_in env file slot page_of st.dir dict' st.staged source
          (λ e. read_old st source is (is.staged_new source lt e)) in
      let (page, e, rest) =
        bind_inv (staged_page env file slot st.dir dict' st.staged source) _ h in
      let parts = divide env file slot st.dir level page.records in
      let (keep, ek, rest') =
        bind_inv (to_bytes env.codecs dict'.dict dict'.enabled parts.0) _ rest in
      let (moved, em, last) =
        bind_inv (to_bytes env.codecs dict'.dict dict'.enabled parts.1) _ rest' in
      let same : page ≡ page_in page_of st.staged source = ok_eq (sym e ∙ found) in
      (
        keep,
        moved,
        subst (λ p. ArePacked st p keep moved) same (ek, em),
        sym (ok_eq last) ∙ ap (λ p. behind st p keep moved) same,
      )

  behind_records :
      (st : Splitting) (keep moved : List ℕ) (j : CompositeId)
      → 0 < length st.dir.slots
      → suc (length st.dir.slots) < 2 ^ 64
      → record_of
          (behind st
            (page_in page_of st.staged (next_split_bucket (length st.dir.slots)))
            keep
            moved)
          j
        ≡ record_of st j
  behind_records st keep moved j some_slots few_slots =
      let n : ℕ = length st.dir.slots in
      let level : ℕ = split_bit n in
      let source : ℕ = next_split_bucket n in
      let page = page_in page_of st.staged source in
      let parts = divide_kept env file slot st.dir level page.records j in
      rw (bucket_of-push env st.dir j.raw some_slots few_slots) (
        split_record page_of st.staged j (bucket_of env st.dir j.raw) source n
          (hash_bit (hash_of env j.raw st.dir.seed) level) _ _
          (unfold bucket_of in (bucket_index-lt n _ some_slots (omega (arith, few_slots))))
          (next_split-lt n some_slots (omega (arith, few_slots))) (hash_bit-lt _ level)
          (unfold Page.get in parts.0) (unfold Page.get in parts.1))

  next-IsSplit :
      (st : Splitting) (page : SlotPage) (keep moved : List ℕ)
      → IsSplit st
      → ArePacked st page keep moved
      → IsSplit (behind st page keep moved)
  unfolding push_bucket
  next-IsSplit st page keep moved is packed = record {
    more = omega (arith, is.more, length-append st.dir.slots (empty ∷ []));
    same_seed = is.same_seed;
    old = λ b h. descriptor-append st.dir.slots b (omega (arith, is.more, h)) ∙ is.old b h;
    staged_new = λ b h e.
        let (not_new, e') = not_inserted (length st.dir.slots) b _ _ e in
        let (not_source, e'') = not_inserted (next_split_bucket (length st.dir.slots)) b _ _ e' in
        is.staged_new b (ground (arith, h, not_new, length-append st.dir.slots (empty ∷ []))) e'';
    images =
        insert-AreImages env dict' _ _ moved _ _ packed.1
          (insert-AreImages env dict' _ _ keep _ _ packed.0 is.images);
  }

  -- One split, which adds a bucket.
  pub split_once-IsSplit :
      (st st' : Splitting)
      → IsSplit st
      → next_split_bucket (length st.dir.slots) < length st.dir.slots
      → split_once env file slot dict' st ≡ ok st'
      → IsSplit st' × (length st'.dir.slots ≡ suc (length st.dir.slots))
  split_once-IsSplit st st' is lt h =
      let (keep, moved, packed, e) = split_once_lem st st' is lt h in
      (
        subst IsSplit (sym e) (
            next-IsSplit st (page_in page_of st.staged (next_split_bucket (length st.dir.slots)))
              keep moved is packed),
        ap (λ s. length s.dir.slots) e ∙ length-push st.dir,
      )

  pub plan_splits-records :
      (target rounds : ℕ) (st st' : Splitting)
      → IsSplit st
      → 0 < length st.dir.slots
      → length st.dir.slots + rounds < 2 ^ 64
      → plan_splits env file slot target rounds dict' st ≡ ok st'
      → IsSplit st' × ((j : CompositeId) → record_of st' j ≡ record_of st j)
  unfolding plan_splits
  plan_splits-records target zero st st' is some_slots few_slots h =
      subst (λ s. IsSplit s × ((j : CompositeId) → record_of s j ≡ record_of st j)) (ok_eq h)
        (is, λ j. refl)
  plan_splits-records target (suc rounds) st st' is some_slots few_slots h =
      let source : ℕ = next_split_bucket (length st.dir.slots) in
      elim (Bool-cases (leb (planned_blocks st.dir st.pages source) target)) [
        | inl enough ↦
            subst (λ s. IsSplit s × ((j : CompositeId) → record_of s j ≡ record_of st j))
              (ok_eq (rw (enough, plan_splits) at h)) (is, λ j. refl)
        | inr too_many ↦
            let (next, once, rest) =
              bind_inv (split_once env file slot dict' st) _ (rw (too_many, plan_splits) at h) in
            let (keep, moved, packed, e) =
              split_once_lem st next is (next_split-lt _ some_slots (omega (arith, few_slots)))
                once in
            let page = page_in page_of st.staged source in
            let grown_by : length next.dir.slots ≡ suc (length st.dir.slots) =
              ap (λ s. length s.dir.slots) e ∙ length-push st.dir in
            let (is', same) =
              plan_splits-records target rounds next st'
                (subst IsSplit (sym e) (next-IsSplit st page keep moved is packed))
                (omega (arith, grown_by)) (omega (arith, grown_by, few_slots)) rest in
            (
              is',
              λ j.
                  same j
                  ∙ (ap (λ s. record_of s j) e
                      ∙ behind_records st keep moved j some_slots (omega (arith, few_slots))),
            )
      ]
