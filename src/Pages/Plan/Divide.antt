-- ===== src/Pages/Plan/Divide.antt =====
-- What a split makes of the records of a bucket.
use wavedb.Base.{
  ℕ, zero, suc, ◌<◌, ◌^◌, ◌≡◌, refl, sym, ap, ◌∙◌, arith, List, [], ◌∷◌, ◌++◌, false, ◌&&◌, ◌==◌,
  length, length-append, none, if◌then◌else◌, Bool-cases, inl, inr,
}
use wavedb.Ids.Id.{CompositeId}
use wavedb.Blocks.Descriptor.{BlockDescriptor}
use wavedb.Pages.Map.{Map, get-insert}
use wavedb.Pages.Map
use wavedb.Pages.Buckets.{ilog2, next_split_bucket, split_bit, hash_bit}
use wavedb.Pages.Buckets.Laws.{bucket_index-suc, ilog2-IsBase, pow_pos}
use wavedb.Pages.Page.{SlotPage, upsert, to_bytes}
use wavedb.Pages.Page
use wavedb.Pages.Directory.{
  Directory, Env, File, empty, descriptor, push_bucket, bucket_of, hash_of,
}
use wavedb.Pages.Storage.{StructStorage}
use wavedb.Pages.Plan.{divide}
use wavedb.Pages.Plan.Stage.{page_in, page_in-insert}

abbrev bit_of : Env → Directory → CompositeId → ℕ
bit_of env dir j = hash_bit (hash_of env j.raw dir.seed) (split_bit (length dir.slots))

pub divide_kept :
    (env : Env) (file : File) (slot : StructStorage) (dir : Directory) (level : ℕ)
    (entries : Map (List ℕ)) (j : CompositeId)
    → (Page.get j (divide env file slot dir level entries).0 ≡ (
        if hash_bit (hash_of env j.raw dir.seed) level == 0 then Map.get j.raw entries else none))
      × (Page.get j (divide env file slot dir level entries).1 ≡ (
          if hash_bit (hash_of env j.raw dir.seed) level == 0 then none else Map.get j.raw entries))
unfolding divide Page.get upsert Map.get Page.new
divide_kept env file slot dir level [] j = (ground arith, ground arith)
divide_kept env file slot dir level ((raw, bytes) ∷ entries) j =
    let (kept, moved) = divide_kept env file slot dir level entries j in
    let (keep_page, moved_page) = divide env file slot dir level entries in
    ground (
      arith,
      kept,
      moved,
      get-insert raw j.raw bytes keep_page.records,
      get-insert raw j.raw bytes moved_page.records,
    )

-- The bucket of an id behind a split.
pub bucket_of-push :
    (env : Env) (dir : Directory) (raw : ℕ)
    → 0 < length dir.slots
    → suc (length dir.slots) < 2 ^ 64
    → bucket_of env (push_bucket empty dir).0 raw ≡ (
        if (bucket_of env dir raw == next_split_bucket (length dir.slots))
          && (hash_bit (hash_of env raw dir.seed) (split_bit (length dir.slots)) == 1)
        then length dir.slots
        else bucket_of env dir raw)
unfolding bucket_of push_bucket
bucket_of-push env dir raw some_slots few_slots =
    let n : length (dir.slots ++ empty ∷ []) ≡ suc (length dir.slots) =
      omega (arith, length-append dir.slots (empty ∷ [])) in
    rw n (bucket_index-suc (length dir.slots) (hash_of env raw dir.seed) some_slots few_slots)

pub not_inserted {ℓ} :
    {V : Type ℓ} (k j : ℕ) (v : V) (m : Map V)
    → Map.get j (Map.insert k v m) ≡ none
    → ((k == j) ≡ false) × (Map.get j m ≡ none)
not_inserted k j v m e = elim (Bool-cases (k == j)) [
  | inl same ↦ let bad = sym (rw same at (get-insert k j v m)) ∙ e in cc
  | inr other ↦ (other, sym (rw other at (get-insert k j v m)) ∙ e)
]

pub length-push :
    (dir : Directory) → length (push_bucket empty dir).0.slots ≡ suc (length dir.slots)
unfolding push_bucket
length-push dir = omega (arith, length-append dir.slots (empty ∷ []))

pub descriptor-append :
    (slots : List BlockDescriptor) (b : ℕ)
    → b < length slots
    → descriptor (slots ++ empty ∷ []) b ≡ descriptor slots b
descriptor-append [] b h = absurd (omega (arith, h))
descriptor-append (d ∷ slots) zero h = refl
descriptor-append (d ∷ slots) (suc b) h = descriptor-append slots b (omega (arith, h))

pub next_split-lt : (n : ℕ) → 0 < n → n < 2 ^ 64 → next_split_bucket n < n
unfolding next_split_bucket
next_split-lt n pos few = omega (arith, ilog2-IsBase n pos few, pow_pos (ilog2 n))

pub hash_bit-lt : (h level : ℕ) → hash_bit h level < 2
hash_bit-lt h level = omega arith

choose :
    (g : ℕ → SlotPage) (j : CompositeId) (b source n bit x : ℕ) (p0 p1 : SlotPage)
    → b < n
    → source < n
    → bit < 2
    → Page.get j p0 ≡ (if bit == 0 then Page.get j (g source) else none)
    → Page.get j p1 ≡ (if bit == 0 then none else Page.get j (g source))
    → x ≡ (if (b == source) && (bit == 1) then n else b)
    → Page.get j (if n == x then p1 else if source == x then p0 else g x) ≡ Page.get j (g b)
choose g j b source n bit x p0 p1 hb hs hbit e0 e1 ex = ground (arith, e0, e1, ex)

-- The page of an id behind a split, for the number of its bucket and its splitting bit.
pub split_record :
    (page_of : ℕ → SlotPage) (staged : Map SlotPage) (j : CompositeId) (b source n bit : ℕ)
    (p0 p1 : SlotPage)
    → b < n
    → source < n
    → bit < 2
    → Page.get j p0 ≡ (if bit == 0 then Page.get j (page_in page_of staged source) else none)
    → Page.get j p1 ≡ (if bit == 0 then none else Page.get j (page_in page_of staged source))
    → Page.get j (
        page_in page_of
          (Map.insert n p1 (Map.insert source p0 staged))
          (if (b == source) && (bit == 1) then n else b))
      ≡ Page.get j (page_in page_of staged b)
split_record page_of staged j b source n bit p0 p1 hb hs hbit e0 e1 =
    let x : ℕ = if (b == source) && (bit == 1) then n else b in
    ap (λ p. Page.get j p)
      (page_in-insert page_of (Map.insert source p0 staged) n x p1
        ∙ ap (λ p. if n == x then p1 else p) (page_in-insert page_of staged source x p0))
    ∙ choose (page_in page_of staged) j b source n bit x p0 p1 hb hs hbit e0 e1 refl
