-- ===== src/Pages/Store/Effect.antt =====
-- What a batch does to the records that are read: the last write of a record gives it, and a record
-- that no write names stays.
use mathlib.Core.Option
use wavedb.Base.{
  ℕ, ◌≡◌, refl, ◌∙◌, arith, List, [], ◌∷◌, Bool, true, false, ◌&&◌, ◌==◌, Option, none, some,
  if◌then◌else◌, Bool-cases, inl, inr, subst, ==_iff,
}
use wavedb.Ids.Id.{CompositeId}
use wavedb.Journal.Frame.{Write, put, remove, expect}
use wavedb.Pages.Fault.{StorageResult, ok, err, stuck, ◌>>=◌, expect_ok}
use wavedb.Pages.Map.{get-insert, get-remove}
use wavedb.Pages.Directory.{Env, File}
use wavedb.Pages.Storage.{StructStorage}
use wavedb.Pages.Storage
use wavedb.Pages.Store.{
  Touched, struct_hash_of, slot_of, slot_index, modify, registered, routed_hash, route_batch,
  slot_put, slot_remove, commit_write, expect_index, note_touched, effective, read_slot,
  read_from_pages,
}
use wavedb.Pages.Store.Slots.{slot_index-slot_of, slot_of-modify}

abbrev hash_is : StorageResult ℕ → ℕ → Bool
hash_is (ok h) hash = h == hash
hash_is (err e) hash = false
hash_is stuck hash = false

-- What a write makes of a record: nothing, or the new value, which is none for a removed one.
abbrev pub effect : Write → ℕ → CompositeId → Option (Option (List ℕ))
effect (put id' bytes) hash id =
    if hash_is (struct_hash_of bytes) hash && id'.raw == id.raw then some (some bytes) else none
effect (remove hash' id') hash id = if hash' == hash && id'.raw == id.raw then some none else none
effect (expect hash' id' bytes) hash id = none

abbrev pub later : Option (Option (List ℕ)) → Option (Option (List ℕ)) → Option (Option (List ℕ))
later (some v) first = some v
later none first = first

-- What a batch makes of a record.
abbrev pub written : List Write → ℕ → CompositeId → Option (Option (List ℕ))
written [] hash id = none
written (w ∷ writes) hash id = later (written writes hash id) (effect w hash id)

abbrev pub over :
    Option (Option (List ℕ)) → StorageResult (Option (List ℕ)) → StorageResult (Option (List ℕ))
over none r = r
over (some v) r = ok v

pub over-later :
    (a b : Option (Option (List ℕ))) (r : StorageResult (Option (List ℕ)))
    → over a (over b r) ≡ over (later a b) r
over-later none b r = refl
over-later (some v) b r = refl

pub written-effective :
    (writes : List Write) (hash : ℕ) (id : CompositeId)
    → written (effective writes) hash id ≡ written writes hash id
unfolding effective
written-effective [] hash id = refl
written-effective (put id' bytes ∷ writes) hash id = rw (written-effective writes hash id) refl
written-effective (remove hash' id' ∷ writes) hash id = rw (written-effective writes hash id) refl
written-effective (expect hash' id' bytes ∷ writes) hash id =
    written-effective writes hash id ∙ none_first (written writes hash id)
  where
    none_first : (o : Option (Option (List ℕ))) → o ≡ later o none
    none_first none = refl
    none_first (some v) = refl

-- The same types are registered.
abbrev pub SameTypes : List StructStorage → List StructStorage → Type 0
SameTypes types types' =
    (hash : ℕ) → registered hash (slot_of hash types') ≡ registered hash (slot_of hash types)

with_hash :
    (r : StorageResult ℕ) (types types' : List StructStorage)
    (rest rest' : StorageResult (Unit {0}))
    → SameTypes types types'
    → rest' ≡ rest
    → (r >>= λ h. registered h (slot_of h types') >>= λ _. rest')
      ≡ (r >>= λ h. registered h (slot_of h types) >>= λ _. rest)
with_hash (ok h) types types' rest rest' same e = rw (same h, e) refl
with_hash (err f) types types' rest rest' same e = refl
with_hash stuck types types' rest rest' same e = refl

pub route_batch-SameTypes :
    (writes : List Write) (types types' : List StructStorage)
    → SameTypes types types'
    → route_batch writes types' ≡ route_batch writes types
unfolding route_batch
route_batch-SameTypes [] types types' same = refl
route_batch-SameTypes (w ∷ writes) types types' same =
    with_hash (routed_hash w) types types' _ _ same (route_batch-SameTypes writes types types' same)

nested {ℓ} :
    {A : Type ℓ} (a b : Bool) (x : A)
    → (if a && b then some x else none) ≡ (if a then if b then some x else none else none)
nested true b x = refl
nested false b x = refl

-- One slot is changed.
modify-SameTypes :
    (hash idx : ℕ) (f : StructStorage → StructStorage) (types : List StructStorage)
    → ((s : StructStorage) → (f s).struct_hash ≡ s.struct_hash)
    → slot_index hash types ≡ some idx
    → SameTypes types (modify idx f types)
modify-SameTypes hash idx f types keep e h =
    rw (slot_of-modify hash h idx f types keep e) (mapped (hash == h) (slot_of h types))
  where
    mapped :
        (b : Bool) (o : Option StructStorage)
        → registered h (if b then Option.map f o else o) ≡ registered h o
    mapped true none = refl
    mapped true (some s) = refl
    mapped false o = refl

module _ (env : Env) (file : File) where
  read_slot_put :
      (id' : CompositeId) (bytes : List ℕ) (s : StructStorage) (id : CompositeId)
      → read_slot env (some (slot_put id' bytes s)) file id
        ≡ over
            (if id'.raw == id.raw then some (some bytes) else none)
            (read_slot env (some s) file id)
  unfolding slot_put read_from_pages Storage.get
  read_slot_put id' bytes s id =
      ground (arith, get-insert id'.raw id.raw bytes s.cache, get-remove id'.raw id.raw s.dead)

  read_slot_remove :
      (id' : CompositeId) (s : StructStorage) (id : CompositeId)
      → read_slot env (some (slot_remove id' s)) file id
        ≡ over (if id'.raw == id.raw then some none else none) (read_slot env (some s) file id)
  unfolding slot_remove read_from_pages Storage.get
  read_slot_remove id' s id =
      ground (arith, get-remove id'.raw id.raw s.cache, get-insert id'.raw id.raw tt s.dead)

  modify_reads :
      (hash idx : ℕ) (f : StructStorage → StructStorage) (types : List StructStorage)
      → ((s : StructStorage) → (f s).struct_hash ≡ s.struct_hash)
      → slot_index hash types ≡ some idx
      → registered hash (slot_of hash types) ≡ ok tt
      → (id : CompositeId) (ef : Option (Option (List ℕ)))
      → ((s : StructStorage)
          → read_slot env (some (f s)) file id ≡ over ef (read_slot env (some s) file id))
      → (h : ℕ)
      → read_slot env (slot_of h (modify idx f types)) file id
        ≡ over (if hash == h then ef else none) (read_slot env (slot_of h types) file id)
  modify_reads hash idx f types keep e known id ef law h =
      rw (slot_of-modify hash h idx f types keep e) (elim (Bool-cases (hash == h)) [
        | inl same ↦ rw same (
            there (slot_of h types)
              (subst (λ k. registered k (slot_of k types) ≡ ok tt) ((==_iff hash h).0 same) known))
        | inr other ↦ rw other refl
      ])
    where
      there :
          (o : Option StructStorage)
          → registered h o ≡ ok tt
          → read_slot env (Option.map f o) file id ≡ over ef (read_slot env o file id)
      there none k = cc
      there (some s) k = law s

  -- One write.
  abbrev pub Committed :
      Write → List StructStorage → StorageResult (List StructStorage × Touched) → Type 0
  Committed w types r =
      (t : List StructStorage × Touched) × (r ≡ ok t)
      × SameTypes types t.0
      × ((h : ℕ) (id : CompositeId)
          → read_slot env (slot_of h t.0) file id
            ≡ over (effect w h id) (read_slot env (slot_of h types) file id))

  change-Committed :
      (w : Write) (hash idx : ℕ) (f : StructStorage → StructStorage) (types : List StructStorage)
      (touched : Touched) (ef : CompositeId → Option (Option (List ℕ)))
      → ((s : StructStorage) → (f s).struct_hash ≡ s.struct_hash)
      → slot_index hash types ≡ some idx
      → registered hash (slot_of hash types) ≡ ok tt
      → ((s : StructStorage) (id : CompositeId)
          → read_slot env (some (f s)) file id ≡ over (ef id) (read_slot env (some s) file id))
      → ((h : ℕ) (id : CompositeId) → effect w h id ≡ (if hash == h then ef id else none))
      → Committed w types (ok (modify idx f types, touched))
  change-Committed w hash idx f types touched ef keep e known law named = (
    (modify idx f types, touched),
    refl,
    modify-SameTypes hash idx f types keep e,
    λ h id.
        rw (named h id) (modify_reads hash idx f types keep e known id (ef id) (λ s. law s id) h),
  )

  put-Committed :
      (id' : CompositeId) (bytes : List ℕ) (types : List StructStorage) (touched : Touched)
      (r : StorageResult ℕ)
      → struct_hash_of bytes ≡ r
      → (r >>= λ h. registered h (slot_of h types)) ≡ ok tt
      → Committed (put id' bytes) types (do
        hash ← expect_ok r
        idx ← expect_index (slot_index hash types)
        ok (modify idx (slot_put id' bytes) types, note_touched idx id' touched))
  unfolding slot_put
  put-Committed id' bytes types touched (err f) e known = cc
  put-Committed id' bytes types touched stuck e known = cc
  put-Committed id' bytes types touched (ok hash) e known =
      let (idx, at_idx) = slot_index-slot_of hash types known in
      rw at_idx (
        change-Committed (put id' bytes) hash idx (slot_put id' bytes) types _
          (λ id. if id'.raw == id.raw then some (some bytes) else none) (λ s. refl) at_idx known
          (λ s id. read_slot_put id' bytes s id)
          (λ h id. rw e (nested (hash == h) (id'.raw == id.raw) _)))

  pub commit_write-Committed :
      (w : Write) (types : List StructStorage) (touched : Touched)
      → (routed_hash w >>= λ h. registered h (slot_of h types)) ≡ ok tt
      → Committed w types (commit_write w (types, touched))
  unfolding commit_write routed_hash slot_remove
  commit_write-Committed (expect hash id' bytes) types touched known =
      ((types, touched), refl, λ h. refl, λ h id. refl)
  commit_write-Committed (remove hash id') types touched known =
      let (idx, at_idx) = slot_index-slot_of hash types known in
      rw at_idx (
        change-Committed (remove hash id') hash idx (slot_remove id') types _
          (λ id. if id'.raw == id.raw then some none else none) (λ s. refl) at_idx known
          (λ s id. read_slot_remove id' s id) (λ h id. nested (hash == h) (id'.raw == id.raw) _))
  commit_write-Committed (put id' bytes) types touched known =
      put-Committed id' bytes types touched (struct_hash_of bytes) refl known
