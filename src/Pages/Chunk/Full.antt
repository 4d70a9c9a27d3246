-- ===== src/Pages/Chunk/Full.antt =====
-- The edits of whole directories, replayed.
use wavedb.Base.{
  ℕ, suc, ◌+◌, ◌-◌, ◌%◌, ◌^◌, ◌<◌, ◌≤◌, ◌≡◌, refl, ap, ◌∙◌, arith, List, [], ◌∷◌, ◌++◌, map, All,
  Bool, true, false, ◌||◌, ◌==◌, ==_iff, length, length-map, length-append, length-replicate,
  replicate, ltb, Option, none, some, if◌then◌else◌, Bool-cases, inl, inr, subst, append_assoc,
}
use wavedb.Blocks.Descriptor.{BlockDescriptor}
use wavedb.Pages.Map.{Map, get-insert}
use wavedb.Pages.Map
use wavedb.Pages.Fault.{ok}
use wavedb.Pages.Edit.{
  SlotEdit, Replay, buckets_from, every_bucket, or_default, resized, put_address, put_addresses,
  apply_edit, apply_edits,
}
use wavedb.Pages.Edit.Restores.{apply_done}

abbrev pub raws : List BlockDescriptor → List ℕ
raws slots = map (λ d. d.raw) slots

put_here :
    (pre rest : List ℕ) (a raw : ℕ)
    → put_address (length pre) raw (pre ++ a ∷ rest) ≡ ok (pre ++ raw ∷ rest)
put_here [] rest a raw = refl
put_here (p ∷ pre) rest a raw = rw (put_here pre rest a raw) refl

put_every :
    (pre rest : List ℕ) (slots : List BlockDescriptor)
    → length rest ≡ length slots
    → length pre + length slots < 2 ^ 32
    → put_addresses (buckets_from (length pre) slots) (pre ++ rest) ≡ ok (pre ++ raws slots)
put_every pre [] [] n small = refl
put_every pre (a ∷ rest) [] n small = absurd (omega (arith, n))
put_every pre [] (d ∷ slots) n small = absurd (omega (arith, n))
put_every pre (a ∷ rest) (d ∷ slots) n small =
    let same : length pre % 2 ^ 32 ≡ length pre = omega (arith, small) in
    let more : length (pre ++ d.raw ∷ []) ≡ suc (length pre) =
      omega (arith, length-append pre (d.raw ∷ [])) in
    let next =
      put_every (pre ++ d.raw ∷ []) rest slots (omega (arith, n)) (omega (arith, small, more)) in
    rw (same, put_here pre rest a d.raw) (rw (more, append_assoc, append_assoc) at next)

-- The edit of a whole directory, where no list of addresses is longer than it has to be.
abbrev pub addresses : Option (List BlockDescriptor) → List ℕ
addresses none = []
addresses (some slots) = raws slots

pub record IsFull (target : ℕ → Option (List BlockDescriptor)) (e : SlotEdit) : Type 0 where
  pub slots : List BlockDescriptor
  pub few : length slots < 2 ^ 32
  pub buckets : e.buckets ≡ length slots % 2 ^ 32
  pub changed : e.changed ≡ every_bucket slots
  pub known : target e.struct_hash ≡ some slots

abbrev pub Meets : (ℕ → Option (List BlockDescriptor)) → Replay → Type 0
Meets target r = (h : ℕ) → length (or_default (Map.get h r.slots)) ≤ length (addresses (target h))

length-resized : (n : ℕ) (xs : List ℕ) → length xs ≤ n → length (resized n xs) ≡ n
length-resized n xs h = elim (Bool-cases (ltb (length xs) n)) [
  | inl more ↦ rw more (
      omega (
        arith,
        h,
        length-append xs (replicate (n - length xs) 0),
        length-replicate {A = ℕ} (n - length xs) 0,
      ))
  | inr same ↦ rw same (ground (arith, h, same))
]

apply_edit-IsFull :
    (target : ℕ → Option (List BlockDescriptor)) (e : SlotEdit) (r : Replay)
    → IsFull target e
    → Meets target r
    → (r' : Replay) × (apply_edit e r ≡ ok r')
      × ((h : ℕ)
          → Map.get h r'.slots
            ≡ (if e.struct_hash == h then some (addresses (target h)) else Map.get h r.slots))
unfolding every_bucket
apply_edit-IsFull target e r is meets =
    let old : List ℕ = or_default (Map.get e.struct_hash r.slots) in
    let short : length old ≤ length is.slots = omega (
      arith,
      meets e.struct_hash,
      ap (λ t. length (addresses t)) is.known,
      length-map (λ d. d.raw) is.slots,
    ) in
    let base : resized e.buckets old ≡ resized (length is.slots) old =
      ap (λ n. resized n old) (omega (arith, is.buckets, is.few)) in
    let done : put_addresses e.changed (resized (length is.slots) old) ≡ ok (raws is.slots) =
      rw (is.changed) (
        put_every [] (resized (length is.slots) old) is.slots
          (length-resized (length is.slots) old short) (omega (arith, is.few))) in
    (
      _,
      apply_done e r _ _ base done,
      λ h.
          get-insert e.struct_hash h (raws is.slots) r.slots
          ∙ same_target e target h is.slots _ is.known,
    )
  where
    same_target :
        (e : SlotEdit) (target : ℕ → Option (List BlockDescriptor)) (h : ℕ)
        (slots : List BlockDescriptor) (old : Option (List ℕ))
        → target e.struct_hash ≡ some slots
        → (if e.struct_hash == h then some (raws slots) else old)
          ≡ (if e.struct_hash == h then some (addresses (target h)) else old)
    same_target e target h slots old k = elim (Bool-cases (e.struct_hash == h)) [
      | inl here ↦
          let t : target h ≡ some slots =
            subst (λ n. target n ≡ some slots) ((==_iff e.struct_hash h).0 here) k in
          rw (here, t) refl
      | inr other ↦ rw other refl
    ]

abbrev pub named : ℕ → List SlotEdit → Bool
named h [] = false
named h (e ∷ edits) = (e.struct_hash == h) || named h edits

after_one :
    (t u : Bool) (v old new : Option (List ℕ)) (last : Option (List ℕ))
    → last ≡ (if u then v else new)
    → new ≡ (if t then v else old)
    → last ≡ (if t || u then v else old)
after_one true true v old new last e f = e
after_one true false v old new last e f = e ∙ f
after_one false true v old new last e f = e
after_one false false v old new last e f = e ∙ f

still_meets :
    (t : Bool) (want : List ℕ) (old new : Option (List ℕ))
    → new ≡ (if t then some want else old)
    → length (or_default old) ≤ length want
    → length (or_default new) ≤ length want
still_meets true want old new e h = rw e (omega arith)
still_meets false want old new e h = rw e h

pub apply_edits-IsFull :
    (target : ℕ → Option (List BlockDescriptor)) (edits : List SlotEdit) (r : Replay)
    → All (IsFull target) edits
    → Meets target r
    → (r' : Replay) × (apply_edits edits r ≡ ok r')
      × ((h : ℕ)
          → Map.get h r'.slots
            ≡ (if named h edits then some (addresses (target h)) else Map.get h r.slots))
apply_edits-IsFull target [] r full meets = (r, refl, λ h. refl)
apply_edits-IsFull target (e ∷ edits) r (is, full) meets =
    let (r1, done, look) = apply_edit-IsFull target e r is meets in
    let (r2, rest, look') =
      apply_edits-IsFull target edits r1 full
        (λ h. still_meets (e.struct_hash == h) _ (Map.get h r.slots) _ (look h) (meets h)) in
    (
      r2,
      rw done rest,
      λ h. after_one (e.struct_hash == h) (named h edits) _ _ _ _ (look' h) (look h),
    )
