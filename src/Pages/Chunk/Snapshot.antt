-- ===== src/Pages/Chunk/Snapshot.antt =====
-- The chunk of a whole state, replayed.
use wavedb.Base.{
  ℕ, ◌≡◌, refl, sym, ap, ◌∙◌, arith, List, [], ◌∷◌, ◌++◌, All, Bool, true, false, ◌||◌, ◌==◌,
  ==_iff, Option, none, some, if◌then◌else◌, Bool-cases, inl, inr, subst,
}
use wavedb.Blocks.Descriptor.{BlockDescriptor}
use wavedb.Pages.Map.{Map, get-insert}
use wavedb.Pages.Map
use wavedb.Pages.Fault.{ok}
use wavedb.Pages.Directory.{Directory}
use wavedb.Pages.Storage.{StructStorage}
use wavedb.Pages.Plan.{SlotPlan}
use wavedb.Pages.Edit.{SlotEdit, EditChunk, Replay, apply}
use wavedb.Pages.Chunk.{slot_at, resident_edits, chunk_of}
use wavedb.Pages.Chunk.Full.{raws, addresses, IsFull, apply_edits-IsFull, named}
use wavedb.Pages.Chunk.Named.{
  plan_at, own_slots, resident_slots, from_plan, slots_after, on_index, target_of, AreFound, IsPlan,
  Named, NamedToo, IsSmall, planned_edits-IsFull, resident_edits-IsFull, or_right,
}

or_assoc : (t u v : Bool) → t || (u || v) ≡ (t || u) || v
or_assoc true u v = refl
or_assoc false u v = refl

or_left : (t u : Bool) → t ≡ true → t || u ≡ true
or_left t u e = rw e refl

named_append : (h : ℕ) (xs ys : List SlotEdit) → named h (xs ++ ys) ≡ (named h xs || named h ys)
named_append h [] ys = refl
named_append h (x ∷ xs) ys =
    rw (named_append h xs ys) (or_assoc (x.struct_hash == h) (named h xs) (named h ys))

abbrev pub raws_of : Option (List BlockDescriptor) → Option (List ℕ)
raws_of none = none
raws_of (some slots) = some (raws slots)

All-append :
    (P : SlotEdit → Type 0) (xs ys : List SlotEdit) → All P xs → All P ys → All P (xs ++ ys)
All-append P [] ys h k = k
All-append P (x ∷ xs) ys (p, h) k = (p, All-append P xs ys h k)

-- What the replay gives is the target, where every type that has one is named.
as_target :
    (t : Bool) (want : Option (List BlockDescriptor)) (got : Option (List ℕ))
    → got ≡ (if t then some (addresses want) else none)
    → ((slots : List BlockDescriptor) → want ≡ some slots → t ≡ true)
    → (t ≡ true → (slots : List BlockDescriptor) × (want ≡ some slots))
    → got ≡ raws_of want
as_target true none got e f g = let (slots, odd) = g refl in absurd (cc)
as_target true (some slots) got e f g = e
as_target false none got e f g = e
as_target false (some slots) got e f g = let odd : false ≡ true = f slots refl in absurd (cc)

named_known :
    (target : ℕ → Option (List BlockDescriptor)) (h : ℕ) (edits : List SlotEdit)
    → All (IsFull target) edits
    → named h edits ≡ true
    → (slots : List BlockDescriptor) × (target h ≡ some slots)
named_known target h [] full e = absurd (cc)
named_known target h (x ∷ edits) (is, full) e = elim (Bool-cases (x.struct_hash == h)) [
  | inl here ↦
      (is.slots, subst (λ k. target k ≡ some is.slots) ((==_iff x.struct_hash h).0 here) is.known)
  | inr other ↦ named_known target h edits full (rw other at e)
]

covered :
    (types : List StructStorage) (plans : List SlotPlan) (i : ℕ) (s : StructStorage)
    (edits more : List SlotEdit) (p : Option SlotPlan) (d : Option Directory)
    (slots : List BlockDescriptor)
    → Named types plans edits
    → NamedToo 0 plans types more
    → slot_at types i ≡ some s
    → plan_at i plans ≡ p
    → s.dir ≡ d
    → from_plan (slot_at types i) p ≡ some slots
    → named s.struct_hash edits || named s.struct_hash more ≡ true
covered types plans i s edits more (some work) d slots names names' a p ed t =
    or_left (named s.struct_hash edits) (named s.struct_hash more) (names i s work a p)
covered types plans i s edits more none none slots names names' a p ed t =
    let odd : none ≡ some slots = sym (ap resident_slots a ∙ ap own_slots ed) ∙ t in absurd (cc)
covered types plans i s edits more none (some dir) slots names names' a p ed t =
    or_right (named s.struct_hash edits) (named s.struct_hash more)
      (names' i s dir a (subst (λ k. plan_at k plans ≡ none) (omega arith) p) ed)

-- Where each type of a store is found by its hash, each plan of a round is the only one of its
-- type, and the directories have less than 2 ^ 32 buckets, the full chunk of the round is made,
-- applies to an empty state without a fault, and leaves for each type the addresses of its plan's
-- directory, or of its own directory where it has no plan, or nothing where it has neither.
pub apply-chunk_of :
    (types : List StructStorage) (plans : List SlotPlan) (dicts : Map BlockDescriptor) (prev : ℕ)
    → AreFound types
    → All (IsPlan types plans) plans
    → All IsSmall types
    → (chunk : EditChunk) × (chunk_of types plans true dicts prev ≡ ok chunk)
      × (r : Replay) × (apply chunk (record { slots = []; dicts = [] }) ≡ ok r)
      × ((i : ℕ) (s : StructStorage)
          → slot_at types i ≡ some s
          → Map.get s.struct_hash r.slots ≡ raws_of (slots_after types plans i))
unfolding chunk_of apply Map.get
apply-chunk_of types plans dicts prev found are small =
    let (edits, e, full, names) = planned_edits-IsFull types plans dicts 0 plans found are in
    let (full', names') =
      resident_edits-IsFull types plans 0 types found (λ j. ap (slot_at types) (omega arith))
        small in
    let all =
      All-append (IsFull (target_of types plans)) edits (resident_edits 0 plans types) full full' in
    let (r, done, look) =
      apply_edits-IsFull (target_of types plans) (edits ++ resident_edits 0 plans types)
        (record { slots = []; dicts = [] }) all (λ h. omega arith) in
    (
      record { prev = prev; slots = edits ++ resident_edits 0 plans types },
      rw e refl,
      r,
      done,
      λ i s a.
          let known : target_of types plans s.struct_hash ≡ slots_after types plans i =
            ap (on_index types plans) (found i s a) in
          as_target (named s.struct_hash (edits ++ resident_edits 0 plans types))
            (target_of types plans s.struct_hash) _ (look s.struct_hash)
            (λ slots t.
              named_append s.struct_hash edits (resident_edits 0 plans types)
              ∙ covered types plans i s edits (resident_edits 0 plans types) (plan_at i plans) s.dir
                  slots names names' a refl refl (sym known ∙ t))
            (named_known (target_of types plans) s.struct_hash
              (edits ++ resident_edits 0 plans types) all)
          ∙ ap raws_of known,
    )
