-- ===== src/Pages/Chunk/Named.antt =====
-- The edits of a chunk over all types are those of whole directories.
use wavedb.Base.{
  ℕ, zero, suc, ◌+◌, ◌^◌, ◌<◌, ◌≡◌, refl, sym, ap, ◌∙◌, arith, List, [], ◌∷◌, All, Bool, true,
  false, ◌||◌, ◌==◌, ==_iff, length, Option, none, some, if◌then◌else◌, Bool-cases, inl, inr, subst,
}
use wavedb.Blocks.Descriptor.{BlockDescriptor}
use wavedb.Pages.Map.{Map, get-insert}
use wavedb.Pages.Map
use wavedb.Pages.Fault.{ok}
use wavedb.Pages.Directory.{Directory}
use wavedb.Pages.Storage.{StructStorage}
use wavedb.Pages.Store.{slot_index}
use wavedb.Pages.Plan.{SlotPlan}
use wavedb.Pages.Edit.{SlotEdit, planned_edit}
use wavedb.Pages.Chunk.{
  slot_at, round_dict, dir_edit, or_more, resident_edit, planned_edits, is_planned, resident_edits,
}
use wavedb.Pages.Chunk.Full.{IsFull, named}

-- The directories behind a round.
abbrev pub plan_at : ℕ → List SlotPlan → Option SlotPlan
plan_at idx [] = none
plan_at idx (work ∷ plans) = if work.idx == idx then some work else plan_at idx plans

abbrev pub own_slots : Option Directory → Option (List BlockDescriptor)
own_slots none = none
own_slots (some dir) = some dir.slots

abbrev pub resident_slots : Option StructStorage → Option (List BlockDescriptor)
resident_slots none = none
resident_slots (some s) = own_slots s.dir

abbrev pub from_plan : Option StructStorage → Option SlotPlan → Option (List BlockDescriptor)
from_plan s none = resident_slots s
from_plan s (some work) = some work.dir.slots

-- The addresses of a type: those of its plan, or those that it has.
abbrev pub slots_after : List StructStorage → List SlotPlan → ℕ → Option (List BlockDescriptor)
slots_after types plans idx = from_plan (slot_at types idx) (plan_at idx plans)

abbrev pub on_index : List StructStorage → List SlotPlan → Option ℕ → Option (List BlockDescriptor)
on_index types plans none = none
on_index types plans (some idx) = slots_after types plans idx

abbrev pub target_of : List StructStorage → List SlotPlan → ℕ → Option (List BlockDescriptor)
target_of types plans h = on_index types plans (slot_index h types)

-- Each type is found by its hash, as the types of a store are sorted and have different hashes.
abbrev pub AreFound : List StructStorage → Type 0
AreFound types =
    (i : ℕ) (s : StructStorage) → slot_at types i ≡ some s → slot_index s.struct_hash types ≡ some i

-- A plan is that of a type, the only one of it, and has a directory of less than 2 ^ 32 buckets.
abbrev pub IsPlan : List StructStorage → List SlotPlan → SlotPlan → Type 0
IsPlan types plans work =
    (plan_at work.idx plans ≡ some work)
    × ((s : StructStorage) × (slot_at types work.idx ≡ some s))
    × (length work.dir.slots < 2 ^ 32)

abbrev pub Named : List StructStorage → List SlotPlan → List SlotEdit → Type 0
Named types plans edits =
    (i : ℕ) (s : StructStorage) (work : SlotPlan)
    → slot_at types i ≡ some s
    → plan_at i plans ≡ some work
    → named s.struct_hash edits ≡ true

pub or_right : (t u : Bool) → u ≡ true → t || u ≡ true
or_right true u e = refl
or_right false u e = e

named_here : (h k : ℕ) (more : Bool) → h ≡ k → (h == k) || more ≡ true
named_here h k more e = rw ((==_iff h k).1 e) refl

one_hash :
    (types : List StructStorage) (i j : ℕ) (s s' : StructStorage)
    → slot_at types i ≡ some s
    → slot_at types j ≡ some s'
    → i ≡ j
    → s.struct_hash ≡ s'.struct_hash
one_hash types i j s s' a b e =
    let both : slot_at types j ≡ some s = subst (λ k. slot_at types k ≡ some s) e a in
    let same : s ≡ s' = cc in ap (λ t. t.struct_hash) same

pub planned_edits-IsFull :
    (types : List StructStorage) (plans : List SlotPlan) (dicts : Map BlockDescriptor) (n : ℕ)
    (ps : List SlotPlan)
    → AreFound types
    → All (IsPlan types plans) ps
    → (edits : List SlotEdit) × (planned_edits types true dicts n ps ≡ ok edits)
      × All (IsFull (target_of types plans)) edits
      × Named types ps edits
unfolding planned_edits planned_edit
planned_edits-IsFull types plans dicts n [] found h = ([], refl, tt, λ i s work a p. cc)
planned_edits-IsFull types plans dicts n (work ∷ ps) found ((own, (s, a), few), h) =
    let (rest, e, full, names) = planned_edits-IsFull types plans dicts (suc n) ps found h in
    let known : target_of types plans s.struct_hash ≡ some work.dir.slots =
      ap (on_index types plans) (found work.idx s a)
      ∙ ap (from_plan (slot_at types work.idx)) own in
    (
      planned_edit s.struct_hash work.dir.slots work.pages true
            (round_dict work.dict true s.dict (Map.get n dicts))
          ∷ rest,
      rw (a, e) refl,
      (
        (record {
          slots = work.dir.slots;
          few = few;
          buckets = refl;
          changed = refl;
          known = known;
        }),
        full,
      ),
      λ i s' work' b p. elim (Bool-cases (work.idx == i)) [
        | inl here ↦
            named_here s.struct_hash s'.struct_hash _
              (one_hash types work.idx i s s' a b ((==_iff work.idx i).0 here))
        | inr other ↦
            or_right (s.struct_hash == s'.struct_hash) _ (names i s' work' b (rw other at p))
      ],
    )

unplanned : (i : ℕ) (plans : List SlotPlan) → is_planned i plans ≡ false → plan_at i plans ≡ none
unfolding is_planned
unplanned i [] h = refl
unplanned i (work ∷ plans) h = elim (Bool-cases (work.idx == i)) [
  | inl here ↦ let odd : true ≡ false = rw here at h in absurd (cc)
  | inr other ↦ rw other (unplanned i plans (rw other at h))
]

unplanned_back :
    (i : ℕ) (plans : List SlotPlan) → plan_at i plans ≡ none → is_planned i plans ≡ false
unfolding is_planned
unplanned_back i [] h = refl
unplanned_back i (work ∷ plans) h = elim (Bool-cases (work.idx == i)) [
  | inl here ↦ let odd : some work ≡ none = rw here at h in absurd (cc)
  | inr other ↦ rw other (unplanned_back i plans (rw other at h))
]

abbrev pub NamedToo : ℕ → List SlotPlan → List StructStorage → List SlotEdit → Type 0
NamedToo idx plans types edits =
    (j : ℕ) (s : StructStorage) (dir : Directory)
    → slot_at types j ≡ some s
    → plan_at (idx + j) plans ≡ none
    → s.dir ≡ some dir
    → named s.struct_hash edits ≡ true

-- A directory that stands has less than 2 ^ 32 buckets.
abbrev pub IsSmall : StructStorage → Type 0
IsSmall s = (dir : Directory) → s.dir ≡ some dir → length dir.slots < 2 ^ 32

head_or_tail :
    (idx : ℕ) (plans : List SlotPlan) (s : StructStorage) (types : List StructStorage)
    (edits : List SlotEdit)
    → ((s' : StructStorage) (dir : Directory)
        → s ≡ s'
        → plan_at idx plans ≡ none
        → s'.dir ≡ some dir
        → named s'.struct_hash edits ≡ true)
    → NamedToo (suc idx) plans types edits
    → NamedToo idx plans (s ∷ types) edits
head_or_tail idx plans s types edits first rest zero s' dir a p d =
    first s' dir (cc) (subst (λ k. plan_at k plans ≡ none) (omega arith) p) d
head_or_tail idx plans s types edits first rest (suc j) s' dir a p d =
    rest j s' dir a (subst (λ k. plan_at k plans ≡ none) (omega arith) p) d

resident_step :
    (all : List StructStorage) (plans : List SlotPlan) (idx : ℕ) (s : StructStorage)
    (types : List StructStorage) (edits : List SlotEdit) (d : Option Directory)
    → AreFound all
    → slot_at all idx ≡ some s
    → IsSmall s
    → is_planned idx plans ≡ false
    → s.dir ≡ d
    → All (IsFull (target_of all plans)) edits
    → NamedToo (suc idx) plans types edits
    → All (IsFull (target_of all plans)) (or_more (dir_edit s d) edits)
      × NamedToo idx plans (s ∷ types) (or_more (dir_edit s d) edits)
resident_step all plans idx s types edits none found a small free d full names = (
  full,
  head_or_tail idx plans s types edits
      (λ s' dir same p d'.
        let odd : none ≡ some dir = sym d ∙ (ap (λ t. t.dir) same ∙ d') in absurd (cc))
      names,
)
resident_step all plans idx s types edits (some dir) found a small free d full names =
    let known : target_of all plans s.struct_hash ≡ some dir.slots =
      ap (on_index all plans) (found idx s a)
      ∙ (ap (from_plan (slot_at all idx)) (unplanned idx plans free)
          ∙ (ap resident_slots a ∙ ap own_slots d)) in
    (
      (
        (record {
          slots = dir.slots;
          few = small dir d;
          buckets = refl;
          changed = refl;
          known = known;
        }),
        full,
      ),
      head_or_tail idx plans s types (or_more (dir_edit s (some dir)) edits)
          (λ s' dir' same p d'.
            named_here s.struct_hash s'.struct_hash (named s'.struct_hash edits)
              (ap (λ t. t.struct_hash) same))
          (λ j s' dir' a' p d'.
            or_right (s.struct_hash == s'.struct_hash) _ (names j s' dir' a' p d')),
    )

by_case :
    (t : Bool) (xs ys : List SlotEdit) (P : List SlotEdit → Type 0)
    → (t ≡ true → P xs)
    → (t ≡ false → P ys)
    → P (if t then xs else ys)
by_case true xs ys P f g = f refl
by_case false xs ys P f g = g refl

pub resident_edits-IsFull :
    (all : List StructStorage) (plans : List SlotPlan) (idx : ℕ) (types : List StructStorage)
    → AreFound all
    → ((j : ℕ) → slot_at all (idx + j) ≡ slot_at types j)
    → All IsSmall types
    → All (IsFull (target_of all plans)) (resident_edits idx plans types)
      × NamedToo idx plans types (resident_edits idx plans types)
unfolding resident_edits resident_edit
resident_edits-IsFull all plans idx [] found same small = (tt, λ j s dir a p d. absurd (cc))
resident_edits-IsFull all plans idx (s ∷ types) found same (small, smalls) =
    let (full, names) =
      resident_edits-IsFull all plans (suc idx) types found
        (λ j. subst (λ k. slot_at all k ≡ slot_at types j) (omega arith) (same (suc j))) smalls in
    by_case (is_planned idx plans) (resident_edits (suc idx) plans types)
      (or_more (dir_edit s s.dir) (resident_edits (suc idx) plans types))
      (λ edits. All (IsFull (target_of all plans)) edits × NamedToo idx plans (s ∷ types) edits)
      (λ planned. (
        full,
        head_or_tail idx plans s types (resident_edits (suc idx) plans types)
            (λ s' dir e p d.
              let odd : true ≡ false = sym planned ∙ unplanned_back idx plans p in absurd (cc))
            names,
      ))
      (λ free.
        resident_step all plans idx s types (resident_edits (suc idx) plans types) s.dir found
          (subst (λ k. slot_at all k ≡ some s) (omega arith) (same 0)) small free refl full names)
