-- ===== src/Pages/Chunk.antt =====
-- crates/wavedb-storage/src/edit.rs: `chunk_of`, the chunk of a round over all types.
pub mod Full
pub mod Named
pub mod Snapshot
use wavedb.Base.{
  ℕ, zero, suc, ◌+◌, ◌%◌, ◌^◌, List, [], ◌∷◌, ◌++◌, Bool, true, false, ◌||◌, ◌==◌, length, Option,
  none, some, if◌then◌else◌,
}
use wavedb.Blocks.Descriptor.{BlockDescriptor}
use wavedb.Pages.Map.{Map}
use wavedb.Pages.Map
use wavedb.Pages.Fault.{StorageResult, ok, stuck, ◌>>=◌}
use wavedb.Pages.Directory.{Directory}
use wavedb.Pages.Dictionary.{DictState}
use wavedb.Pages.Storage.{StructStorage}
use wavedb.Pages.Plan.{SlotPlan}
use wavedb.Pages.Edit.{SlotEdit, EditChunk, every_bucket, raw_of, planned_edit}

-- `types[idx]`.
abbrev pub slot_at : List StructStorage → ℕ → Option StructStorage
slot_at [] i = none
slot_at (s ∷ types) zero = some s
slot_at (s ∷ types) (suc i) = slot_at types i

-- What `planned_edit` puts down of the dictionary, where `carved` is the place of its image.
abbrev pub round_dict : Option (List ℕ) → Bool → DictState → Option BlockDescriptor → Option ℕ
round_dict (some image) full state carved = some (raw_of carved)
round_dict none full state carved = if full then some (state.desc.raw) else none

abbrev pub dir_edit : StructStorage → Option Directory → Option SlotEdit
dir_edit s none = none
dir_edit s (some dir) = some (record {
  struct_hash = s.struct_hash;
  buckets = length dir.slots % 2 ^ 32;
  changed = every_bucket dir.slots;
  dict = some s.dict.desc.raw;
})

unfoldable pub resident_edit : StructStorage → Option SlotEdit
resident_edit s = dir_edit s s.dir

abbrev pub edit_on :
    Option StructStorage → SlotPlan → Bool → Option BlockDescriptor → StorageResult SlotEdit
edit_on none work full carved = stuck
edit_on (some s) work full carved = ok (
    planned_edit s.struct_hash work.dir.slots work.pages full
      (round_dict work.dict full s.dict carved))

-- The plans with their numbers, from `plan` on.
unfoldable pub planned_edits :
    List StructStorage
    → Bool
    → Map BlockDescriptor
    → ℕ
    → List SlotPlan
    → StorageResult (List SlotEdit)
planned_edits types full dicts plan [] = ok []
planned_edits types full dicts plan (work ∷ plans) = do
  edit ← edit_on (slot_at types work.idx) work full (Map.get plan dicts)
  rest ← planned_edits types full dicts (suc plan) plans
  ok (edit ∷ rest)

-- `plans.iter().any(|work| work.idx == idx)`.
unfoldable pub is_planned : ℕ → List SlotPlan → Bool
is_planned idx [] = false
is_planned idx (work ∷ plans) = (work.idx == idx) || is_planned idx plans

abbrev pub or_more : Option SlotEdit → List SlotEdit → List SlotEdit
or_more none edits = edits
or_more (some edit) edits = edit ∷ edits

-- The types with their indexes, from `idx` on.
unfoldable pub resident_edits : ℕ → List SlotPlan → List StructStorage → List SlotEdit
unfolding is_planned resident_edit
resident_edits idx plans [] = []
resident_edits idx plans (s ∷ types) =
    let rest = resident_edits (suc idx) plans types in
    if is_planned idx plans then rest else or_more (resident_edit s) rest

unfoldable pub chunk_of :
    List StructStorage → List SlotPlan → Bool → Map BlockDescriptor → ℕ → StorageResult EditChunk
unfolding planned_edits resident_edits
chunk_of types plans full dicts prev = do
  slots ← planned_edits types full dicts 0 plans
  ok (record { prev = prev; slots = if full then slots ++ resident_edits 0 plans types else slots })
