-- ===== src/Pages/MetaLog.antt =====
-- crates/wavedb-storage/src/meta_log.rs: the chain of the chunks in the file.
pub mod Chain
use wavedb.Base.{
  ℕ, ◌+◌, List, [], ◌∷◌, ◌++◌, map, Bool, true, false, ◌||◌, max, length, leb, if◌then◌else◌,
}
use wavedb.Blocks.Descriptor.{BlockDescriptor, Run, is_allocated, run, count}
use wavedb.Pages.Directory.{empty}
use wavedb.Pages.Edit.{max_edit_chunks}

abbrev pub compact_floor_blocks : ℕ
compact_floor_blocks = 16

pub record MetaLog : Type 0 where
  pub snapshot : BlockDescriptor
  pub edits : List BlockDescriptor
  pub edit_blocks : ℕ

abbrev pub sum_counts : List BlockDescriptor → ℕ
sum_counts [] = 0
sum_counts (d ∷ ds) = count d + sum_counts ds

unfoldable pub restored : List BlockDescriptor → MetaLog
restored [] = record { snapshot = empty; edits = []; edit_blocks = 0 }
restored (d ∷ chain) = record { snapshot = d; edits = chain; edit_blocks = sum_counts chain }

unfoldable pub wants_snapshot : MetaLog → Bool
wants_snapshot m =
    leb max_edit_chunks (length m.edits)
    || leb (max (count m.snapshot) compact_floor_blocks) m.edit_blocks

abbrev pub runs_of : List BlockDescriptor → List Run
runs_of [] = []
runs_of (d ∷ ds) = let rest = runs_of ds in if is_allocated d then run d ∷ rest else rest

-- `MetaLog::record`: the runs that the chunk makes stale.
unfoldable pub record_chunk : BlockDescriptor → Bool → MetaLog → MetaLog × List Run
record_chunk chunk false m =
    (record m { edit_blocks = m.edit_blocks + count chunk; edits = m.edits ++ chunk ∷ [] }, [])
record_chunk chunk true m = (
  record { snapshot = chunk; edits = []; edit_blocks = 0 },
  map run m.edits ++ runs_of (m.snapshot ∷ []),
)

unfoldable pub runs : MetaLog → List Run
runs m = runs_of (m.edits ++ m.snapshot ∷ [])

abbrev pub last_or : BlockDescriptor → List BlockDescriptor → BlockDescriptor
last_or d [] = d
last_or d (e ∷ es) = last_or e es

unfoldable pub head : MetaLog → ℕ
head m = (last_or m.snapshot m.edits).raw
