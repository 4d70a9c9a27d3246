-- ===== src/Blocks/Alloc/Valid.antt =====
-- The invariant of the allocator, and the two updates that keep its two indexes alike.
use wavedb.Base.{ℕ, ◌+◌, ◌≤◌, ◌<◌, ◌≡◌, arith, Bool, false, ◌==◌, Option, none, some}
use wavedb.Blocks.Extents.{get, has_size}
use wavedb.Blocks.Extents.Laws.{
  AreApart, AreApart-insert, AreApart-remove, IsClear, get-insert, get-remove,
}
use wavedb.Blocks.Extents.Free.{free_at}
use wavedb.Blocks.Extents.Sizes.{
  has_size-insert_size, has_size-remove_size, IsAscending, IsAscending-insert_size,
  IsAscending-remove_size,
}
use wavedb.Blocks.Alloc.{BlockAllocator, insert_extent, remove_extent}

-- `o` is `some c`.
abbrev pub holds : Option ℕ → ℕ → Bool
holds none c = false
holds (some v) c = v == c

-- Free extents are apart from each other and inside the file, and the index by size holds exactly
-- those of the index by position, in order.
pub record IsValid (a : BlockAllocator) : Type 0 where
  pub apart : AreApart 0 a.by_pos a.total_blocks
  pub synced : (c s : ℕ) → has_size (c, s) a.by_size ≡ holds (get s a.by_pos) c
  pub ascending : IsAscending a.by_size

-- The blocks that the allocator holds free.
abbrev pub is_free : BlockAllocator → ℕ → Bool
is_free a b = free_at a.by_pos b

pub remove_extent-IsValid :
    (a : BlockAllocator) (s c : ℕ)
    → IsValid a
    → get s a.by_pos ≡ some c
    → IsValid (remove_extent s c a)
unfolding remove_extent
remove_extent-IsValid a s c v e = record {
  apart = AreApart-remove 0 a.by_pos a.total_blocks s v.apart;
  synced = λ c' s'. ground (
    arith,
    has_size-remove_size (c', s') (c, s) a.by_size,
    get-remove s a.by_pos s',
    v.synced c' s',
  );
  ascending = IsAscending-remove_size (c, s) a.by_size v.ascending;
}

pub insert_extent-IsValid :
    (a : BlockAllocator) (s c : ℕ)
    → IsValid a
    → IsClear s c a.by_pos
    → get s a.by_pos ≡ none
    → 0 < c
    → s + c ≤ a.total_blocks
    → IsValid (insert_extent s c a)
unfolding insert_extent
insert_extent-IsValid a s c v clear fresh pos room = record {
  apart = AreApart-insert 0 s c a.by_pos a.total_blocks v.apart clear (omega arith) pos room;
  synced = λ c' s'. ground (
    arith,
    has_size-insert_size (c', s') (c, s) a.by_size,
    get-insert s c a.by_pos s',
    v.synced c' s',
  );
  ascending = IsAscending-insert_size (c, s) a.by_size v.ascending;
}
