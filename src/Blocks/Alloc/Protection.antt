-- ===== src/Blocks/Alloc/Protection.antt =====
-- Two recovery roots at a time: no operation of the allocator frees or hands out a block that a run
-- of a protected set has.
use wavedb.Base.{
  ℕ, ◌<◌, ◌≡◌, refl, ap, ◌∙◌, Bool, arith, List, [], ◌∷◌, ◌++◌, true, false, not, ◌&&◌, ◌||◌, some,
  if◌then◌else◌,
}
use wavedb.Blocks.Descriptor.{Run}
use wavedb.Blocks.Extents.Free.{free_at}
use wavedb.Blocks.Alloc.{
  BlockAllocator, free, free_all, alloc, alloc_tail, collect, retry_pending, release_previous,
  set_protected,
}
use wavedb.Blocks.Alloc.Valid.{IsValid, is_free}
use wavedb.Blocks.Alloc.Take.{IsAllocation, alloc-IsAllocation}
use wavedb.Blocks.Alloc.Tail.{alloc_tail-IsAllocation}
use wavedb.Blocks.Alloc.Covers.{AreDisjoint}
use wavedb.Blocks.Alloc.Kept.{is_blocked, let_go, blocked, released-let_go, held-blocked}
use wavedb.Blocks.Alloc.Collect.{ShareNone, collect-AreDisjoint}
use wavedb.Blocks.Alloc.Deferred.{run_has, listed, IsInUse, AreInUse, AreInUse-change, IsRetry}
use wavedb.Blocks.Alloc.Consistent.{
  is_kept, IsConsistent, same_kept, listed_in_use, IsRetry-IsConsistent,
}
use wavedb.Blocks.Alloc.Retry.{free_all-IsRetry}

-- `r`, taken from `a`, shares no block with a protected or a deferred run, and `a'` is consistent.
pub record IsSafeAllocation (a : BlockAllocator) (r : Run) (a' : BlockAllocator) : Type 0 where
  pub consistent : IsConsistent a'
  pub unprotected : (b : ℕ) → run_has r b ≡ true → is_kept a b ≡ false
  pub not_deferred : (b : ℕ) → run_has r b ≡ true → listed a.pending b ≡ false

pending_stays :
    (a : BlockAllocator) (count : ℕ) (r : Run) (a' : BlockAllocator)
    → IsConsistent a
    → IsAllocation a count r a'
    → AreInUse a'.by_pos a'.total_blocks a.pending
pending_stays a count r a' c t =
    AreInUse-change a.by_pos a'.by_pos a.total_blocks a'.total_blocks a.pending t.longer
      (λ b e f. ground (arith, t.taken b)) c.deferred

IsAllocation-IsSafe :
    (a : BlockAllocator) (count : ℕ) (r : Run) (a' : BlockAllocator)
    → IsConsistent a
    → IsAllocation a count r a'
    → IsSafeAllocation a r a'
IsAllocation-IsSafe a count r a' c t = record {
  consistent = record {
    valid = t.valid;
    newest = rw t.protection.0 c.newest;
    older = rw t.protection.1 c.older;
    safe =
        λ b k. ground (arith, t.taken b, same_kept a a' b t.protection.0 t.protection.1, c.safe b);
    inside =
        λ b k. ground (arith, same_kept a a' b t.protection.0 t.protection.1, c.inside b, t.longer);
    deferred = rw t.deferred (pending_stays a count r a' c t);
  };
  unprotected = λ b h. ground (arith, t.fresh b h, c.safe b, c.inside b);
  not_deferred = λ b h.
      ground (arith, t.fresh b h, listed_in_use a.by_pos a.total_blocks a.pending b c.deferred);
}

-- For a count of at least one, `alloc` on a consistent allocator returns a run that has no
-- protected block and no block of a deferred run, and the allocator stays consistent.
pub alloc-IsSafe :
    (a : BlockAllocator) (count : ℕ)
    → IsConsistent a
    → 0 < count
    → (r : Run) × (a' : BlockAllocator) × (alloc count a ≡ some (r, a')) × IsSafeAllocation a r a'
alloc-IsSafe a count c pos =
    let (r, a', e, t) = alloc-IsAllocation a count c.valid pos in
    (r, a', e, IsAllocation-IsSafe a count r a' c t)

-- For a count of at least one, `alloc_tail` on a consistent allocator returns a run that has no
-- protected block and no block of a deferred run, and the allocator stays consistent.
pub alloc_tail-IsSafe :
    (a : BlockAllocator) (count : ℕ)
    → IsConsistent a
    → 0 < count
    → (r : Run) × (a' : BlockAllocator) × (alloc_tail count a ≡ some (r, a'))
      × IsSafeAllocation a r a'
alloc_tail-IsSafe a count c pos =
    let (r, a', e, t) = alloc_tail-IsAllocation a count c.valid pos in
    (r, a', e, IsAllocation-IsSafe a count r a' c t)

-- What a walk of a list of runs through `free` does, in terms of the kept blocks.
as_kept :
    (kept : ℕ → Bool) (rs : List Run) (a a' : BlockAllocator)
    → AreDisjoint 0 a.protected
    → AreDisjoint 0 a.previous
    → AreInUse a.by_pos a.total_blocks rs
    → ((b : ℕ) → kept b ≡ is_kept a b)
    → IsRetry rs a a'
    → ((b : ℕ) → is_free a' b ≡ (let_go kept rs b || is_free a b))
      × (a'.pending ≡ a.pending ++ blocked kept rs)
as_kept kept rs a a' newest older u same w = (
  λ b.
      w.freed b
      ∙ ap (λ t. t || is_free a b)
          (released-let_go kept a.protected a.previous a.by_pos a.total_blocks rs b newest older u
            same),
  w.pending
      ∙ ap (λ l. a.pending ++ l)
          (held-blocked kept a.protected a.previous a.by_pos a.total_blocks rs newest older u same),
)

-- `free` of a run in use, apart from the deferred runs, leaves a consistent allocator consistent:
-- the run's blocks are free then, unless a block of it belongs to one of the two protected sets,
-- and then the run is deferred.
pub free-IsConsistent :
    (r : Run) (a : BlockAllocator)
    → IsConsistent a
    → IsInUse a.by_pos a.total_blocks r
    → ((b : ℕ) → listed a.pending b ≡ true → run_has r b ≡ false)
    → IsConsistent (free r a)
      × ((b : ℕ)
          → is_free (free r a) b ≡ ((not (is_blocked (is_kept a) r) && run_has r b) || is_free a b))
      × ((free r a).pending ≡ a.pending ++ (if is_blocked (is_kept a) r then r ∷ [] else []))
unfolding free_all listed
free-IsConsistent r a c u apart =
    let in_use : AreInUse a.by_pos a.total_blocks (r ∷ []) = (u, (λ b e. refl), tt) in
    let w = free_all-IsRetry (r ∷ []) a c.valid in_use in
    let runs = as_kept (is_kept a) (r ∷ []) a (free r a) c.newest c.older in_use (λ b. refl) w in
    (
      IsRetry-IsConsistent (r ∷ []) a (free r a) c in_use (λ b e. ground (arith, apart b e)) w,
      λ b. ground (arith, runs.0 b),
      runs.1,
    )

-- The deferred runs are offered again.
retry_pending-IsRetry :
    (a : BlockAllocator)
    → IsConsistent a
    → IsRetry a.pending (record a { pending = [] }) (retry_pending a)
      × IsConsistent (retry_pending a)
unfolding retry_pending listed
retry_pending-IsRetry a c =
    let valid : IsValid (record a { pending = [] }) = record {
      apart = c.valid.apart;
      synced = c.valid.synced;
      ascending = c.valid.ascending;
    } in
    let w = free_all-IsRetry a.pending (record a { pending = [] }) valid c.deferred in
    (
      w,
      IsRetry-IsConsistent a.pending (record a { pending = [] }) (retry_pending a)
          (record {
            valid = valid;
            newest = c.newest;
            older = c.older;
            safe = c.safe;
            inside = c.inside;
            deferred = tt;
          })
          c.deferred (λ b e. cc) w,
    )

-- `release_previous` leaves a consistent allocator consistent: the newest set stays, the previous
-- one is empty, of the deferred runs those are freed of which no block belongs to the newest set,
-- and the others stay deferred in their order.
pub release_previous-IsConsistent :
    (a : BlockAllocator)
    → IsConsistent a
    → IsConsistent (release_previous a)
      × ((release_previous a).protected ≡ a.protected)
      × ((release_previous a).previous ≡ [])
      × ((b : ℕ)
          → is_free (release_previous a) b
            ≡ (let_go (free_at a.protected) a.pending b || is_free a b))
      × ((release_previous a).pending ≡ blocked (free_at a.protected) a.pending)
unfolding release_previous free_at
release_previous-IsConsistent a c =
    let (w, kept) =
      retry_pending-IsRetry (record a { previous = [] })
        (record {
          valid = record {
            apart = c.valid.apart;
            synced = c.valid.synced;
            ascending = c.valid.ascending;
          };
          newest = c.newest;
          older = tt;
          safe = λ b k. ground (arith, c.safe b);
          inside = λ b k. ground (arith, c.inside b);
          deferred = c.deferred;
        }) in
    let runs =
      as_kept (free_at a.protected) a.pending (record a { previous = []; pending = [] })
        (release_previous a) c.newest tt c.deferred (λ b. ground arith) w in
    (kept, w.newest, w.older, runs.0, runs.1)

-- With runs in use that share no block, `set_protected` leaves a consistent allocator consistent:
-- the newest set has the blocks of the runs, the one that was the newest is the previous one, of
-- the deferred runs those are freed of which no block belongs to either, and the others stay
-- deferred in their order.
pub set_protected-IsConsistent :
    (runs : List Run) (a : BlockAllocator)
    → IsConsistent a
    → ShareNone runs
    → ((b : ℕ) → listed runs b ≡ true → (is_free a b ≡ false) × (b < a.total_blocks))
    → IsConsistent (set_protected runs a)
      × ((b : ℕ) → free_at (set_protected runs a).protected b ≡ listed runs b)
      × ((set_protected runs a).previous ≡ a.protected)
      × ((b : ℕ)
          → is_free (set_protected runs a) b
            ≡ (let_go (λ d. listed runs d || free_at a.protected d) a.pending b || is_free a b))
      × ((set_protected runs a).pending
          ≡ blocked (λ d. listed runs d || free_at a.protected d) a.pending)
unfolding set_protected
set_protected-IsConsistent runs a c none in_use =
    let (disjoint, blocks) = collect-AreDisjoint runs none in
    let (w, kept) =
      retry_pending-IsRetry (record a { previous = a.protected; protected = collect runs [] })
        (record {
          valid = record {
            apart = c.valid.apart;
            synced = c.valid.synced;
            ascending = c.valid.ascending;
          };
          newest = disjoint;
          older = c.newest;
          safe = λ b k. ground (arith, c.safe b, in_use b, blocks b);
          inside = λ b k. ground (arith, c.inside b, in_use b, blocks b);
          deferred = c.deferred;
        }) in
    let deferred =
      as_kept (λ d. listed runs d || free_at a.protected d) a.pending
        (record a { previous = a.protected; protected = collect runs []; pending = [] })
        (set_protected runs a) disjoint c.newest c.deferred (λ b. ground (arith, blocks b)) w in
    (kept, λ b. rw w.newest (blocks b), w.older, deferred.0, deferred.1)
