-- ===== src/Blocks/Alloc/Coalesce.antt =====
-- The two steps of `free` that coalesce a run with its neighbours.
use wavedb.Base.{
  ℕ, ◌+◌, ◌≤◌, ◌<◌, ◌≡◌, ◌≢◌, ◌⊎◌, refl, arith, ◌||◌, ◌==◌, none, some, Bool-cases, Option-cases,
  inl, inr,
}
use wavedb.Blocks.Descriptor.{Run, run_end}
use wavedb.Blocks.Extents.{PosMap, get, last_below}
use wavedb.Blocks.Extents.Laws.{
  IsClear, get-remove, get_bounds, get_apart, last_below-get, last_below_max, last_below-none,
}
use wavedb.Blocks.Extents.Free.{in_extent, free_at-remove, free_at-get}
use wavedb.Blocks.Alloc.{BlockAllocator, remove_extent, run_at, join_before, join_after}
use wavedb.Blocks.Alloc.Valid.{IsValid, is_free, remove_extent-IsValid}

-- No block of the run is free: what the debug assertions of `free` ask against a double free.
abbrev pub IsOutside : Run → PosMap → Type 0
IsOutside r m = (j w : ℕ) → get j m ≡ some w → (j + w ≤ r.start) ⊎ (run_end r ≤ j)

-- The run ends inside the file and has blocks, none of which is free.
pub record CanFree (r : Run) (a : BlockAllocator) : Type 0 where
  pub positive : 0 < r.count
  pub inside : run_end r ≤ a.total_blocks
  pub outside : IsOutside r a.by_pos

-- A step of coalescing: together, the run and the free extents hold the blocks that they held.
pub record IsJoin (r : Run) (a : BlockAllocator) (r' : Run) (a' : BlockAllocator) : Type 0 where
  pub valid : IsValid a'
  pub can : CanFree r' a'
  pub total : a'.total_blocks ≡ a.total_blocks
  pub merged :
      (b : ℕ)
      → (in_extent r'.start r'.count b || is_free a' b)
        ≡ (in_extent r.start r.count b || is_free a b)
  pub protection : (a'.protected ≡ a.protected) × (a'.previous ≡ a.previous)
  pub deferred : a'.pending ≡ a.pending

no-IsJoin : (r : Run) (a : BlockAllocator) → IsValid a → CanFree r a → IsJoin r a r a
no-IsJoin r a v c = record {
  valid = v;
  can = c;
  total = refl;
  merged = λ b. refl;
  protection = (refl, refl);
  deferred = refl;
}

before-IsJoin :
    (r : Run) (a : BlockAllocator) (s n : ℕ)
    → IsValid a
    → CanFree r a
    → get s a.by_pos ≡ some n
    → s + n ≡ r.start
    → IsJoin r a (run_at s (r.count + n)) (remove_extent s n a)
unfolding remove_extent
before-IsJoin r a s n v c e meets = record {
  valid = remove_extent-IsValid a s n v e;
  can = record {
    positive = omega (arith, c.positive);
    inside = omega (arith, c.inside);
    outside = λ j w g. ground (
      arith,
      get-remove s a.by_pos j,
      c.outside j w,
      get_apart 0 a.by_pos a.total_blocks j w s n v.apart,
      get_apart 0 a.by_pos a.total_blocks s n j w v.apart,
    );
  };
  total = refl;
  merged = λ b. ground (
    arith,
    free_at-remove 0 a.by_pos a.total_blocks s n b v.apart e,
    free_at-get a.by_pos s n b e,
  );
  protection = (refl, refl);
  deferred = refl;
}

after-IsJoin :
    (r : Run) (a : BlockAllocator) (n : ℕ)
    → IsValid a
    → CanFree r a
    → get (run_end r) a.by_pos ≡ some n
    → IsJoin r a (run_at r.start (r.count + n)) (remove_extent (run_end r) n a)
unfolding remove_extent
after-IsJoin r a n v c e =
    let bounds = get_bounds 0 a.by_pos a.total_blocks (run_end r) n v.apart e in
    record {
      valid = remove_extent-IsValid a (run_end r) n v e;
      can = record {
        positive = omega (arith, c.positive);
        inside = omega (arith, c.inside);
        outside = λ j w g. ground (
          arith,
          get-remove (run_end r) a.by_pos j,
          c.outside j w,
          get_apart 0 a.by_pos a.total_blocks (run_end r) n j w v.apart,
          get_apart 0 a.by_pos a.total_blocks j w (run_end r) n v.apart,
        );
      };
      total = refl;
      merged = λ b. ground (
        arith,
        free_at-remove 0 a.by_pos a.total_blocks (run_end r) n b v.apart e,
        free_at-get a.by_pos (run_end r) n b e,
      );
      protection = (refl, refl);
      deferred = refl;
    }

-- No extent touches the front of the run.
abbrev pub IsFrontClear : Run → PosMap → Type 0
IsFrontClear r m = (j w : ℕ) → get j m ≡ some w → (j + w < r.start) ⊎ (run_end r ≤ j)

before_clear :
    (r : Run) (a : BlockAllocator) (s n : ℕ)
    → IsValid a
    → CanFree r a
    → get s a.by_pos ≡ some n
    → s + n ≡ r.start
    → IsFrontClear (run_at s (r.count + n)) (remove_extent s n a).by_pos
unfolding remove_extent
before_clear r a s n v c e meets j w g = ground (
  arith,
  get-remove s a.by_pos j,
  c.outside j w,
  get_apart 0 a.by_pos a.total_blocks j w s n v.apart,
  get_apart 0 a.by_pos a.total_blocks s n j w v.apart,
)

-- The first step leaves a run that no extent touches in front.
pub front_clear :
    (r : Run) (a : BlockAllocator)
    → IsValid a
    → CanFree r a
    → (r' : Run) × (a' : BlockAllocator) × (join_before (last_below r.start a.by_pos) r a
        ≡ (r', a'))
      × IsJoin r a r' a'
      × IsFrontClear r' a'.by_pos
front_clear r a v c = elim (Option-cases (last_below r.start a.by_pos)) [
  | inl nothing ↦ (
    r,
    a,
    ground arith,
    no-IsJoin r a v c,
    λ j w g. ground (
      arith,
      last_below-none 0 a.by_pos a.total_blocks r.start v.apart nothing j w,
      get_bounds 0 a.by_pos a.total_blocks j w v.apart,
      c.outside j w,
    ),
  )
  | inr (e, below) ↦
      let (here, less) = last_below-get 0 a.by_pos a.total_blocks r.start e v.apart below in
      elim (Bool-cases (e.0 + e.1 == r.start)) [
        | inl meets ↦ (
          run_at e.0 (r.count + e.1),
          remove_extent e.0 e.1 a,
          ground arith,
          before-IsJoin r a e.0 e.1 v c here (ground arith),
          before_clear r a e.0 e.1 v c here (ground arith),
        )
        | inr apart ↦ (
          r,
          a,
          ground arith,
          no-IsJoin r a v c,
          λ j w g. ground (
            arith,
            c.outside j w,
            c.outside e.0 e.1,
            last_below_max 0 a.by_pos a.total_blocks r.start e v.apart below j w,
            get_bounds 0 a.by_pos a.total_blocks j w v.apart,
            get_apart 0 a.by_pos a.total_blocks j w e.0 e.1 v.apart,
          ),
        )
      ]
]

after-IsClear :
    (r : Run) (a : BlockAllocator) (n : ℕ)
    → IsValid a
    → IsFrontClear r a.by_pos
    → CanFree r a
    → get (run_end r) a.by_pos ≡ some n
    → IsClear r.start (r.count + n) (remove_extent (run_end r) n a).by_pos
unfolding remove_extent
after-IsClear r a n v front c e j w g = ground (
  arith,
  get-remove (run_end r) a.by_pos j,
  front j w,
  get_apart 0 a.by_pos a.total_blocks (run_end r) n j w v.apart,
)

absent_ne : (m : PosMap) (k j w : ℕ) → get k m ≡ none → get j m ≡ some w → j ≢ k
absent_ne m k j w n g e = cc

-- The second step leaves a run that no extent touches.
pub all-IsClear :
    (r : Run) (a : BlockAllocator)
    → IsValid a
    → IsFrontClear r a.by_pos
    → CanFree r a
    → (r' : Run) × (a' : BlockAllocator) × (join_after (get (run_end r) a.by_pos) r a ≡ (r', a'))
      × IsJoin r a r' a'
      × IsClear r'.start r'.count a'.by_pos
all-IsClear r a v front c = elim (Option-cases (get (run_end r) a.by_pos)) [
  | inl nothing ↦ (
    r,
    a,
    ground arith,
    no-IsJoin r a v c,
    λ j w g. ground (arith, front j w, absent_ne a.by_pos (run_end r) j w nothing),
  )
  | inr (n, here) ↦ (
    run_at r.start (r.count + n),
    remove_extent (run_end r) n a,
    ground arith,
    after-IsJoin r a n v c here,
    after-IsClear r a n v front c here,
  )
]
