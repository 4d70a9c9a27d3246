-- ===== src/Blocks/Alloc/Retry.antt =====
-- The walk of the deferred frees through `free`.
use wavedb.Base.{
  ℕ, ◌<◌, ◌≡◌, refl, ◌∙◌, sym, subst, arith, List, [], ◌∷◌, ◌++◌, append-nil, append_assoc, true,
  false, ◌||◌, Bool-cases, inl, inr,
}
use wavedb.Blocks.Descriptor.{Run}
use wavedb.Blocks.Extents.{PosMap}
use wavedb.Blocks.Alloc.{BlockAllocator, covers, free, free_run, free_all}
use wavedb.Blocks.Alloc.Valid.{IsValid}
use wavedb.Blocks.Alloc.Give.{IsFreeing, free_run-IsFreeing}
use wavedb.Blocks.Alloc.Deferred.{
  AreInUse, released, held, released-listed, held-listed, IsInUse-CanFree, AreInUse-change, IsRetry,
}

same_released :
    (n n' o o' : PosMap) (rs : List Run) (b : ℕ)
    → n ≡ n'
    → o ≡ o'
    → released n o rs b ≡ released n' o' rs b
same_released n n' o o' rs b h k = cc

same_held : (n n' o o' : PosMap) (rs : List Run) → n ≡ n' → o ≡ o' → held n o rs ≡ held n' o' rs
same_held n n' o o' rs h k = cc

held_step :
    (r : Run) (rs : List Run) (a a' : BlockAllocator)
    → covers a.protected r || covers a.previous r ≡ true
    → AreInUse a.by_pos a.total_blocks (r ∷ rs)
    → IsRetry rs (record a { pending = a.pending ++ (r ∷ []) }) a'
    → IsRetry (r ∷ rs) a a'
unfolding released held
held_step r rs a a' p u w = record {
  valid = w.valid;
  total = w.total;
  freed = λ b. ground (arith, w.freed b);
  newest = w.newest;
  older = w.older;
  pending = rw p (w.pending ∙ append_assoc a.pending (r ∷ []) (held a.protected a.previous rs));
  in_use = rw p (
    record {
      positive = u.0.positive;
      inside = omega (arith, u.0.inside, w.total);
      used = λ b e.
          ground
            (arith, w.freed b, u.0.used b e, released-listed a.protected a.previous rs b (u.1 b e));
    },
    λ b e. held-listed a.protected a.previous rs b (u.1 b e),
    w.in_use,
  );
}

release_step :
    (r : Run) (rs : List Run) (a a1 a' : BlockAllocator)
    → covers a.protected r || covers a.previous r ≡ false
    → IsFreeing r a a1
    → IsRetry rs a1 a'
    → IsRetry (r ∷ rs) a a'
unfolding released held
release_step r rs a a1 a' p f w =
    let kept =
      same_held a1.protected a.protected a1.previous a.previous rs f.protection.0 f.protection.1 in
    record {
      valid = w.valid;
      total = w.total ∙ f.total;
      freed = λ b. ground (
        arith,
        w.freed b,
        f.freed b,
        same_released a1.protected a.protected a1.previous a.previous rs b f.protection.0
            f.protection.1,
      );
      newest = w.newest ∙ f.protection.0;
      older = w.older ∙ f.protection.1;
      pending = rw p (rw (sym kept) (rw (sym f.deferred) w.pending));
      in_use = rw p (subst (AreInUse a'.by_pos a'.total_blocks) kept w.in_use);
    }

IsRetry-nothing : (a : BlockAllocator) → IsValid a → IsRetry [] a a
unfolding released held
IsRetry-nothing a v = record {
  valid = v;
  total = refl;
  freed = λ b. refl;
  newest = refl;
  older = refl;
  pending = sym (append-nil a.pending);
  in_use = tt;
}

free_held :
    (r : Run) (a : BlockAllocator)
    → 0 < r.count
    → covers a.protected r || covers a.previous r ≡ true
    → free r a ≡ record a { pending = a.pending ++ (r ∷ []) }
unfolding free
free_held r a pos p = ground arith

free_released :
    (r : Run) (a : BlockAllocator)
    → 0 < r.count
    → covers a.protected r || covers a.previous r ≡ false
    → free r a ≡ free_run r a
unfolding free
free_released r a pos p = ground arith

-- The rest of the list stays in use when its first run becomes free.
rest_in_use :
    (r : Run) (rs : List Run) (a a1 : BlockAllocator)
    → AreInUse a.by_pos a.total_blocks (r ∷ rs)
    → IsFreeing r a a1
    → AreInUse a1.by_pos a1.total_blocks rs
rest_in_use r rs a a1 u f =
    AreInUse-change a.by_pos a1.by_pos a.total_blocks a1.total_blocks rs (omega (arith, f.total))
      (λ b e used. ground (arith, f.freed b, u.1 b)) u.2

pub free_all-IsRetry :
    (rs : List Run) (a : BlockAllocator)
    → IsValid a
    → AreInUse a.by_pos a.total_blocks rs
    → IsRetry rs a (free_all rs a)
unfolding free_all
free_all-IsRetry [] a v u = IsRetry-nothing a v
free_all-IsRetry (r ∷ rs) a v u = elim (Bool-cases (covers a.protected r || covers a.previous r)) [
  | inl p ↦
      let b = record a { pending = a.pending ++ (r ∷ []) } in
      rw (free_held r a u.0.positive p) (
        held_step r rs a (free_all rs b) p u (
          free_all-IsRetry rs b
            (record { apart = v.apart; synced = v.synced; ascending = v.ascending }) u.2))
  | inr p ↦
      let f = free_run-IsFreeing r a v (IsInUse-CanFree a r v u.0) in
      rw (free_released r a u.0.positive p) (
        release_step r rs a (free_run r a) (free_all rs (free_run r a)) p f
          (free_all-IsRetry rs (free_run r a) f.valid (rest_in_use r rs a (free_run r a) u f)))
]
