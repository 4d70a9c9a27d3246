-- ===== src/Blocks/Alloc/Kept.antt =====
-- What becomes of a deferred run, block by block: a run stays deferred while one of its blocks is kept.
use wavedb.Base.{
  ℕ, zero, suc, ◌<◌, ◌≡◌, ◌∙◌, refl, sym, ap, arith, List, [], ◌∷◌, Bool, true, false, not, ◌&&◌,
  ◌||◌, if◌then◌else◌, Bool-cases, inl, inr, ◌==◌, ==_iff,
}
use wavedb.Blocks.Descriptor.{Run}
use wavedb.Blocks.Extents.{PosMap}
use wavedb.Blocks.Extents.Free.{in_extent, free_at}
use wavedb.Blocks.Alloc.{covers}
use wavedb.Blocks.Alloc.Covers.{AreDisjoint, covers_iff}
use wavedb.Blocks.Alloc.Deferred.{run_has, AreInUse, released, held}

-- One of the `n` blocks from `start` on is kept: each is asked.
abbrev pub any_kept : (ℕ → Bool) → ℕ → ℕ → Bool
any_kept kept start zero = false
any_kept kept start (suc n) = kept start || any_kept kept (suc start) n

abbrev pub is_blocked : (ℕ → Bool) → Run → Bool
is_blocked kept r = any_kept kept r.start r.count

-- Block `b` belongs to a run of the list that has no kept block.
abbrev pub let_go : (ℕ → Bool) → List Run → ℕ → Bool
let_go kept [] b = false
let_go kept (r ∷ rs) b = (not (is_blocked kept r) && run_has r b) || let_go kept rs b

-- The runs of the list that have a kept block.
abbrev pub blocked : (ℕ → Bool) → List Run → List Run
blocked kept [] = []
blocked kept (r ∷ rs) = let rest = blocked kept rs in if is_blocked kept r then r ∷ rest else rest

any_kept-block :
    (kept : ℕ → Bool) (start n : ℕ)
    → any_kept kept start n ≡ true
    → (b : ℕ) × (in_extent start n b ≡ true) × (kept b ≡ true)
any_kept-block kept start zero h = cc
any_kept-block kept start (suc n) h = elim (Bool-cases (kept start)) [
  | inl here ↦ (start, ground arith, here)
  | inr there ↦
      let (b, e, k) = any_kept-block kept (suc start) n (rw there at h) in (b, ground (arith, e), k)
]

or_right : (t u : Bool) → u ≡ true → t || u ≡ true
or_right true u e = refl
or_right false u e = e

block_kept :
    (kept : ℕ → Bool) (start n b : ℕ)
    → in_extent start n b ≡ true
    → kept b ≡ true
    → any_kept kept start n ≡ true
block_kept kept start zero b e k = ground arith
block_kept kept start (suc n) b e k = elim (Bool-cases (start == b)) [
  | inl here ↦ rw (ap kept ((==_iff start b).0 here) ∙ k) refl
  | inr there ↦
      or_right (kept start) _ (block_kept kept (suc start) n b (ground (arith, e, there)) k)
]

-- The two probes of the code ask the blocks of the run.
is_blocked-covers :
    (kept : ℕ → Bool) (n o : PosMap) (r : Run)
    → AreDisjoint 0 n
    → AreDisjoint 0 o
    → 0 < r.count
    → ((b : ℕ) → kept b ≡ (free_at n b || free_at o b))
    → (covers n r || covers o r) ≡ is_blocked kept r
is_blocked-covers kept n o r dn od pos same = elim (Bool-cases (is_blocked kept r)) [
  | inl blocked_run ↦
      let (b, e, k) = any_kept-block kept r.start r.count blocked_run in
      either b e (sym (same b) ∙ k) ∙ sym blocked_run
  | inr free_run ↦ neither free_run ∙ sym free_run
]
  where
    either :
        (b : ℕ)
        → in_extent r.start r.count b ≡ true
        → (free_at n b || free_at o b) ≡ true
        → (covers n r || covers o r) ≡ true
    either b e k = elim (Bool-cases (free_at n b)) [
      | inl newest ↦ rw ((covers_iff n r dn pos).1 (b, e, newest)) refl
      | inr older ↦ or_right (covers n r) _ ((covers_iff o r od pos).1 (b, e, rw older at k))
    ]

    neither : is_blocked kept r ≡ false → (covers n r || covers o r) ≡ false
    neither none_kept = elim (Bool-cases (covers n r)) [
      | inl newest ↦
          let (b, e, k) = (covers_iff n r dn pos).0 newest in
          let odd : true ≡ false =
            sym (block_kept kept r.start r.count b e (same b ∙ rw k refl)) ∙ none_kept in
          absurd (cc)
      | inr not_newest ↦ elim (Bool-cases (covers o r)) [
        | inl older ↦
            let (b, e, k) = (covers_iff o r od pos).0 older in
            let odd : true ≡ false =
              sym (block_kept kept r.start r.count b e (same b ∙ or_right (free_at n b) _ k))
              ∙ none_kept in
            absurd (cc)
        | inr not_older ↦ rw (not_newest, not_older) refl
      ]
    ]

pub released-let_go :
    (kept : ℕ → Bool) (n o m : PosMap) (t : ℕ) (rs : List Run) (b : ℕ)
    → AreDisjoint 0 n
    → AreDisjoint 0 o
    → AreInUse m t rs
    → ((b : ℕ) → kept b ≡ (free_at n b || free_at o b))
    → released n o rs b ≡ let_go kept rs b
unfolding released
released-let_go kept n o m t [] b dn od u same = refl
released-let_go kept n o m t (r ∷ rs) b dn od u same =
    rw
      (
        is_blocked-covers kept n o r dn od u.0.positive same,
        released-let_go kept n o m t rs b dn od u.2 same,
      )
      refl

pub held-blocked :
    (kept : ℕ → Bool) (n o m : PosMap) (t : ℕ) (rs : List Run)
    → AreDisjoint 0 n
    → AreDisjoint 0 o
    → AreInUse m t rs
    → ((b : ℕ) → kept b ≡ (free_at n b || free_at o b))
    → held n o rs ≡ blocked kept rs
unfolding held
held-blocked kept n o m t [] dn od u same = refl
held-blocked kept n o m t (r ∷ rs) dn od u same =
    rw
      (
        is_blocked-covers kept n o r dn od u.0.positive same,
        held-blocked kept n o m t rs dn od u.2 same,
      )
      refl
