-- ===== src/Pages/Store/Apply.antt =====
-- A batch is applied as a whole or not at all.
use wavedb.Base.{
  ℕ, ◌≡◌, ◌≢◌, ◌↔◌, ◌⊎◌, refl, ◌∙◌, arith, List, [], ◌∷◌, All, true, Option, none, some,
  if◌then◌else◌, inl, inr,
}
use wavedb.Ids.Id.{CompositeId}
use wavedb.Journal.Frame.{Write, put, remove, expect}
use wavedb.Pages.Fault.{StorageResult, ok, err, stuck, conflict, ◌>>=◌}
use wavedb.Pages.Directory.{Env, File}
use wavedb.Pages.Storage.{StructStorage}
use wavedb.Pages.Store.{
  PageStore, Touched, slot_of, routed_hash, route_batch, commit_loop, commit_to_caches, effective,
  bytes_eq, record_eq, read_slot, read_of, check_guard, check_guards, apply_inner, applied,
}
use wavedb.Pages.Store.Effect.{
  effect, written, over, over-later, written-effective, route_batch-SameTypes,
  commit_write-Committed,
}
use wavedb.Pages.Store.Routing.{first_routed, effective_routed, IsRegistered, route_batch_iff}

module _ (env : Env) (file : File) where
  abbrev LoopCommitted :
      List Write → List StructStorage → StorageResult (List StructStorage × Touched) → Type 0
  LoopCommitted writes types r =
      (t : List StructStorage × Touched) × (r ≡ ok t)
      × ((h : ℕ) (id : CompositeId)
          → read_slot env (slot_of h t.0) file id
            ≡ over (written writes h id) (read_slot env (slot_of h types) file id))

  commit_loop-LoopCommitted :
      (writes : List Write) (types : List StructStorage) (touched : Touched)
      → route_batch writes types ≡ ok tt
      → LoopCommitted writes types (commit_loop writes (types, touched))
  unfolding route_batch
  commit_loop-LoopCommitted [] types touched e = ((types, touched), refl, λ h id. refl)
  commit_loop-LoopCommitted (w ∷ writes) types touched e =
      let (known, rest) = first_routed (routed_hash w) types (route_batch writes types) e in
      let ((types', touched'), done, same, reads) =
        commit_write-Committed env file w types touched known in
      let (t, all, more) =
        commit_loop-LoopCommitted writes types' touched'
          (route_batch-SameTypes writes types types' same ∙ rest) in
      (
        t,
        rw done all,
        λ h id. more h id ∙ (rw (reads h id) (over-later (written writes h id) (effect w h id) _)),
      )

-- A guard holds where the record reads as it expects.
abbrev pub Holds : Env → PageStore → Write → Type 0
Holds env s (put id bytes) = Unit
Holds env s (remove hash id) = Unit
Holds env s (expect hash id expected) = read_of env s hash id ≡ ok expected

pub bytes_eq_iff : (xs ys : List ℕ) → (bytes_eq xs ys ≡ true) ↔ (xs ≡ ys)
bytes_eq_iff [] [] = ground arith
bytes_eq_iff [] (y ∷ ys) = ground arith
bytes_eq_iff (x ∷ xs) [] = ground arith
bytes_eq_iff (x ∷ xs) (y ∷ ys) = ground (arith, bytes_eq_iff xs ys)

record_eq_iff : (a b : Option (List ℕ)) → (record_eq a b ≡ true) ↔ (a ≡ b)
record_eq_iff none none = ground arith
record_eq_iff none (some y) = ground arith
record_eq_iff (some x) none = ground arith
record_eq_iff (some x) (some y) = ground (arith, bytes_eq_iff x y)

guard_iff :
    (r : StorageResult (Option (List ℕ))) (id : CompositeId) (expected : Option (List ℕ))
    → ((r >>= λ found.
          if◌then◌else◌ {A = StorageResult (Unit {0})}
            (record_eq found expected)
            (ok tt)
            (err (conflict id)))
        ≡ ok tt)
      ↔ (r ≡ ok expected)
guard_iff (ok found) id expected = ground (arith, record_eq_iff found expected)
guard_iff (err e) id expected = ground arith
guard_iff stuck id expected = ground arith

both_iff {ℓ κ} :
    {P : Type ℓ} {Q : Type κ} (a b : StorageResult (Unit {0}))
    → (a ≡ ok tt) ↔ P
    → (b ≡ ok tt) ↔ Q
    → ((a >>= λ _. b) ≡ ok tt) ↔ (P × Q)
both_iff (ok u) b p q = (λ e. (p.0 refl, q.0 e), λ h. q.1 h.1)
both_iff (err f) b p q = (λ e. cc, λ h. let e = p.1 h.0 in cc)
both_iff stuck b p q = (λ e. cc, λ h. let e = p.1 h.0 in cc)

check_guard_iff :
    (env : Env) (s : PageStore) (w : Write) → (check_guard env s w ≡ ok tt) ↔ Holds env s w
unfolding check_guard
check_guard_iff env s (put id bytes) = (λ e. tt, λ h. refl)
check_guard_iff env s (remove hash id) = (λ e. tt, λ h. refl)
check_guard_iff env s (expect hash id expected) = guard_iff (read_of env s hash id) id expected

check_guards_iff :
    (env : Env) (s : PageStore) (writes : List Write)
    → (check_guards env s writes ≡ ok tt) ↔ All (Holds env s) writes
unfolding check_guards
check_guards_iff env s [] = (λ e. tt, λ h. refl)
check_guards_iff env s (w ∷ writes) =
    both_iff (check_guard env s w) (check_guards env s writes) (check_guard_iff env s w)
      (check_guards_iff env s writes)

abbrev Done : Env → List Write → PageStore → StorageResult (Unit {0}) × PageStore → Type 0
Done env writes s out =
    (out.0 ≡ ok tt)
    × ((h : ℕ) (id : CompositeId)
        → read_of env out.1 h id ≡ over (written writes h id) (read_of env s h id))

-- What a result and a store behind a batch promise.
abbrev Atomic : Env → List Write → PageStore → StorageResult (Unit {0}) × PageStore → Type 0
Atomic env writes s out = Done env writes s out ⊎ ((out.0 ≢ ok tt) × (out.1 ≡ s))

route_first : (a b : StorageResult (Unit {0})) → (a >>= λ _. b) ≡ ok tt → (a ≡ ok tt) × (b ≡ ok tt)
route_first (ok u) b e = (refl, e)
route_first (err f) b e = cc
route_first stuck b e = cc

applied-Done :
    (env : Env) (since : ℕ) (writes : List Write) (s : PageStore)
    → route_batch writes s.types ≡ ok tt
    → Done env writes s (applied env since s writes (ok tt))
unfolding commit_to_caches read_of
applied-Done env since writes s routed =
    let ((types, touched), done, reads) =
      commit_loop-LoopCommitted env s.file (effective writes) s.types []
        (effective_routed writes s.types routed) in
    rw done (refl, λ h id. reads h id ∙ rw (written-effective writes h id) refl)

applied-Atomic :
    (env : Env) (since : ℕ) (writes : List Write) (s : PageStore)
    (checked : StorageResult (Unit {0}))
    → (checked ≡ ok tt → route_batch writes s.types ≡ ok tt)
    → Atomic env writes s (applied env since s writes checked)
applied-Atomic env since writes s (ok u) routed =
    inl (applied-Done env since writes s (routed refl))
applied-Atomic env since writes s (err e) routed = inr (λ p. cc, refl)
applied-Atomic env since writes s stuck routed = inr (λ p. cc, refl)

applied-ok_iff :
    (env : Env) (since : ℕ) (writes : List Write) (s : PageStore)
    (checked : StorageResult (Unit {0}))
    → (checked ≡ ok tt → route_batch writes s.types ≡ ok tt)
    → ((applied env since s writes checked).0 ≡ ok tt) ↔ (checked ≡ ok tt)
applied-ok_iff env since writes s (ok u) routed =
    (λ e. refl, λ e. (applied-Done env since writes s (routed refl)).0)
applied-ok_iff env since writes s (err f) routed = (λ e. e, λ e. e)
applied-ok_iff env since writes s stuck routed = (λ e. e, λ e. e)

-- A batch is all or nothing, where the file operations of the journal succeed. If it is accepted,
-- each record reads as the last write of the batch to it says, and as before if there is none;
-- otherwise the store, its journal included, is what it was.
pub apply_inner_atomic :
    (env : Env) (since : ℕ) (writes : List Write) (s : PageStore)
    → (((apply_inner env since writes s).0 ≡ ok tt)
        × ((h : ℕ) (id : CompositeId)
            → read_of env (apply_inner env since writes s).1 h id
              ≡ over (written writes h id) (read_of env s h id)))
      ⊎ (((apply_inner env since writes s).0 ≢ ok tt) × ((apply_inner env since writes s).1 ≡ s))
unfolding apply_inner
apply_inner_atomic env since writes s =
    applied-Atomic env since writes s
      (route_batch writes s.types >>= λ _. check_guards env s writes)
      (λ e. (route_first (route_batch writes s.types) (check_guards env s writes) e).0)

-- A batch is accepted exactly when each of its writes, the guards included, names a type of the
-- store, a put by the first eight bytes of its record, which has that many, and each of its guards
-- reads what it expects from the store before the batch.
pub apply_inner-ok_iff :
    (env : Env) (since : ℕ) (writes : List Write) (s : PageStore)
    → ((apply_inner env since writes s).0 ≡ ok tt)
      ↔ (All (IsRegistered s.types) writes × All (Holds env s) writes)
unfolding apply_inner
apply_inner-ok_iff env since writes s =
    let checked : StorageResult (Unit {0}) =
      route_batch writes s.types >>= λ _. check_guards env s writes in
    let first =
      applied-ok_iff env since writes s checked
        (λ e. (route_first (route_batch writes s.types) (check_guards env s writes) e).0) in
    let second =
      both_iff (route_batch writes s.types) (check_guards env s writes)
        (route_batch_iff writes s.types) (check_guards_iff env s writes) in
    (λ e. second.0 (first.0 e), λ h. first.1 (second.1 h))
