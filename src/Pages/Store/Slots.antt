-- ===== src/Pages/Store/Slots.antt =====
-- The slots of the types behind a change of one of them.
use mathlib.Core.Option
use wavedb.Base.{
  ℕ, suc, ◌≡◌, refl, arith, List, [], ◌∷◌, ◌==◌, Option, none, some, if◌then◌else◌, Bool-cases, inl,
  inr,
}
use wavedb.Pages.Storage.{StructStorage}
use wavedb.Pages.Fault.{ok}
use wavedb.Pages.Store.{slot_index, slot_of, modify, registered}

index_behind :
    (o : Option ℕ) (i : ℕ) → Option.map suc o ≡ some i → (j : ℕ) × (o ≡ some j) × (i ≡ suc j)
index_behind none i h = cc
index_behind (some j) i h = (j, refl, ground arith)

some_eq {ℓ} : {A : Type ℓ} {a b : A} → some a ≡ some b → a ≡ b
some_eq h = cc

-- A registered type has an index.
pub slot_index-slot_of :
    (hash : ℕ) (types : List StructStorage)
    → registered hash (slot_of hash types) ≡ ok tt
    → (i : ℕ) × (slot_index hash types ≡ some i)
unfolding slot_index slot_of
slot_index-slot_of hash [] h = cc
slot_index-slot_of hash (s ∷ types) h = elim (Bool-cases (s.struct_hash == hash)) [
  | inl here ↦ (0, rw here refl)
  | inr there ↦
      let (i, e) = slot_index-slot_of hash types (rw there at h) in (suc i, rw (there, e) refl)
]

pub slot_of-modify :
    (hash h idx : ℕ) (f : StructStorage → StructStorage) (types : List StructStorage)
    → ((s : StructStorage) → (f s).struct_hash ≡ s.struct_hash)
    → slot_index hash types ≡ some idx
    → slot_of h (modify idx f types)
      ≡ (if hash == h then Option.map f (slot_of h types) else slot_of h types)
unfolding slot_index slot_of
slot_of-modify hash h idx f [] keep e = cc
slot_of-modify hash h idx f (s ∷ types) keep e = elim (Bool-cases (s.struct_hash == hash)) [
  | inl here ↦ let first : 0 ≡ idx = some_eq (rw here at e) in rw (← first) (ground (arith, keep s))
  | inr there ↦
      let (j, ej, ei) = index_behind (slot_index hash types) idx (rw there at e) in
      let ih = slot_of-modify hash h j f types keep ej in rw ei (ground (arith, ih))
]
