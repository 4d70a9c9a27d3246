-- ===== src/Pages/Store/Routing.antt =====
-- Which batches `route_batch` lets through.
use wavedb.Base.{
  ℕ, ◌≡◌, ◌≤◌, ◌==◌, ==_iff, false, length, take, ltb, Bool-cases, ◌↔◌, ◌⊎◌, refl, sym, ◌∙◌, arith,
  List, [], ◌∷◌, All, true, inl, inr,
}
use wavedb.Journal.Frame.{Write, put, remove, expect}
use wavedb.Pages.Fault.{StorageResult, ok, err, stuck, ◌>>=◌}
use wavedb.Pages.Storage.{StructStorage}
use wavedb.Pages.Store.{slot_of, registered, routed_hash, route_batch, effective}
use wavedb.Wire.Cursor.{from_le_bytes}
use wavedb.Pages.Store.{struct_hash_of}

-- Each write of a routed batch has its type.
pub first_routed :
    (r : StorageResult ℕ) (types : List StructStorage) (rest : StorageResult (Unit {0}))
    → (r >>= λ h. registered h (slot_of h types) >>= λ _. rest) ≡ ok tt
    → ((r >>= λ h. registered h (slot_of h types)) ≡ ok tt) × (rest ≡ ok tt)
first_routed (ok h) types rest e = both (registered h (slot_of h types)) e
  where
    both : (r : StorageResult (Unit {0})) → (r >>= λ _. rest) ≡ ok tt → (r ≡ ok tt) × (rest ≡ ok tt)
    both (ok u) e = (refl, e)
    both (err f) e = cc
    both stuck e = cc
first_routed (err f) types rest e = cc
first_routed stuck types rest e = cc

then_routed :
    (r : StorageResult ℕ) (types : List StructStorage) (rest : StorageResult (Unit {0}))
    → (r >>= λ h. registered h (slot_of h types)) ≡ ok tt
    → rest ≡ ok tt
    → (r >>= λ h. registered h (slot_of h types) >>= λ _. rest) ≡ ok tt
then_routed (ok h) types rest known e = rw (known, e) refl
then_routed (err f) types rest known e = cc
then_routed stuck types rest known e = cc

pub effective_routed :
    (writes : List Write) (types : List StructStorage)
    → route_batch writes types ≡ ok tt
    → route_batch (effective writes) types ≡ ok tt
unfolding effective route_batch
effective_routed [] types e = e
effective_routed (put id bytes ∷ writes) types e =
    let (known, rest) = first_routed (routed_hash (put id bytes)) types _ e in
    then_routed (routed_hash (put id bytes)) types _ known (effective_routed writes types rest)
effective_routed (remove hash id ∷ writes) types e =
    let (known, rest) = first_routed (routed_hash (remove hash id)) types _ e in
    then_routed (routed_hash (remove hash id)) types _ known (effective_routed writes types rest)
effective_routed (expect hash id bytes ∷ writes) types e =
    effective_routed writes types (first_routed (routed_hash (expect hash id bytes)) types _ e).1

-- A type with this hash is among those of the store.
abbrev pub HasType : ℕ → List StructStorage → Type 0
HasType hash [] = ⊥
HasType hash (s ∷ types) = (s.struct_hash ≡ hash) ⊎ HasType hash types

-- A write names a type of the store: a put by the eight bytes in front of the record, which it has
-- to have, and a removal or a guard by the hash that it carries.
abbrev pub IsRegistered : List StructStorage → Write → Type 0
IsRegistered types (put id bytes) =
    (8 ≤ length bytes) × HasType (from_le_bytes (take 8 bytes)) types
IsRegistered types (remove hash id) = HasType hash types
IsRegistered types (expect hash id expected) = HasType hash types

slot_iff :
    (hash : ℕ) (types : List StructStorage)
    → (registered hash (slot_of hash types) ≡ ok tt) ↔ HasType hash types
unfolding slot_of
slot_iff hash [] = (λ e. cc, λ h. absurd h)
slot_iff hash (s ∷ types) = elim (Bool-cases (s.struct_hash == hash)) [
  | inl here ↦ rw here (λ e. inl ((==_iff s.struct_hash hash).0 here), λ h. refl)
  | inr other ↦ rw other (
    λ e. inr ((slot_iff hash types).0 e),
    λ h. elim h [
      | inl same ↦
          let odd : true ≡ false = sym ((==_iff s.struct_hash hash).1 same) ∙ other in absurd (cc)
      | inr later ↦ (slot_iff hash types).1 later
    ],
  )
]

head_iff :
    (bytes : List ℕ) (types : List StructStorage)
    → ((struct_hash_of bytes >>= λ h. registered h (slot_of h types)) ≡ ok tt)
      ↔ IsRegistered types (put (record { raw = 0 }) bytes)
unfolding struct_hash_of
head_iff bytes types = elim (Bool-cases (ltb (length bytes) 8)) [
  | inl short ↦ rw short (λ e. cc, λ h. absurd (ground (arith, short, h.0)))
  | inr whole ↦
      let long : 8 ≤ length bytes = ground (arith, whole) in
      let found = slot_iff (from_le_bytes (take 8 bytes)) types in
      rw whole (λ e. (long, found.0 e), λ h. found.1 h.1)
]

write_iff :
    (types : List StructStorage) (w : Write)
    → ((routed_hash w >>= λ h. registered h (slot_of h types)) ≡ ok tt) ↔ IsRegistered types w
unfolding routed_hash
write_iff types (put id bytes) = head_iff bytes types
write_iff types (remove hash id) = slot_iff hash types
write_iff types (expect hash id expected) = slot_iff hash types

pub route_batch_iff :
    (writes : List Write) (types : List StructStorage)
    → (route_batch writes types ≡ ok tt) ↔ All (IsRegistered types) writes
unfolding route_batch
route_batch_iff [] types = (λ e. tt, λ h. refl)
route_batch_iff (w ∷ writes) types = (
  λ e.
      let (known, rest) = first_routed (routed_hash w) types (route_batch writes types) e in
      ((write_iff types w).0 known, (route_batch_iff writes types).0 rest),
  λ h.
      then_routed (routed_hash w) types (route_batch writes types) ((write_iff types w).1 h.0)
        ((route_batch_iff writes types).1 h.1),
)
