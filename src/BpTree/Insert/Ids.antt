-- ===== src/BpTree/Insert/Ids.antt =====
-- Which ids a tree and a list of changes touch, by counting ids.
use wavedb.Base.{
  ℕ, zero, suc, ◌+◌, ◌≤◌, ◌≡◌, refl, ◌∙◌, arith, List, [], ◌∷◌, ◌++◌, All, Bool, true, false,
}
use wavedb.Ids.LocalId.{LocalId}
use wavedb.BpTree.Fault.{Result, ok}
use wavedb.BpTree.Node.{NodeBody}
use wavedb.BpTree.Shape.{Tree, gather, ids, Holds}
use wavedb.BpTree.Insert.{Change, put, same_id, take_change, apply}

abbrev pub one_if : Bool → ℕ
one_if true = 1
one_if false = 0

abbrev pub count : LocalId → List LocalId → ℕ
count p [] = 0
count p (q ∷ qs) = one_if (same_id p q) + count p qs

pub count-append :
    (p : LocalId) (qs rs : List LocalId) → count p (qs ++ rs) ≡ count p qs + count p rs
count-append p [] rs = omega arith
count-append p (q ∷ qs) rs = omega (arith, count-append p qs rs)

pub same_id_refl : (p : LocalId) → same_id p p ≡ true
same_id_refl p = ground arith

id_eq : (p q : LocalId) → p.key ≡ q.key → p.lower ≡ q.lower → p ≡ q
id_eq p q a b = cc

pub same_id→eq : (p q : LocalId) → same_id p q ≡ true → p ≡ q
same_id→eq p q h = id_eq p q (ground arith) (ground arith)

-- The first ids that are minted.
abbrev pub mints : (ℕ → LocalId) → ℕ → List LocalId
mints mint zero = []
mints mint (suc n) = mint n ∷ mints mint n

module _ {K : Type 0} where
  -- What moves a tree of the height `h` from one store to the other.
  abbrev Moves : (LocalId → Result (NodeBody K)) → (LocalId → Result (NodeBody K)) → ℕ → Type 0
  Moves load load' h =
      (u : Tree K h)
      → ((p : LocalId) → 1 ≤ count p (ids K h u) → load' p ≡ load p)
      → Holds K load h u
      → Holds K load' h u

  All-Holds-Moves :
      (load load' : LocalId → Result (NodeBody K)) (h : ℕ)
      → Moves load load' h
      → (es : List (K × Tree K h))
      → ((p : LocalId) → 1 ≤ count p (gather K (ids K h) es) → load' p ≡ load p)
      → All (λ e. Holds K load h e.1) es
      → All (λ e. Holds K load' h e.1) es
  All-Holds-Moves load load' h move [] same hs = tt
  All-Holds-Moves load load' h move ((k, u) ∷ es) same (hu, hs) = (
    move u (λ p n. same p (omega (arith, n, count-append p (ids K h u) (gather K (ids K h) es))))
        hu,
    All-Holds-Moves load load' h move es
        (λ p n. same p (omega (arith, n, count-append p (ids K h u) (gather K (ids K h) es)))) hs,
  )

  -- A tree stays in the store where its nodes load as before.
  pub Holds-frame : (load load' : LocalId → Result (NodeBody K)) (h : ℕ) → Moves load load' h
  Holds-frame load load' zero u same at = same u.0 (ground (arith, same_id_refl u.0)) ∙ at
  Holds-frame load load' (suc h) u same (at, first, rest) = (
    same u.0 (ground (arith, same_id_refl u.0)) ∙ at,
    Holds-frame load load' h u.1
        (λ p n. same p (omega (arith, n, count-append p (ids K h u.1) (gather K (ids K h) u.2))))
        first,
    All-Holds-Moves load load' h (Holds-frame load load' h) u.2
        (λ p n. same p (omega (arith, n, count-append p (ids K h u.1) (gather K (ids K h) u.2))))
        rest,
  )

  pub All-Holds-frame :
      (load load' : LocalId → Result (NodeBody K)) (h : ℕ) (es : List (K × Tree K h))
      → ((p : LocalId) → 1 ≤ count p (gather K (ids K h) es) → load' p ≡ load p)
      → All (λ e. Holds K load h e.1) es
      → All (λ e. Holds K load' h e.1) es
  All-Holds-frame load load' h = All-Holds-Moves load load' h (Holds-frame load load' h)

  pub apply-append :
      (cs ds : List (Change K)) (load : LocalId → Result (NodeBody K))
      → apply (cs ++ ds) load ≡ apply ds (apply cs load)
  unfolding apply
  apply-append [] ds load = refl
  apply-append (c ∷ cs) ds load = apply-append cs ds (take_change c load)

  -- A put reads back, and leaves the other nodes.
  pub take_change-put :
      (p : LocalId) (n : NodeBody K) (load : LocalId → Result (NodeBody K))
      → take_change (put p n) load p ≡ ok n
  unfolding take_change
  take_change-put p n load = rw (same_id_refl p) refl

  pub take_change-put_ne :
      (p q : LocalId) (n : NodeBody K) (load : LocalId → Result (NodeBody K))
      → same_id p q ≡ false
      → take_change (put q n) load p ≡ load p
  unfolding take_change
  take_change-put_ne p q n load h = rw h refl

  module _ (p q : LocalId) (a b : NodeBody K) (load : LocalId → Result (NodeBody K)) where
    -- The two puts of a split.
    pub apply-split_left : same_id p q ≡ false → apply (put p a ∷ put q b ∷ []) load p ≡ ok a
    unfolding apply
    apply-split_left h =
        take_change-put_ne p q b (take_change (put p a) load) h ∙ take_change-put p a load

    pub apply-split_right : apply (put p a ∷ put q b ∷ []) load q ≡ ok b
    unfolding apply
    apply-split_right = take_change-put q b (take_change (put p a) load)

    pub apply-split_ne :
        (r : LocalId)
        → same_id r p ≡ false
        → same_id r q ≡ false
        → apply (put p a ∷ put q b ∷ []) load r ≡ load r
    unfolding apply
    apply-split_ne r h g =
        take_change-put_ne r q b (take_change (put p a) load) g ∙ take_change-put_ne r p a load h
