-- ===== src/Pages/Dictionary/Laws.antt =====
-- A dictionary only grows, and its older states stay.
use wavedb.Base.{
  ℕ, zero, suc, ◌∷◌, ◌-◌, ◌≤◌, ◌≡◌, refl, sym, ap, arith, List, [], ◌++◌, append-nil, append_assoc,
  length, take, ◌==◌, leb, leb→le, le→leb, some, Bool-cases, inl, inr, length-append,
}
use wavedb.Pages.Dictionary.{Dictionary, DictState, dict_cap, sample, state, sample_state}

-- `d'` is `d` with more bytes behind it.
abbrev pub Grown : Dictionary → Dictionary → Type 0
Grown d d' = (more : List ℕ) × (d'.buf ≡ d.buf ++ more)

pub Grown-refl : (d : Dictionary) → Grown d d
Grown-refl d = ([], sym (append-nil d.buf))

pub Grown-trans : (a b c : Dictionary) → Grown a b → Grown b c → Grown a c
Grown-trans a b c (m, e) (n, f) = (m ++ n, rw (f, e) (append_assoc a.buf m n))

sample-Grown : (bytes : List ℕ) (d : Dictionary) → Grown d (sample bytes d)
unfolding sample
sample-Grown bytes d = elim (Bool-cases (dict_cap - length d.buf == 0)) [
  | inl full ↦ rw full (Grown-refl d)
  | inr room ↦ rw room (_, refl)
]

pub sample_state-Grown :
    (bytes : List ℕ) (s : DictState) → Grown s.dict (sample_state bytes s).0.dict
unfolding sample_state
sample_state-Grown bytes s = elim (Bool-cases s.enabled) [
  | inl on ↦ rw on (sample-Grown bytes s.dict)
  | inr off ↦ rw off (Grown-refl s.dict)
]

pub sample_state_enabled :
    (bytes : List ℕ) (s : DictState) → (sample_state bytes s).0.enabled ≡ s.enabled
unfolding sample_state
sample_state_enabled bytes s = ground arith

take_within : (n : ℕ) (xs ys : List ℕ) → n ≤ length xs → take n (xs ++ ys) ≡ take n xs
take_within zero xs ys h = refl
take_within (suc n) [] ys h = absurd (omega (arith, h))
take_within (suc n) (x ∷ xs) ys h = ap (λ t. x ∷ t) (take_within n xs ys (omega (arith, h)))

-- A state stays what it was.
pub state-Grown :
    (d d' : Dictionary) (len : ℕ) (s : List ℕ)
    → Grown d d'
    → state len d ≡ some s
    → state len d' ≡ some s
unfolding state
state-Grown d d' len s (more, e) h = elim (Bool-cases (leb len (length d.buf))) [
  | inr no_state ↦ let bad = rw no_state at h in cc
  | inl within ↦
      let le : len ≤ length (d.buf ++ more) =
        omega (arith, leb→le _ _ within, length-append d.buf more) in
      rw (e, le→leb _ _ le, take_within len d.buf more (leb→le _ _ within)) (rw within at h)
]
