-- ===== src/Priority/Starvation.antt =====
-- Maintenance is not starved.
use wavedb.Base.{
  ℕ, ◌-◌, ◌^◌, ◌≤◌, ◌<◌, ◌≡◌, arith, refl, ◌⊎◌, inl, inr, Bool-cases, List, [], ◌∷◌, Bool, true,
  false, ltb, leb, some, length, All,
}
use wavedb.Priority.{
  Class, read, maintenance, Available, Priority, serve_all, pick, serve_read, serve_maintenance,
}

abbrev pub has_maintenance : List Class → Bool
has_maintenance [] = false
has_maintenance (read ∷ cs) = has_maintenance cs
has_maintenance (maintenance ∷ cs) = true

-- A call while maintenance is queued and the unsettled volume is not below the low mark.
abbrev pub IsPressed : ℕ → Available × ℕ → Type 0
IsPressed low call = (call.0.maintenance ≡ true) × (low ≤ call.1)

-- Such a call serves maintenance, or a read of a run that is not over.
pressed_cases :
    (reads : Bool) (u : ℕ) (p : Priority)
    → p.low_water ≤ u
    → (pick reads true u p ≡ some (serve_maintenance p))
      ⊎ ((p.reads_since < p.reads_per_maintenance) × (pick reads true u p ≡ some (serve_read p)))
pressed_cases false u p h = inl refl
pressed_cases true u p h = elim (Bool-cases (leb p.high_water u)) [
  | inl high ↦ inl (ground arith)
  | inr band ↦ elim (Bool-cases (ltb p.reads_since p.reads_per_maintenance)) [
    | inl run ↦ inr (ground arith, ground arith)
    | inr over ↦ inl (ground arith)
  ]
]

serve_all_next :
    (p p' : Priority) (c : Class) (avail : Available) (u : ℕ) (calls : List (Available × ℕ))
    → pick avail.reads avail.maintenance u p ≡ some (c, p')
    → serve_all ((avail, u) ∷ calls) p ≡ c ∷ serve_all calls p'
unfolding serve_all
serve_all_next p p' c avail u calls e = rw (serve_all, e) refl

-- While maintenance stays queued and the unsettled volume is not below the low mark, one more call
-- than the reads that are left of a run serves maintenance, whichever reads are queued; the reads
-- of a run fit 32 bits.
pub serve_all-has_maintenance :
    (p : Priority) (calls : List (Available × ℕ))
    → p.reads_per_maintenance < 2 ^ 32
    → All (IsPressed p.low_water) calls
    → p.reads_per_maintenance - p.reads_since < length calls
    → has_maintenance (serve_all calls p) ≡ true
serve_all-has_maintenance p [] fits pressed enough = ground arith
serve_all-has_maintenance p ((avail, u) ∷ calls) fits pressed enough =
    let m = pressed.0.0 in
    elim (pressed_cases avail.reads u p pressed.0.1) [
      | inl served ↦
          rw (serve_all_next p (serve_maintenance p).1 maintenance avail u calls (rw m served)) refl
      | inr (run, passed) ↦
          rw (serve_all_next p (serve_read p).1 read avail u calls (rw m passed))
            (serve_all-has_maintenance (serve_read p).1 calls fits pressed.1 (omega arith))
    ]
