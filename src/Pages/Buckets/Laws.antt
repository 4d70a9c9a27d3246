-- ===== src/Pages/Buckets/Laws.antt =====
-- The addressing of the buckets is in range, and a new bucket takes its ids from one bucket only.
use wavedb.Base.{
  ℕ, zero, suc, ◌+◌, ◌-◌, ◌*◌, ◌/◌, ◌%◌, ◌^◌, ◌≤◌, ◌<◌, ◌≡◌, refl, ap, arith, ltb, ◌&&◌, ◌==◌,
  if◌then◌else◌, Bool-cases, ltb→lt, inl, inr, ◌⊎◌,
}
use native.Mathlib.Nat.{div-div-eq-div-mul, mul-add, mod-lt}
use wavedb.Pages.Buckets.{ilog2_loop, ilog2, bucket_index, next_split_bucket, split_bit, hash_bit}

-- `p` is the largest power of two in `n`.
abbrev pub IsBase : ℕ → ℕ → Type 0
IsBase n p = (p ≤ n) × (n < p * 2)

pow-suc : (k : ℕ) → 2 ^ suc k ≡ 2 * 2 ^ k
pow-suc k = grind arith

pow_next : (k : ℕ) → 2 ^ suc k ≡ 2 ^ k * 2
pow_next k = omega (arith, pow-suc k)

pub pow_pos : (k : ℕ) → 0 < 2 ^ k
pow_pos zero = omega arith
pow_pos (suc k) = omega (arith, pow-suc k, pow_pos k)

ilog2_loop-IsBase : (fuel n : ℕ) → 0 < n → n < 2 ^ fuel → IsBase n (2 ^ ilog2_loop fuel n)
ilog2_loop-IsBase zero n h b = omega arith
ilog2_loop-IsBase (suc fuel) n h b = elim (Bool-cases (ltb n 2)) [
  | inl one ↦ rw one (ground arith)
  | inr more ↦ rw more (
      let ih = ilog2_loop-IsBase fuel (n / 2) (ground arith) (omega (arith, pow-suc fuel)) in
      omega (arith, ih, pow-suc (ilog2_loop fuel (n / 2))))
]

pub ilog2-IsBase : (n : ℕ) → 0 < n → n < 2 ^ 64 → IsBase n (2 ^ ilog2 n)
unfolding ilog2
ilog2-IsBase n h b = ilog2_loop-IsBase 64 n h b

-- A remainder by twice a number has one more bit.
mod-double : (h p : ℕ) → 0 < p → h % (p * 2) ≡ h % p + p * (h / p % 2)
mod-double h p pos = grind (arith, div-div-eq-div-mul, mul-add)

-- The buckets that a hash can have: its low bits, or those with one bit more.
low_bits :
    (p h : ℕ)
    → 0 < p
    → (h % p < p)
      × (((h % (p * 2) ≡ h % p) × (h / p % 2 ≡ 0)) ⊎ ((h % (p * 2) ≡ h % p + p) × (h / p % 2 ≡ 1)))
low_bits p h pos = (mod-lt h pos, with_bit (h / p % 2) (omega arith) refl)
  where
    with_bit :
        (b : ℕ)
        → b < 2
        → h / p % 2 ≡ b
        → ((h % (p * 2) ≡ h % p) × (h / p % 2 ≡ 0)) ⊎ ((h % (p * 2) ≡ h % p + p) × (h / p % 2 ≡ 1))
    with_bit zero lt e = inl (omega (arith, mod-double h p pos, ap (λ (t : ℕ). p * t) e), e)
    with_bit (suc zero) lt e = inr (omega (arith, mod-double h p pos, ap (λ (t : ℕ). p * t) e), e)
    with_bit (suc (suc b)) lt e = absurd (omega (arith, lt))

bucket_at : ℕ → ℕ → ℕ → ℕ
bucket_at n p h = if ltb (h % p) (n - p) then h % (p * 2) else h % p

bucket_at-lt : (n p h : ℕ) → 0 < p → IsBase n p → bucket_at n p h < n
unfolding bucket_at
bucket_at-lt n p h pos base = ground (arith, low_bits p h pos)

-- A hash has its bucket among those of the directory.
pub bucket_index-lt : (n h : ℕ) → 0 < n → n < 2 ^ 64 → bucket_index n h < n
unfolding bucket_index
bucket_index-lt n h pos b =
    let base = ilog2-IsBase n pos b in
    unfold bucket_at in (bucket_at-lt n (2 ^ ilog2 n) h (omega (arith, pos, base)) base)

-- An added bucket.
bucket_at-grow :
    (n p h : ℕ)
    → 0 < p
    → suc n < p * 2
    → p ≤ n
    → bucket_at (suc n) p h
      ≡ (if (bucket_at n p h == n - p) && (h / p % 2 == 1) then n else bucket_at n p h)
unfolding bucket_at
bucket_at-grow n p h pos lt le = ground (arith, low_bits p h pos)

bucket_at-double :
    (n p h : ℕ)
    → 0 < p
    → suc n ≡ p * 2
    → bucket_at (suc n) (p * 2) h
      ≡ (if (bucket_at n p h == n - p) && (h / p % 2 == 1) then n else bucket_at n p h)
unfolding bucket_at
bucket_at-double n p h pos e = ground (arith, low_bits p h pos)

IsBase-unique : (a b n : ℕ) → IsBase n (2 ^ a) → IsBase n (2 ^ b) → a ≡ b
IsBase-unique zero zero n ha hb = refl
IsBase-unique zero (suc b) n ha hb = absurd (omega (arith, ha, hb, pow-suc b, pow_pos b))
IsBase-unique (suc a) zero n ha hb = absurd (omega (arith, ha, hb, pow-suc a, pow_pos a))
IsBase-unique (suc a) (suc b) n ha hb =
    ap suc (IsBase-unique a b (n / 2) (omega (arith, ha, pow-suc a)) (omega (arith, hb, pow-suc b)))

-- When a directory of at least one and less than 2 ^ 64 - 1 buckets grows by one, a hash keeps its
-- bucket, but for the hashes of the bucket that is next to split whose splitting bit is set: those
-- go to the new bucket.
pub bucket_index-suc :
    (n h : ℕ)
    → 0 < n
    → suc n < 2 ^ 64
    → bucket_index (suc n) h ≡ (
        if (bucket_index n h == next_split_bucket n) && (hash_bit h (split_bit n) == 1)
        then n
        else bucket_index n h)
unfolding bucket_index next_split_bucket split_bit
bucket_index-suc n h pos b =
    let base = ilog2-IsBase n pos (omega (arith, b)) in
    let next = ilog2-IsBase (suc n) (omega arith) b in
    elim (Bool-cases (ltb (suc n) (2 ^ ilog2 n * 2))) [
      | inl same ↦
          let e : ilog2 (suc n) ≡ ilog2 n =
            IsBase-unique (ilog2 (suc n)) (ilog2 n) (suc n) next (ground (arith, base, same)) in
          rw e (
            unfold bucket_at in
            (bucket_at-grow n (2 ^ ilog2 n) h (pow_pos (ilog2 n)) (ltb→lt _ _ same) base.0))
      | inr double ↦
          let e : ilog2 (suc n) ≡ suc (ilog2 n) =
            IsBase-unique (ilog2 (suc n)) (suc (ilog2 n)) (suc n) next
              (ground (arith, base, double, pow-suc (ilog2 n))) in
          rw (e, pow_next (ilog2 n))
            (unfold bucket_at in
              (bucket_at-double n (2 ^ ilog2 n) h (pow_pos (ilog2 n))
                (ground (arith, base, double))))
    ]
