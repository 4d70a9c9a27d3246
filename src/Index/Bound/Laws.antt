-- ===== src/Index/Bound/Laws.antt =====
-- `created_at_range` is exact: a `CREATED_AT` lies in the range when its key lies in the bound.
use wavedb.Base.{
  ℕ, zero, suc, ◌+◌, ◌-◌, ◌*◌, ◌^◌, ◌≤◌, ◌<◌, ◌≡◌, refl, ap, arith, List, [], ◌∷◌, ◌++◌, length,
  replicate, length-replicate, length-append, subst, Bool, ◌&&◌, leb, ◌==◌, some,
}
use native.Mathlib.Nat.{pow-suc, sub-zero}
use wavedb.Index.Bytes.{
  starts_with, from_be_bytes, AreBytes, slice_eq_of_lt, slice_lt-from_be_bytes, from_be_bytes-lt,
  mul_step,
}
use wavedb.Index.Bound.{Bound, all, exact, range, prefix, contains, padded, created_at_range}

-- The bytes of a bound are bytes.
abbrev pub BoundFits : Bound → Type 0
BoundFits all = Unit
BoundFits (exact k) = AreBytes k
BoundFits (range lo hi) = AreBytes lo × AreBytes hi
BoundFits (prefix p) = AreBytes p

-- `n` lies in an inclusive range.
abbrev pub within : ℕ × ℕ → ℕ → Bool
within r n = leb r.0 n && leb n r.1

filled : ℕ → ℕ → List ℕ → List ℕ
filled fill n p = p ++ replicate (n - length p) fill

from_be_bytes-zeros : (n : ℕ) → from_be_bytes (replicate n 0x00) ≡ 0
unfolding from_be_bytes
from_be_bytes-zeros zero = refl
from_be_bytes-zeros (suc n) = omega (arith, from_be_bytes-zeros n)

from_be_bytes-ones : (n : ℕ) → from_be_bytes (replicate n 0xff) + 1 ≡ 256 ^ n
unfolding from_be_bytes
from_be_bytes-ones zero = refl
from_be_bytes-ones (suc n) =
    rw (length-replicate {A = ℕ} n 0xff, pow-suc 256 n) (omega (arith, from_be_bytes-ones n))

replicate-AreBytes : (n b : ℕ) → b < 256 → AreBytes (replicate n b)
replicate-AreBytes zero b h = tt
replicate-AreBytes (suc n) b h = (h, replicate-AreBytes n b h)

filled-AreBytes : (b n : ℕ) (p : List ℕ) → b < 256 → AreBytes p → AreBytes (filled b n p)
unfolding filled
filled-AreBytes b n [] h hp = replicate-AreBytes (n - 0) b h
filled-AreBytes b n (q ∷ ps) h (hq, hps) = (hq, go ps (n - length (q ∷ ps)) hps)
  where
    go : (ps : List ℕ) (k : ℕ) → AreBytes ps → AreBytes (ps ++ replicate k b)
    go [] k h' = replicate-AreBytes k b h
    go (x ∷ xs) k (hx, hxs) = (hx, go xs k hxs)

length-filled : (b n : ℕ) (p : List ℕ) → length p ≤ n → length (filled b n p) ≡ n
unfolding filled
length-filled b n p h =
    omega (arith, length-append p (replicate (n - length p) b), length-replicate (n - length p) b)

filled-lt :
    (b n : ℕ) (p : List ℕ)
    → b < 256
    → AreBytes p
    → length p ≤ n
    → from_be_bytes (filled b n p) < 256 ^ n
filled-lt b n p h hp room =
    subst (λ k. from_be_bytes (filled b n p) < 256 ^ k) (length-filled b n p room)
      (from_be_bytes-lt (filled b n p) (filled-AreBytes b n p h hp))

filled-cons :
    (b n q : ℕ) (ps : List ℕ)
    → length ps ≤ n
    → from_be_bytes (filled b (suc n) (q ∷ ps)) ≡ q * 256 ^ n + from_be_bytes (filled b n ps)
unfolding from_be_bytes
filled-cons b n q ps room = rw (step) (rw (length-filled b n ps room))
  where
    step : filled b (suc n) (q ∷ ps) ≡ q ∷ filled b n ps
    step = unfold filled in ap (λ k. q ∷ (ps ++ replicate k b)) shorter
      where
        shorter : suc n - suc (length ps) ≡ n - length ps
        shorter = omega arith

within_digits :
    (x q a lo hi m : ℕ)
    → a < m
    → lo < m
    → hi < m
    → (x == q && within (lo, hi) a) ≡ within (q * m + lo, q * m + hi) (x * m + a)
within_digits x q a lo hi m ha hl hh = ground (arith, mul_step x q m, mul_step q x m)

-- A key begins with `p` when it lies between `p` filled up with 0 and with 0xff.
starts_with_between :
    (xs p : List ℕ)
    → AreBytes xs
    → AreBytes p
    → length p ≤ length xs
    → starts_with xs p
      ≡ within
          (from_be_bytes (filled 0x00 (length xs) p), from_be_bytes (filled 0xff (length xs) p))
          (from_be_bytes xs)
unfolding starts_with
starts_with_between xs [] hx hp h =
    unfold filled in
    ground (
      arith,
      from_be_bytes-zeros (length xs - 0),
      from_be_bytes-ones (length xs - 0),
      from_be_bytes-lt xs hx,
      ap (λ (k : ℕ). 256 ^ k) (sub-zero (length xs)),
    )
starts_with_between [] (q ∷ ps) hx hp h = absurd (omega arith)
starts_with_between (x ∷ xs) (q ∷ ps) (hx, hxs) (hq, hps) h =
    rw
      (
        filled-cons 0x00 (length xs) q ps room,
        filled-cons 0xff (length xs) q ps room,
        starts_with_between xs ps hxs hps room,
      )
      (unfold from_be_bytes in
        within_digits x q (from_be_bytes xs) _ _ (256 ^ length xs) (from_be_bytes-lt xs hxs)
          (filled-lt 0x00 (length xs) ps (omega arith) hps room)
          (filled-lt 0xff (length xs) ps (omega arith) hps room))
  where
    room : length ps ≤ length xs
    room = omega arith

module _ (key : List ℕ) (eight : length key ≡ 8) (bytes : AreBytes key) where
  -- A range that `created_at_range` gives for a bound of bytes holds the number of an eight-byte
  -- key exactly when the bound contains the key.
  pub created_at_range-contains :
      (b : Bound) (r : ℕ × ℕ)
      → BoundFits b
      → created_at_range b ≡ some r
      → contains b key ≡ within r (from_be_bytes key)
  unfolding created_at_range contains filled
  created_at_range-contains all r fits e = cc
  created_at_range-contains (exact k) r fits e = ground (
    arith,
    slice_eq_of_lt key k,
    slice_lt-from_be_bytes key k bytes fits,
    slice_lt-from_be_bytes k key fits bytes,
  )
  created_at_range-contains (range lo hi) r fits e = ground (
    arith,
    slice_lt-from_be_bytes key lo bytes fits.0,
    slice_lt-from_be_bytes key hi bytes fits.1,
  )
  created_at_range-contains (prefix p) r fits e = ground (arith, between)
    where
      between :
          length p ≤ 8
          → starts_with key p
            ≡ within
                (from_be_bytes (padded 0x00 p), from_be_bytes (padded 0xff p))
                (from_be_bytes key)
      between h =
          subst
            (λ n.
              starts_with key p
              ≡ within (from_be_bytes (filled 0x00 n p), from_be_bytes (filled 0xff n p))
                  (from_be_bytes key))
            eight (starts_with_between key p bytes fits (rw eight h))
