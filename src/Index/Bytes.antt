-- ===== src/Index/Bytes.antt =====
-- Byte slices as Rust's `Ord` and `starts_with` read them, and big-endian numbers.
use wavedb.Base.{
  ℕ, zero, suc, ◌+◌, ◌*◌, ◌/◌, ◌%◌, ◌^◌, ◌≤◌, ◌<◌, ◌≡◌, refl, sym, ap, ◌∙◌, arith, List, [], ◌∷◌,
  length, All, Bool, true, false, not, ltb, ◌==◌, ◌&&◌, ◌||◌,
}
use native.Mathlib.Nat.{div-add-mod', div-div-eq-div-mul, pow-suc}

-- `a < b` on slices: the first byte that differs decides, and a proper prefix is smaller.
unfoldable pub slice_lt : List ℕ → List ℕ → Bool
slice_lt xs [] = false
slice_lt [] (y ∷ ys) = true
slice_lt (x ∷ xs) (y ∷ ys) = ltb x y || (x == y && slice_lt xs ys)

unfoldable pub slice_eq : List ℕ → List ℕ → Bool
slice_eq [] [] = true
slice_eq [] (y ∷ ys) = false
slice_eq (x ∷ xs) [] = false
slice_eq (x ∷ xs) (y ∷ ys) = x == y && slice_eq xs ys

unfoldable pub starts_with : List ℕ → List ℕ → Bool
starts_with xs [] = true
starts_with [] (p ∷ ps) = false
starts_with (x ∷ xs) (p ∷ ps) = x == p && starts_with xs ps

-- `v.to_be_bytes()` of a value of `n` bytes.
unfoldable pub to_be_bytes : ℕ → ℕ → List ℕ
to_be_bytes zero v = []
to_be_bytes (suc n) v = (v / 256 ^ n % 256) ∷ to_be_bytes n v

unfoldable pub from_be_bytes : List ℕ → ℕ
from_be_bytes [] = 0
from_be_bytes (b ∷ bs) = b * 256 ^ length bs + from_be_bytes bs

abbrev pub IsByte : ℕ → Type 0
IsByte b = b < 256

abbrev pub AreBytes : List ℕ → Type 0
AreBytes = All IsByte

pub from_be_bytes-lt : (bs : List ℕ) → AreBytes bs → from_be_bytes bs < 256 ^ length bs
unfolding from_be_bytes
from_be_bytes-lt [] h = omega arith
from_be_bytes-lt (b ∷ bs) (hb, hbs) = grind (arith, from_be_bytes-lt bs hbs)

pub length-to_be_bytes : (n v : ℕ) → length (to_be_bytes n v) ≡ n
unfolding to_be_bytes
length-to_be_bytes zero v = refl
length-to_be_bytes (suc n) v = ap suc (length-to_be_bytes n v)

pub to_be_bytes-AreBytes : (n v : ℕ) → AreBytes (to_be_bytes n v)
unfolding to_be_bytes
to_be_bytes-AreBytes zero v = tt
to_be_bytes-AreBytes (suc n) v = (omega arith, to_be_bytes-AreBytes n v)

split_mod : (v m : ℕ) → 0 < m → v / m % 256 * m + v % m ≡ v % (m * 256)
split_mod v m h = omega (
  arith,
  div-add-mod' v m,
  ap (λ (t : ℕ). t * m) (div-add-mod' (v / m) 256),
  div-add-mod' v (m * 256),
  ap (λ (t : ℕ). t * (m * 256)) (div-div-eq-div-mul v m 256),
)

pow_pos : (n : ℕ) → 0 < 256 ^ n
pow_pos zero = omega arith
pow_pos (suc n) = omega (arith, pow_pos n)

pub from_be_bytes-to_be_bytes : (n v : ℕ) → from_be_bytes (to_be_bytes n v) ≡ v % 256 ^ n
unfolding from_be_bytes to_be_bytes
from_be_bytes-to_be_bytes zero v = omega arith
from_be_bytes-to_be_bytes (suc n) v = rw (length-to_be_bytes n v) (
    rw (from_be_bytes-to_be_bytes n v)
      (split_mod v (256 ^ n) (pow_pos n) ∙ ap (λ (t : ℕ). v % t) (sym (pow-suc 256 n))))

pub mul_step : (x y m : ℕ) → x < y → x * m + m ≤ y * m
mul_step x y m h = grind arith

lex_digits :
    (x y a b m : ℕ) → a < m → b < m → (ltb x y || (x == y && ltb a b)) ≡ ltb (x * m + a) (y * m + b)
lex_digits x y a b m ha hb = ground (arith, mul_step x y m, mul_step y x m)

-- Slices of one length are ordered as the big-endian numbers that they hold.
pub slice_lt-from_be_bytes :
    (xs ys : List ℕ)
    → AreBytes xs
    → AreBytes ys
    → length xs ≡ length ys
    → slice_lt xs ys ≡ ltb (from_be_bytes xs) (from_be_bytes ys)
unfolding slice_lt from_be_bytes
slice_lt-from_be_bytes [] [] hx hy e = refl
slice_lt-from_be_bytes [] (y ∷ ys) hx hy e = absurd (omega arith)
slice_lt-from_be_bytes (x ∷ xs) [] hx hy e = absurd (omega arith)
slice_lt-from_be_bytes (x ∷ xs) (y ∷ ys) (hx, hxs) (hy, hys) e =
    rw (slice_lt-from_be_bytes xs ys hxs hys (omega arith)) (
      rw (← same) (
        lex_digits x y (from_be_bytes xs) (from_be_bytes ys) (256 ^ length xs)
          (from_be_bytes-lt xs hxs) (rw same (from_be_bytes-lt ys hys))))
  where
    same : length xs ≡ length ys
    same = omega arith

-- The order laws of slices. `a ≤ b` is that `b < a` fails.
pub slice_lt_irrefl : (xs : List ℕ) → slice_lt xs xs ≡ false
unfolding slice_lt
slice_lt_irrefl [] = refl
slice_lt_irrefl (x ∷ xs) = ground (arith, slice_lt_irrefl xs)

pub slice_le_trans :
    (xs ys zs : List ℕ) → slice_lt ys xs ≡ false → slice_lt zs ys ≡ false → slice_lt zs xs ≡ false
unfolding slice_lt
slice_le_trans [] ys [] h k = refl
slice_le_trans [] ys (z ∷ zs) h k = refl
slice_le_trans (x ∷ xs) [] zs h k = cc
slice_le_trans (x ∷ xs) (y ∷ ys) [] h k = cc
slice_le_trans (x ∷ xs) (y ∷ ys) (z ∷ zs) h k = ground (arith, slice_le_trans xs ys zs)

pub slice_lt_of_le_lt :
    (xs ys zs : List ℕ) → slice_lt ys xs ≡ false → slice_lt ys zs ≡ true → slice_lt xs zs ≡ true
unfolding slice_lt
slice_lt_of_le_lt xs ys [] h k = cc
slice_lt_of_le_lt [] ys (z ∷ zs) h k = refl
slice_lt_of_le_lt (x ∷ xs) [] (z ∷ zs) h k = cc
slice_lt_of_le_lt (x ∷ xs) (y ∷ ys) (z ∷ zs) h k = ground (arith, slice_lt_of_le_lt xs ys zs)

pub slice_eq→eq : (xs ys : List ℕ) → slice_eq xs ys ≡ true → xs ≡ ys
unfolding slice_eq
slice_eq→eq [] [] h = refl
slice_eq→eq [] (y ∷ ys) h = cc
slice_eq→eq (x ∷ xs) [] h = cc
slice_eq→eq (x ∷ xs) (y ∷ ys) h = ground (arith, slice_eq→eq xs ys)

pub slice_eq_refl : (xs : List ℕ) → slice_eq xs xs ≡ true
unfolding slice_eq
slice_eq_refl [] = refl
slice_eq_refl (x ∷ xs) = ground (arith, slice_eq_refl xs)

-- A prefix is not greater.
pub starts_with→le : (xs ps : List ℕ) → starts_with xs ps ≡ true → slice_lt xs ps ≡ false
unfolding starts_with slice_lt
starts_with→le xs [] h = refl
starts_with→le [] (p ∷ ps) h = cc
starts_with→le (x ∷ xs) (p ∷ ps) h = ground (arith, starts_with→le xs ps)

pub slice_eq_of_lt :
    (xs ys : List ℕ) → slice_eq xs ys ≡ (not (slice_lt xs ys) && not (slice_lt ys xs))
unfolding slice_eq slice_lt
slice_eq_of_lt [] [] = refl
slice_eq_of_lt [] (y ∷ ys) = refl
slice_eq_of_lt (x ∷ xs) [] = refl
slice_eq_of_lt (x ∷ xs) (y ∷ ys) = rw (slice_eq_of_lt xs ys) (ground arith)
