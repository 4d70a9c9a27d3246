-- ===== src/Index/Key.antt =====
-- crates/wavedb-core/src/index/key.rs: `IndexKey`, the encodings whose byte order is the value order.
use wavedb.Base.{
  ℕ, zero, suc, ◌+◌, ◌-◌, ◌*◌, ◌/◌, ◌%◌, ◌^◌, ◌<◌, ◌≡◌, refl, sym, ◌∙◌, arith, List, [], ◌∷◌, ◌++◌,
  Bool, true, false, ltb, ◌==◌, ◌&&◌, ◌||◌, All, drop, if◌then◌else◌, length,
}
use native.Mathlib.Nat.{mod-eq_of_lt, pow-suc}
use wavedb.Ids.Id.{bit}
use wavedb.Ids.LocalId
use wavedb.Ids.LocalId.{LocalId}
use wavedb.Ids.Laws.{lt_local}
use wavedb.Index.Bytes.{
  slice_lt, slice_eq, slice_eq_of_lt, to_be_bytes, from_be_bytes-to_be_bytes, length-to_be_bytes,
  to_be_bytes-AreBytes, slice_lt-from_be_bytes,
}

-- `index_key_unsigned!` at a type of `n` bytes.
unfoldable pub unsigned_key : ℕ → ℕ → List ℕ
unsigned_key n v = to_be_bytes n v

-- `index_key_signed!`: the two's complement pattern with its top bit flipped.
unfoldable pub signed_key : ℕ → ℕ → List ℕ
signed_key n pattern =
    let bias = 256 ^ n / 2 in
    to_be_bytes n (if ltb pattern bias then pattern + bias else pattern - bias)

unfoldable pub bool_key : Bool → List ℕ
bool_key b = bit b ∷ []

-- The low six bytes of the `u64`.
unfoldable pub u48_key : ℕ → List ℕ
u48_key v = drop 2 (to_be_bytes 8 v)

unfoldable pub local_id_key : LocalId → List ℕ
local_id_key l =
    to_be_bytes 8 l.key ++ to_be_bytes 2 (bit (LocalId.flag l) * 2 ^ 15 + LocalId.salt l)

-- `str`: the bytes, then 0.
unfoldable pub str_key : List ℕ → List ℕ
str_key s = s ++ (0 ∷ [])

-- Unsigned keys compare as their values.
pub unsigned_key_order :
    (n a b : ℕ)
    → a < 256 ^ n
    → b < 256 ^ n
    → slice_lt (unsigned_key n a) (unsigned_key n b) ≡ ltb a b
unfolding unsigned_key
unsigned_key_order n a b ha hb =
    slice_lt-from_be_bytes (to_be_bytes n a) (to_be_bytes n b) (to_be_bytes-AreBytes n a)
      (to_be_bytes-AreBytes n b) (length-to_be_bytes n a ∙ sym (length-to_be_bytes n b))
    ∙ rw (from_be_bytes-to_be_bytes n a, from_be_bytes-to_be_bytes n b)
        (rw (mod-eq_of_lt ha, mod-eq_of_lt hb))

-- The order of the signed numbers that two patterns stand for: negative patterns have the top bit.
abbrev pub signed_lt : ℕ → ℕ → ℕ → Bool
signed_lt n a b =
    let bias = 256 ^ n / 2 in if ltb a bias then ltb a b && ltb b bias else (ltb b bias || ltb a b)

half_pow : (n : ℕ) → 0 < n → 256 ^ n / 2 + 256 ^ n / 2 ≡ 256 ^ n
half_pow zero h = absurd (omega arith)
half_pow (suc n) h = rw (pow-suc 256 n) (omega arith)

flipped-lt : (a h m : ℕ) → h + h ≡ m → a < m → (if ltb a h then a + h else a - h) < m
flipped-lt a h m e ha = ground arith

flipped_order :
    (a b h m : ℕ)
    → h + h ≡ m
    → a < m
    → b < m
    → ltb (if ltb a h then a + h else a - h) (if ltb b h then b + h else b - h)
      ≡ (if ltb a h then ltb a b && ltb b h else (ltb b h || ltb a b))
flipped_order a b h m e ha hb = ground arith

-- The keys of signed numbers of at least one byte compare, byte by byte, as the signed numbers.
pub signed_key_order :
    (n a b : ℕ)
    → 0 < n
    → a < 256 ^ n
    → b < 256 ^ n
    → slice_lt (signed_key n a) (signed_key n b) ≡ signed_lt n a b
unfolding signed_key unsigned_key
signed_key_order n a b pos ha hb =
    unsigned_key_order n _ _ (flipped-lt a (256 ^ n / 2) (256 ^ n) (half_pow n pos) ha)
      (flipped-lt b (256 ^ n / 2) (256 ^ n) (half_pow n pos) hb)
    ∙ flipped_order a b (256 ^ n / 2) (256 ^ n) (half_pow n pos) ha hb

slice_lt-nil : (xs : List ℕ) → slice_lt xs [] ≡ false
unfolding slice_lt
slice_lt-nil [] = refl
slice_lt-nil (x ∷ xs) = refl

-- String keys compare as the strings.
pub str_key_order : (s t : List ℕ) → slice_lt (str_key s) (str_key t) ≡ slice_lt s t
unfolding str_key slice_lt
str_key_order [] [] = refl
str_key_order [] (y ∷ []) = ground arith
str_key_order [] (y ∷ z ∷ ys) = ground arith
str_key_order (x ∷ xs) [] = ground (arith, slice_lt-nil (xs ++ (0 ∷ [])))
str_key_order (x ∷ xs) (y ∷ ys) = rw (str_key_order xs ys)

-- A composite key: behind parts of one length the second parts decide.
pub slice_lt-append :
    (xs ys us vs : List ℕ)
    → length xs ≡ length ys
    → slice_lt (xs ++ us) (ys ++ vs) ≡ (slice_lt xs ys || (slice_eq xs ys && slice_lt us vs))
unfolding slice_lt slice_eq
slice_lt-append [] [] us vs e = refl
slice_lt-append [] (y ∷ ys) us vs e = absurd (omega arith)
slice_lt-append (x ∷ xs) [] us vs e = absurd (omega arith)
slice_lt-append (x ∷ xs) (y ∷ ys) us vs e =
    ground (arith, slice_lt-append xs ys us vs (omega arith))

-- In a composite key that begins with a string the string decides, then the rest, where no byte of
-- the strings is 0.
pub str_key-append_order :
    (s t us vs : List ℕ)
    → All (λ b. 0 < b) s
    → All (λ b. 0 < b) t
    → slice_lt (str_key s ++ us) (str_key t ++ vs)
      ≡ (slice_lt s t || (slice_eq s t && slice_lt us vs))
unfolding str_key slice_lt slice_eq
str_key-append_order [] [] us vs hs ht = refl
str_key-append_order [] (y ∷ ys) us vs hs (hy, hys) = ground arith
str_key-append_order (x ∷ xs) [] us vs (hx, hxs) ht = ground arith
str_key-append_order (x ∷ xs) (y ∷ ys) us vs (hx, hxs) (hy, hys) =
    rw (str_key-append_order xs ys us vs hxs hys) (ground arith)

-- A string with a 0 byte at its end is greater than the string without it, yet its composite key
-- sorts first whenever the key behind the shorter string does not begin with 0.
pub str_key_zero_misorders :
    (s us vs : List ℕ) (b : ℕ)
    → (slice_lt s (s ++ (0 ∷ [])) ≡ true)
      × (slice_lt (str_key (s ++ (0 ∷ [])) ++ us) (str_key s ++ (suc b ∷ vs)) ≡ true)
unfolding str_key slice_lt
str_key_zero_misorders [] us vs b = (refl, ground arith)
str_key_zero_misorders (x ∷ xs) us vs b = ground (arith, str_key_zero_misorders xs us vs b)

lower_flag_salt : (n : ℕ) → n < 2 ^ 16 → bit (n / 2 ^ 15 % 2 == 1) * 2 ^ 15 + n % 2 ^ 15 ≡ n
lower_flag_salt n h = ground arith

-- The keys of local ids whose fields have their widths compare, byte by byte, as the local ids.
pub local_id_key_order :
    (a b : LocalId)
    → a.key < 256 ^ 8
    → b.key < 256 ^ 8
    → a.lower < 256 ^ 2
    → b.lower < 256 ^ 2
    → slice_lt (local_id_key a) (local_id_key b) ≡ lt_local a b
unfolding local_id_key unsigned_key LocalId.flag LocalId.salt
local_id_key_order a b ka kb la lb =
    rw (lower_flag_salt a.lower la, lower_flag_salt b.lower lb)
      (slice_lt-append (to_be_bytes 8 a.key) (to_be_bytes 8 b.key) _ _
          (length-to_be_bytes 8 a.key ∙ sym (length-to_be_bytes 8 b.key))
        ∙ rw
            (
              slice_eq_of_lt (to_be_bytes 8 a.key) (to_be_bytes 8 b.key),
              unsigned_key_order 8 a.key b.key ka kb,
              unsigned_key_order 8 b.key a.key kb ka,
              unsigned_key_order 2 a.lower b.lower la lb,
            )
            (ground arith))
