-- ===== src/Wire/Error.antt =====
-- crates/wavedb-wire/src/lib.rs: the faults of the codec and its `Result`.
use wavedb.Base.{ℕ, ◌≡◌, ◌≢◌, refl}

-- `enum Error`.
pub data Error : Type 0 where
  unexpected_eof : Error
  utf8 : Error
  invalid_char : ℕ → Error
  invalid_tag : ℕ → Error
  invalid_bool : ℕ → Error
  crc_mismatch : ℕ → ℕ → Error

-- `Result<T>`. `stuck` is no Rust value: the loop of a `Vec` decode ran out of fuel.
pub data Result {ℓ} (A : Type ℓ) : Type ℓ where
  ok : A → Result A
  err : Error → Result A
  stuck : Result A

-- The operator `?`.
infixl 5 ◌>>=◌
abbrev pub ◌>>=◌ {ℓ κ} : {A : Type ℓ} {B : Type κ} → Result A → (A → Result B) → Result B
ok a >>= f = f a
err e >>= f = err e
stuck >>= f = stuck

pub >>=-eq {ℓ κ} :
    {A : Type ℓ} {B : Type κ} (m : Result A) (f : A → Result B) {a : A} {r : Result B}
    → m ≡ ok a
    → f a ≡ r
    → (m >>= f) ≡ r
>>=-eq m f p q = rw p q

pub bind-ne-stuck {ℓ κ} :
    {A : Type ℓ} {B : Type κ} (m : Result A) (f : A → Result B)
    → m ≢ stuck
    → ((a : A) → f a ≢ stuck)
    → (m >>= f) ≢ stuck
bind-ne-stuck (ok a) f hm hf = hf a
bind-ne-stuck (err e) f hm hf = λ p. cc
bind-ne-stuck stuck f hm hf = λ p. hm refl
