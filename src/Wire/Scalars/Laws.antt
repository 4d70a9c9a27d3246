-- ===== src/Wire/Scalars/Laws.antt =====
-- The fixed-width implementations keep the trait's promise, and their decodes end.
use wavedb.Base.{ℕ, ◌<◌, ◌^◌, ◌≡◌, refl, ap, sym, ◌∙◌, Bool, true, false, arith}
use wavedb.Wire.Error.{Result, ok, stuck}
use wavedb.Wire.Cursor.{Cursor, take, u8, u32, to_le_bytes}
use wavedb.Wire.Cursor.Laws.{
  advance, advance-zero, take_next, u8_next, u32_next, length-to_le_bytes,
  from_le_bytes-to_le_bytes,
}
use wavedb.Wire.Codec.Laws.{IsWire, Ends}
use wavedb.Wire.Scalars.{uint, bool, bool_byte, bool_of_byte, is_scalar, char, unit}

-- The heap cursor that a scalar hands back.
same_heap {ℓ} :
    {A : Type ℓ} (v : A) (sc hc : Cursor)
    → ◌≡◌ {A = Result (A × Cursor × Cursor)} (ok (v, sc, hc)) (ok (v, sc, advance 0 hc))
same_heap v sc hc = ap (λ c. ok (v, sc, c)) (sym (advance-zero hc))

pub uint-IsWire : (n : ℕ) → IsWire (uint n) (λ v. v < 256 ^ n)
unfolding uint
uint-IsWire n = record {
  length_stack = λ v. length-to_le_bytes n v;
  length_heap = λ v. refl;
  decode_encode = λ v sc hc s h fits es eh.
      rw (take_next n sc (to_le_bytes n v) s es (length-to_le_bytes n v))
        (rw (from_le_bytes-to_le_bytes n v fits) (same_heap v (advance n sc) hc));
}

pub bool-IsWire : IsWire bool (λ b. Unit)
unfolding bool
bool-IsWire = record {
  length_stack = λ b. refl;
  length_heap = λ b. refl;
  decode_encode = λ b sc hc s h fits es eh.
      rw (u8_next (bool_byte b) sc s es) (rw (reads b) (same_heap b (advance 1 sc) hc));
}
  where
    reads : (b : Bool) → bool_of_byte (bool_byte b) ≡ ok b
    reads true = refl
    reads false = refl

pub char-IsWire : IsWire char (λ c. is_scalar c ≡ true)
unfolding char
char-IsWire = record {
  length_stack = λ c. length-to_le_bytes 4 c;
  length_heap = λ c. refl;
  decode_encode = λ c sc hc s h fits es eh.
      rw (u32_next c sc s (narrow c fits) es) (rw fits (same_heap c (advance 4 sc) hc));
}
  where
    narrow : (c : ℕ) → is_scalar c ≡ true → c < 2 ^ 32
    narrow c h = ground arith

pub unit-IsWire : IsWire unit (λ v. Unit)
unfolding unit
unit-IsWire = record {
  length_stack = λ v. refl;
  length_heap = λ v. refl;
  decode_encode = λ v sc hc s h fits es eh.
      ap (λ c. ok (v, c, hc)) (sym (advance-zero sc)) ∙ same_heap v (advance 0 sc) hc;
}

take-ne-stuck : (n : ℕ) (c : Cursor) → take n c ≡ stuck → ⊥
unfolding take
take-ne-stuck n c h = ground arith

pub uint-Ends : (n : ℕ) → Ends (uint n)
unfolding uint
uint-Ends n sc hc h = ground (arith, take-ne-stuck n sc)

pub bool-Ends : Ends bool
unfolding bool u8
bool-Ends sc hc h = ground (arith, take-ne-stuck 1 sc)

pub char-Ends : Ends char
unfolding char u32
char-Ends sc hc h = ground (arith, take-ne-stuck 4 sc)
