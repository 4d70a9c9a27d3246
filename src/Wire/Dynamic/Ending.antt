-- ===== src/Wire/Dynamic/Ending.antt =====
-- When the decodes of `String`, `Option<T>` and `Vec<T>` end.
use wavedb.Base.{
  ℕ, zero, suc, ◌+◌, ◌≤◌, ◌<◌, ◌≡◌, ◌≢◌, refl, arith, List, [], ◌∷◌, ◌++◌, length, ltb, Bool-cases,
  inl, inr, lt→ltb, le→ltb, take as take_list, drop,
}
use wavedb.Wire.Error.{ok, stuck, bind-ne-stuck}
use wavedb.Wire.Cursor.{Cursor, new, take, u8, u32, to_le_bytes}
use wavedb.Wire.Codec.{WaveWire, from_wire, to_wire}
use wavedb.Wire.Codec.Laws.{Ends}
use wavedb.Wire.Scalars.{unit}
use wavedb.Wire.Dynamic.{
  string, vec, vec_loop, vec_heap_size, vec_encode_heap, option, option_payload,
}

pub take-ne-stuck : (n : ℕ) (c : Cursor) → take n c ≢ stuck
unfolding take
take-ne-stuck n c h = ground arith

pub u8-ne-stuck : (c : Cursor) → u8 c ≢ stuck
unfolding u8
u8-ne-stuck c = bind-ne-stuck (take 1 c) _ (take-ne-stuck 1 c) λ t e. cc

pub u32-ne-stuck : (c : Cursor) → u32 c ≢ stuck
unfolding u32
u32-ne-stuck c = bind-ne-stuck (take 4 c) _ (take-ne-stuck 4 c) λ t e. cc

pub string-Ends : Ends string
unfolding string
string-Ends sc hc =
    bind-ne-stuck (u32 sc) _ (u32-ne-stuck sc)
      λ t. bind-ne-stuck (take t.0 hc) _ (take-ne-stuck t.0 hc) λ u e. ground arith

module _ {ℓ} {A : Type ℓ} (w : WaveWire A) where
  option_payload-ne-stuck :
      Ends w → (flag : ℕ) (sc hc : Cursor) → option_payload w flag sc hc ≢ stuck
  option_payload-ne-stuck ends zero sc hc e = cc
  option_payload-ne-stuck ends (suc n) sc hc e =
      bind-ne-stuck (take w.stack_size hc) _ (take-ne-stuck w.stack_size hc)
        (λ t. bind-ne-stuck (w.decode (new t.0) t.1) _ (ends (new t.0) t.1) λ u p. cc) e

  pub option-Ends : Ends w → Ends (option w)
  unfolding option
  option-Ends ends sc hc =
      bind-ne-stuck (u8 sc) _ (u8-ne-stuck sc) λ t. option_payload-ne-stuck ends t.0 t.1 hc

  vec_loop-ne-stuck :
      Ends w
      → 0 < w.stack_size
      → (fuel : ℕ) (region : List ℕ) (cur : ℕ) (out : List A) → length region ≤ cur + fuel
      → vec_loop w fuel region cur out ≢ stuck
  unfolding vec_loop
  vec_loop-ne-stuck ends pos zero region cur out h =
      rw (le→ltb cur (length region) (omega arith)) (λ e. cc)
  vec_loop-ne-stuck ends pos (suc fuel) region cur out h =
      elim (Bool-cases (ltb cur (length region))) [
        | inr done ↦ rw done (λ e. cc)
        | inl more ↦ rw more (elim (Bool-cases (ltb (length region) (cur + w.stack_size))) [
          | inl short ↦ rw short (λ e. cc)
          | inr fits ↦ rw fits (
              bind-ne-stuck
                (w.decode (new (take_list w.stack_size (drop cur region)))
                  (new (drop (cur + w.stack_size) region)))
                _ (ends _ _)
                λ t.
                  vec_loop-ne-stuck ends pos fuel region (cur + (w.stack_size + t.2.pos))
                    (out ++ (t.0 ∷ [])) (omega arith))
        ])
      ]

  -- The loop of a `Vec` decode ends on all input where the decode of the elements does and their
  -- stack is not empty.
  pub vec-Ends : Ends w → 0 < w.stack_size → Ends (vec w)
  unfolding vec
  vec-Ends ends pos sc hc = bind-ne-stuck (u32 sc) _ (u32-ne-stuck sc) λ t.
      bind-ne-stuck (take t.0 hc) _ (take-ne-stuck t.0 hc) λ u.
        bind-ne-stuck (vec_loop w (length u.0) u.0 0 []) _
          (vec_loop-ne-stuck ends pos (length u.0) u.0 0 [] (omega arith)) λ v e. cc

-- On a region that is not empty, the loop of a `Vec<()>` decode does not end, whatever the fuel.
pub vec_loop-unit :
    (fuel : ℕ) (region : List ℕ) (cur : ℕ) (out : List (Unit {0}))
    → cur < length region
    → vec_loop unit fuel region cur out ≡ stuck
unfolding vec_loop unit new
vec_loop-unit zero region cur out h = rw (lt→ltb cur (length region) h)
vec_loop-unit (suc fuel) region cur out h =
    rw (lt→ltb cur (length region) h, le→ltb (length region) (cur + 0) (omega arith))
      (vec_loop-unit fuel region (cur + (0 + 0)) (out ++ (tt ∷ [])) (omega arith))

vec_heap_size-unit : (vs : List (Unit {0})) → vec_heap_size unit vs ≡ 0
unfolding vec_heap_size unit
vec_heap_size-unit [] = refl
vec_heap_size-unit (v ∷ vs) = omega (arith, vec_heap_size-unit vs)

vec_encode_heap-unit : (vs : List (Unit {0})) → vec_encode_heap unit vs ≡ []
unfolding vec_encode_heap unit
vec_encode_heap-unit [] = refl
vec_encode_heap-unit (v ∷ vs) = vec_encode_heap-unit vs

-- Every `Vec<()>` reads back from its encoding as the empty vector.
pub vec-unit_reads_empty :
    (vs : List (Unit {0})) → from_wire (vec unit) (to_wire (vec unit) vs) ≡ ok []
unfolding from_wire to_wire vec to_le_bytes new
vec-unit_reads_empty vs =
    rw (vec_heap_size-unit vs, vec_encode_heap-unit vs) (unfold u32 vec_loop in refl)
