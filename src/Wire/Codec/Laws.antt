-- ===== src/Wire/Codec/Laws.antt =====
-- What a `WaveWire` implementation promises: the doc of the trait, as a record of laws.
use wavedb.Base.{ℕ, ◌≡◌, ◌≢◌, List, ◌++◌, length}
use wavedb.Wire.Error.{ok, stuck}
use wavedb.Wire.Cursor.{Cursor}
use wavedb.Wire.Cursor.Laws.{rest, advance}
use wavedb.Wire.Codec.{WaveWire}

-- `Fits v` says that the lengths in `v` are below 2 ^ 32 and that its numbers have their width.
pub record IsWire {ℓ} {A : Type ℓ} (w : WaveWire A) (Fits : A → Type 0) : Type ℓ where
  pub length_stack : (v : A) → length (w.encode_stack v) ≡ w.stack_size
  pub length_heap : (v : A) → length (w.encode_heap v) ≡ w.heap_size v
  pub decode_encode :
      (v : A) (sc hc : Cursor) (s h : List ℕ)
      → Fits v
      → rest sc ≡ w.encode_stack v ++ s
      → rest hc ≡ w.encode_heap v ++ h
      → w.decode sc hc ≡ ok (v, advance w.stack_size sc, advance (w.heap_size v) hc)

-- The decode ends on all input.
abbrev pub Ends {ℓ} : {A : Type ℓ} → WaveWire A → Type ℓ
Ends w = (sc hc : Cursor) → w.decode sc hc ≢ stuck
