-- ===== src/Journal/Ending.antt =====
-- `replay` ends on all bytes.
use wavedb.Base.{
  ℕ, zero, suc, ◌+◌, ◌<◌, ◌≢◌, refl, inl, inr, arith, List, length, take, drop, length-take,
  Bool-cases, leb, ◌&&◌,
}
use wavedb.Ids.Id.{id_wire}
use wavedb.Wire.Error.{Result, ok, err, stuck}
use wavedb.Wire.Cursor.{from_le_bytes}
use wavedb.Wire.Codec.{WaveWire, from_wire_checked}
use wavedb.Wire.Codec.Laws.{Ends}
use wavedb.Wire.Scalars.{uint}
use wavedb.Wire.Scalars.Laws.{uint-Ends}
use wavedb.Wire.Dynamic.{option}
use wavedb.Wire.Dynamic.Ending.{vec-Ends, option-Ends}
use wavedb.Wire.Compose.{pair}
use wavedb.Wire.Compose.Laws.{pair-Ends}
use wavedb.Wire.Derive.{derive_enum}
use wavedb.Wire.Derive.Ending.{derive_struct-Ends, derive_enum-Ends, from_wire_checked-ne-stuck}
use wavedb.Journal.{Journal, replay_loop, replay, push, cut_tail}
use wavedb.Journal.Frame.{
  write_field_wire, write_variants, write_wire, commit_wire, frame_field_wire, frame_variants,
  journal_frame_wire, bytes_wire,
}

module _ {ℓ} {F : Type ℓ} (crc : List ℕ → ℕ) (w : WaveWire F) (ends : Ends w) where
  push-ne-stuck :
      (r : Result F) (rest : Result (List F × ℕ)) (pos : ℕ)
      → r ≢ stuck
      → rest ≢ stuck
      → push crc w r rest pos ≢ stuck
  push-ne-stuck (ok f) (ok (fs, e)) pos h k = λ x. cc
  push-ne-stuck (ok f) (err e) pos h k = λ x. cc
  push-ne-stuck (ok f) stuck pos h k = λ x. k refl
  push-ne-stuck (err e) rest pos h k = λ x. cc
  push-ne-stuck stuck rest pos h k = λ x. h refl

  replay_loop-ne-stuck :
      (fuel : ℕ) (buf : List ℕ) (pos : ℕ)
      → length buf < pos + fuel
      → 0 < fuel
      → replay_loop crc w fuel buf pos ≢ stuck
  unfolding replay_loop
  replay_loop-ne-stuck zero buf pos h p = ground arith
  replay_loop-ne-stuck (suc fuel) buf pos h p =
      let len = from_le_bytes (take 4 (drop pos buf)) in
      elim (Bool-cases (leb (pos + 4) (length buf) && leb (pos + 4 + len) (length buf))) [
        | inl whole ↦ rw whole (
            push-ne-stuck (from_wire_checked crc w (take len (drop (pos + 4) buf)))
              (replay_loop crc w fuel buf (pos + 4 + len)) pos
              (from_wire_checked-ne-stuck w ends crc (take len (drop (pos + 4) buf)))
              (replay_loop-ne-stuck fuel buf (pos + 4 + len) (ground arith) (ground arith)))
        | inr torn ↦ rw torn (λ e. cc)
      ]

  cut_tail-ne-stuck :
      (r : Result (List F × ℕ)) (j : Journal) → r ≢ stuck → cut_tail crc w r j ≢ stuck
  cut_tail-ne-stuck (ok (fs, e)) j h = λ x. cc
  cut_tail-ne-stuck (err x) j h = λ y. cc
  cut_tail-ne-stuck stuck j h = λ x. h refl

  replay-ne-stuck : (j : Journal) → replay crc w j ≢ stuck
  unfolding replay
  replay-ne-stuck j =
      cut_tail-ne-stuck (replay_loop crc w (length j.file + 1) (take j.end j.file) 0) j (
        replay_loop-ne-stuck (length j.file + 1) (take j.end j.file) 0
          (omega (arith, length-take j.end j.file)) (omega arith))

bytes-Ends : Ends bytes_wire
unfolding uint
bytes-Ends = vec-Ends (uint 1) (uint-Ends 1) (omega arith)

id_wire-Ends : Ends id_wire
unfolding id_wire
id_wire-Ends =
    derive_struct-Ends (λ raw. record { raw = raw }) (λ id. id.raw) (uint 16) (uint-Ends 16)

write_field-Ends : (t : ℕ) → Ends (write_field_wire t)
write_field-Ends zero = pair-Ends id_wire bytes_wire id_wire-Ends bytes-Ends
write_field-Ends (suc zero) = pair-Ends (uint 8) id_wire (uint-Ends 8) id_wire-Ends
write_field-Ends (suc (suc t)) =
    pair-Ends (uint 8) (pair id_wire (option bytes_wire)) (uint-Ends 8)
      (pair-Ends id_wire (option bytes_wire) id_wire-Ends (option-Ends bytes_wire bytes-Ends))

write_wire-Ends : Ends write_wire
unfolding write_wire
write_wire-Ends = derive_enum-Ends write_variants write_field-Ends

write_size : 0 < write_wire.stack_size
unfolding write_wire derive_enum
write_size = omega arith

frame_field-Ends : (t : ℕ) → Ends (frame_field_wire t)
unfolding commit_wire
frame_field-Ends zero = vec-Ends write_wire write_wire-Ends write_size
frame_field-Ends (suc t) =
    derive_struct-Ends (λ p. record { journal_ts = p.0; head = p.1 }) (λ c. (c.journal_ts, c.head))
      (pair (uint 8) (uint 8)) (pair-Ends (uint 8) (uint 8) (uint-Ends 8) (uint-Ends 8))

journal_frame_wire-Ends : Ends journal_frame_wire
unfolding journal_frame_wire
journal_frame_wire-Ends = derive_enum-Ends frame_variants frame_field-Ends

-- `replay` of the journal's own frames ends on a file of any bytes, whatever the checksum: its fuel
-- is enough.
pub replay_ends : (crc : List ℕ → ℕ) (j : Journal) → replay crc journal_frame_wire j ≢ stuck
replay_ends crc j = replay-ne-stuck crc journal_frame_wire journal_frame_wire-Ends j
