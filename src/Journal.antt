-- ===== src/Journal.antt =====
-- crates/wavedb-storage/src/journal.rs: `Journal`, the write-ahead log, over the bytes of its file.
-- A file operation succeeds and does what it says; the clock of the last barrier is left out. The
-- frame type and its codec are parameters here, which `Journal.Frame` fills.
pub mod Replay
pub mod Append
pub mod Torn
pub mod Frame
pub mod Crash
pub mod Ending
use wavedb.Base.{
  ℕ, zero, suc, ◌+◌, ◌%◌, ◌^◌, List, [], ◌∷◌, ◌++◌, Bool, ◌&&◌, leb, ltb, length, take, drop,
  if◌then◌else◌,
}
use wavedb.Wire.Error.{Result, ok, err, stuck}
use wavedb.Wire.Cursor.{to_le_bytes, from_le_bytes}
use wavedb.Wire.Codec.{WaveWire, to_wire_checked, from_wire_checked}

abbrev pub frame_prefix : ℕ
frame_prefix = 4

-- `file` holds the bytes of the file, `end` the offset behind the last whole frame.
pub record Journal : Type 0 where
  pub file : List ℕ
  pub ts : ℕ
  pub end : ℕ
  pub syncs : ℕ

unfoldable pub create : ℕ → Journal
create ts = record { file = []; ts = ts; end = 0; syncs = 0 }

unfoldable pub open_file : List ℕ → ℕ → Journal
open_file file ts = record { file = file; ts = ts; end = length file; syncs = 0 }

-- `write_all_at`: the bytes stand from `offset` on, the file's others stay.
abbrev pub write_all_at : List ℕ → ℕ → List ℕ → List ℕ
write_all_at file offset buf = take offset file ++ (buf ++ drop (offset + length buf) file)

unfoldable pub sync : Journal → Journal
sync j = record j { syncs = j.syncs + 1 }

module _ {ℓ} {F : Type ℓ} (crc : List ℕ → ℕ) (w : WaveWire F) where
  -- The length prefix and the payload of one frame: `payload.len() as u32` wraps.
  unfoldable pub frame_bytes : F → List ℕ
  frame_bytes frame =
      let payload = to_wire_checked crc w frame in
      to_le_bytes frame_prefix (length payload % 2 ^ 32) ++ payload

  unfoldable pub write_frame : F → Journal → Journal
  unfolding frame_bytes
  write_frame frame j =
      let buf = frame_bytes frame in
      record j { file = write_all_at j.file j.end buf; end = j.end + length buf }

  unfoldable pub append : F → Journal → Journal
  unfolding write_frame sync
  append frame j = sync (write_frame frame j)

  unfoldable pub append_deferred : F → Journal → Journal
  unfolding write_frame
  append_deferred frame j = write_frame frame j

  -- A frame that reads is pushed in front of those behind it, another ends the log at `pos`.
  abbrev pub push : Result F → Result (List F × ℕ) → ℕ → Result (List F × ℕ)
  push (ok frame) (ok (frames, good_end)) pos = ok (frame ∷ frames, good_end)
  push (ok frame) (err e) pos = err e
  push (ok frame) stuck pos = stuck
  push (err e) rest pos = ok ([], pos)
  push stuck rest pos = stuck

  -- The loop of `replay` from `pos` on: the frames and the end of the last whole one. A length is
  -- below 2 ^ 32, so the sum that `checked_add` guards does not pass a `usize` of 64 bits.
  unfoldable pub replay_loop : ℕ → List ℕ → ℕ → Result (List F × ℕ)
  replay_loop zero buf pos = stuck
  replay_loop (suc fuel) buf pos =
      let len = from_le_bytes (take frame_prefix (drop pos buf)) in
      let body_start = pos + frame_prefix in
      let rest = replay_loop fuel buf (body_start + len) in
      if leb body_start (length buf) && leb (body_start + len) (length buf)
      then push (from_wire_checked crc w (take len (drop body_start buf))) rest pos
      else ok ([], pos)

  -- `set_len` and a barrier, if the last whole frame ends before the file does.
  abbrev pub cut_tail : Result (List F × ℕ) → Journal → Result (List F × Journal)
  cut_tail (ok (frames, good_end)) j = ok (
    frames,
    if ltb good_end j.end then record j { file = take good_end j.file; end = good_end } else j,
  )
  cut_tail (err e) j = err e
  cut_tail stuck j = stuck

  -- A round of the loop takes a prefix of four bytes at least, so as many rounds as there are bytes,
  -- and one, are enough.
  unfoldable pub replay : Journal → Result (List F × Journal)
  unfolding replay_loop
  replay j = cut_tail (replay_loop (length j.file + 1) (take j.end j.file) 0) j
