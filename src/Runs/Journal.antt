-- ===== src/Runs/Journal.antt =====
-- The journal at a concrete input: two frames, the second cut off.
use wavedb.Base.{◌≢◌, ℕ, ◌+◌, ◌%◌, ◌^◌, ◌<◌, arith, List, [], ◌∷◌, take}
use wavedb.Ids.Id.{id_wire}
use wavedb.Wire.Cursor.{to_le_bytes}
use wavedb.Wire.Codec.{to_wire, to_wire_checked}
use wavedb.Wire.Scalars.{uint}
use wavedb.Wire.Dynamic.{vec, vec_heap_size, vec_encode_heap}
use wavedb.Wire.Compose.{pair}
use wavedb.Wire.Derive.{derive_struct, derive_enum, enum_heap_size}
use wavedb.Journal.{Journal, create, append, frame_bytes, write_frame, sync, replay, open_file}
use wavedb.Wire.Error.{stuck}
use wavedb.Journal.Replay.{IsWhole}
use wavedb.Journal.Append.{IsLog, append-IsLog, create-IsLog}
use wavedb.Journal.Torn.{append_crash_replay, Recovers}
use wavedb.Journal.Ending.{replay_ends}
use wavedb.Journal.Crash.{frame-IsWhole}
use wavedb.Journal.Frame.{
  remove, JournalFrame, batch, commit, journal_frame_wire, write_wire, commit_wire, FrameFits,
}

-- A checksum: the sum of the bytes, in 32 bits.
abbrev sum : List ℕ → ℕ
sum [] = 0
sum (b ∷ bytes) = b + sum bytes

abbrev checksum : List ℕ → ℕ
checksum bytes = sum bytes % 2 ^ 32

checksum_is_u32 : (bytes : List ℕ) → checksum bytes < 2 ^ 32
checksum_is_u32 bytes = omega arith

abbrev done : JournalFrame
done = commit (record { journal_ts = 7; head = 260 })

abbrev removal : JournalFrame
removal = batch (remove 5 (record { raw = 12 }) ∷ [])

done-FrameFits : FrameFits done
unfolding commit_wire derive_struct pair uint enum_heap_size
done-FrameFits = ((omega arith, omega arith), omega arith)

done-IsWhole : IsWhole checksum journal_frame_wire done
unfolding to_wire_checked to_wire journal_frame_wire derive_enum enum_heap_size commit_wire
    derive_struct pair uint to_le_bytes
done-IsWhole = frame-IsWhole checksum checksum_is_u32 done done-FrameFits (omega arith)

removal-FrameFits : FrameFits removal
unfolding write_wire derive_enum enum_heap_size vec vec_heap_size vec_encode_heap pair uint id_wire
    derive_struct
removal-FrameFits = (((((omega arith, omega arith), omega arith), tt), omega arith), omega arith)

removal-IsWhole : IsWhole checksum journal_frame_wire removal
unfolding to_wire_checked to_wire journal_frame_wire derive_enum enum_heap_size write_wire vec
    vec_heap_size vec_encode_heap derive_struct pair uint id_wire to_le_bytes
removal-IsWhole = frame-IsWhole checksum checksum_is_u32 removal removal-FrameFits (omega arith)

abbrev one_frame : Journal
one_frame = append checksum journal_frame_wire done (create 1)

one_frame-IsLog : IsLog checksum journal_frame_wire (done ∷ []) one_frame
one_frame-IsLog =
    (append-IsLog checksum journal_frame_wire [] done (create 1)
      (create-IsLog checksum journal_frame_wire 1)).0

append_crash_replay_example :
    Recovers checksum journal_frame_wire
      (done ∷ [])
      (take 40 (append checksum journal_frame_wire removal one_frame).file)
      2
unfolding append create to_le_bytes to_wire_checked to_wire journal_frame_wire derive_enum
    enum_heap_size commit_wire derive_struct pair uint vec vec_heap_size vec_encode_heap write_wire
    id_wire write_frame frame_bytes sync
append_crash_replay_example =
    append_crash_replay checksum journal_frame_wire (done ∷ []) removal one_frame 40 2
      one_frame-IsLog (done-IsWhole, tt) removal-IsWhole (omega arith)

replay_ends_example :
    replay checksum journal_frame_wire (open_file (9 ∷ 0 ∷ 0 ∷ 0 ∷ 1 ∷ []) 3) ≢ stuck
replay_ends_example = replay_ends checksum (open_file (9 ∷ 0 ∷ 0 ∷ 0 ∷ 1 ∷ []) 3)
