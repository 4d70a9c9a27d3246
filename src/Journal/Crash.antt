-- ===== src/Journal/Crash.antt =====
-- The journal over its own frames.
use wavedb.Base.{ℕ, ◌^◌, ◌<◌, List, length}
use wavedb.Wire.Codec.{to_wire_checked}
use wavedb.Wire.Codec.RoundTrip.{from_wire_checked-to_wire_checked}
use wavedb.Journal.Replay.{IsWhole}
use wavedb.Journal.Frame.{JournalFrame, journal_frame_wire, FrameFits, journal_frame_wire-IsWire}

-- A frame that fits is one that `replay` reads back, for every checksum of 32 bits.
pub frame-IsWhole :
    (crc : List ℕ → ℕ)
    → ((bytes : List ℕ) → crc bytes < 2 ^ 32)
    → (f : JournalFrame) → FrameFits f
    → length (to_wire_checked crc journal_frame_wire f) < 2 ^ 32
    → IsWhole crc journal_frame_wire f
frame-IsWhole crc is_u32 f fits short = record {
  reads = from_wire_checked-to_wire_checked journal_frame_wire-IsWire crc is_u32 f fits;
  short = short;
}
