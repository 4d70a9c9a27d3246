-- ===== src/Pages/Framed.antt =====
-- The four bytes of a length before a payload, as page.rs, dictionary.rs and edit.rs of
-- crates/wavedb-storage/src write and read them.
use wavedb.Base.{
  ℕ, ◌+◌, ◌%◌, ◌^◌, ◌<◌, ◌≡◌, refl, ap, ◌∙◌, arith, List, ◌++◌, length, take, drop, leb, le→leb,
  if◌then◌else◌, append_assoc, length-append, take_front, drop_front,
}
use wavedb.Wire.Cursor.{to_le_bytes, from_le_bytes}
use wavedb.Wire.Cursor.Laws.{length-to_le_bytes, from_le_bytes-to_le_bytes}
use wavedb.Pages.Fault.{StorageResult, ok, err, corrupt, Part}

abbrev pub len_prefix : ℕ
len_prefix = 4

-- `payload.len() as u32` wraps.
unfoldable pub framed : List ℕ → List ℕ
framed payload = to_le_bytes len_prefix (length payload % 2 ^ 32) ++ payload

-- A length is below 2 ^ 32, so `checked_add` does not pass a `usize` of 64 bits.
unfoldable pub unframed : Part → Part → List ℕ → StorageResult (List ℕ)
unframed truncated out_of_range buf =
    let len = from_le_bytes (take len_prefix buf) in
    if leb len_prefix (length buf)
    then if leb (len_prefix + len) (length buf)
      then ok (take len (drop len_prefix buf))
      else err (corrupt out_of_range)
    else err (corrupt truncated)

-- The payload of a frame is read back, whatever stands behind it.
pub unframed-framed :
    (s t : Part) (payload rest : List ℕ)
    → length payload < 2 ^ 32
    → unframed s t (framed payload ++ rest) ≡ ok payload
unfolding framed unframed
unframed-framed s t payload rest small =
    let prefix : List ℕ = to_le_bytes len_prefix (length payload % 2 ^ 32) in
    let four : length prefix ≡ 4 = length-to_le_bytes 4 (length payload % 2 ^ 32) in
    let read : from_le_bytes (take 4 (prefix ++ (payload ++ rest))) ≡ length payload =
      ap from_le_bytes (take_front 4 prefix (payload ++ rest) four)
      ∙ (from_le_bytes-to_le_bytes 4 (length payload % 2 ^ 32) (omega arith)
          ∙ omega (arith, small)) in
    let whole : length (prefix ++ (payload ++ rest)) ≡ 4 + (length payload + length rest) =
      omega (arith, length-append prefix (payload ++ rest), length-append payload rest, four) in
    rw append_assoc (
      rw
        (
          read,
          whole,
          le→leb 4 (4 + (length payload + length rest)) (omega arith),
          le→leb (4 + length payload) (4 + (length payload + length rest)) (omega arith),
          drop_front 4 prefix (payload ++ rest) four,
        )
        (ap ok (take_front (length payload) payload rest refl)))
