-- ===== src/Journal/Replay.antt =====
-- The loop of `replay` over a log of whole frames, whatever stands behind them.
use wavedb.Base.{
  ℕ, zero, suc, ◌+◌, ◌%◌, ◌^◌, ◌≤◌, ◌<◌, ◌≡◌, refl, sym, ap, ◌∙◌, subst, arith, List, [], ◌∷◌, ◌++◌,
  append_assoc, le→leb, length, take, drop, All, length-append, length-drop, take-append,
  drop-append, take_front, drop_front, drop-drop,
}
use wavedb.Wire.Error.{Error, ok, err}
use wavedb.Wire.Cursor.{to_le_bytes, from_le_bytes}
use wavedb.Wire.Cursor.Laws.{length-to_le_bytes, from_le_bytes-to_le_bytes}
use wavedb.Wire.Codec.{WaveWire, to_wire_checked, from_wire_checked}
use wavedb.Journal.{frame_bytes, replay_loop, push}

module _ {ℓ} {F : Type ℓ} (crc : List ℕ → ℕ) (w : WaveWire F) where
  -- The bytes of a log.
  unfoldable pub log : List F → List ℕ
  log [] = []
  log (f ∷ fs) = frame_bytes crc w f ++ log fs

  pub log-append : (fs gs : List F) → log (fs ++ gs) ≡ log fs ++ log gs
  unfolding log
  log-append [] gs = refl
  log-append (f ∷ fs) gs =
      ap (λ t. frame_bytes crc w f ++ t) (log-append fs gs)
      ∙ sym (append_assoc (frame_bytes crc w f) (log fs) (log gs))

  module _ (buf : List ℕ) (pos : ℕ) (f : F) (more : List ℕ)
      (short : length (to_wire_checked crc w f) < 2 ^ 32)
      (here : drop pos buf ≡ frame_bytes crc w f ++ more) where
    -- What a round reads where a whole frame stands at `pos`.
    read_len : from_le_bytes (take 4 (drop pos buf)) ≡ length (to_wire_checked crc w f)
    unfolding frame_bytes
    read_len =
        rw (here, append_assoc)
          (rw
            (take_front 4 (to_le_bytes 4 (length (to_wire_checked crc w f) % 2 ^ 32))
              (to_wire_checked crc w f ++ more) (length-to_le_bytes 4 _))
            (from_le_bytes-to_le_bytes 4 _ (omega arith) ∙ omega arith))

    read_body :
        take (length (to_wire_checked crc w f)) (drop (pos + 4) buf) ≡ to_wire_checked crc w f
    unfolding frame_bytes
    read_body =
        rw (drop-drop pos 4 buf, here, append_assoc)
          (rw
            (drop_front 4 (to_le_bytes 4 (length (to_wire_checked crc w f) % 2 ^ 32))
              (to_wire_checked crc w f ++ more) (length-to_le_bytes 4 _))
            (take-append (to_wire_checked crc w f) more))

    length-frame_bytes : length (frame_bytes crc w f) ≡ 4 + length (to_wire_checked crc w f)
    unfolding frame_bytes
    length-frame_bytes = omega (
      arith,
      length-append (to_le_bytes 4 (length (to_wire_checked crc w f) % 2 ^ 32))
          (to_wire_checked crc w f),
      length-to_le_bytes 4 (length (to_wire_checked crc w f) % 2 ^ 32),
    )

    room : pos + length (frame_bytes crc w f) ≤ length buf
    room = omega (
      arith,
      length-drop pos buf,
      ap (λ t. length t) here,
      length-append (frame_bytes crc w f) more,
      length-frame_bytes,
    )

  -- A round reads from `pos` on only.
  round :
      (fuel : ℕ) (buf : List ℕ) (pos : ℕ) (f : F) (more : List ℕ) (r : List F × ℕ)
      → from_wire_checked crc w (to_wire_checked crc w f) ≡ ok f
      → length (to_wire_checked crc w f) < 2 ^ 32
      → drop pos buf ≡ frame_bytes crc w f ++ more
      → replay_loop crc w fuel buf (pos + length (frame_bytes crc w f)) ≡ ok r
      → replay_loop crc w (suc fuel) buf pos ≡ ok (f ∷ r.0, r.1)
  unfolding replay_loop
  round fuel buf pos f more r reads short here next =
      let n = length-frame_bytes buf pos f more short here in
      let fits = room buf pos f more short here in
      rw (read_len buf pos f more short here) (
        rw (le→leb (pos + 4) (length buf) (omega arith)) (
          rw (le→leb (pos + 4 + length (to_wire_checked crc w f)) (length buf) (omega arith)) (
            rw (read_body buf pos f more short here) (
              rw reads (
                ap (λ x. push crc w (ok f) x pos)
                  (subst (λ n. replay_loop crc w fuel buf n ≡ ok r) (omega arith) next))))))

  -- The loop ends at such bytes: too few for a prefix, or for the payload that the prefix counts, or a
  -- payload that the checked decode refuses.
  pub data IsTorn (bytes : List ℕ) : Type ℓ where
    no_prefix : length bytes < 4 → IsTorn bytes
    overrun : length bytes < 4 + from_le_bytes (take 4 bytes) → IsTorn bytes
    refused :
        (e : Error)
        → from_wire_checked crc w (take (from_le_bytes (take 4 bytes)) (drop 4 bytes)) ≡ err e
        → IsTorn bytes

  stops :
      (fuel : ℕ) (buf : List ℕ) (pos : ℕ)
      → pos ≤ length buf
      → IsTorn (drop pos buf)
      → replay_loop crc w (suc fuel) buf pos ≡ ok ([], pos)
  unfolding replay_loop
  stops fuel buf pos h (no_prefix k) = ground (arith, length-drop pos buf)
  stops fuel buf pos h (overrun k) = ground (arith, length-drop pos buf)
  stops fuel buf pos h (refused e k) = rw (drop-drop pos 4 buf, k) (ground arith)

  -- A frame that fits its 32-bit length prefix and reads back.
  pub record IsWhole (f : F) : Type ℓ where
    pub reads : from_wire_checked crc w (to_wire_checked crc w f) ≡ ok f
    pub short : length (to_wire_checked crc w f) < 2 ^ 32

  -- Over whole frames and torn bytes behind them, the loop gives the frames and their end.
  pub replay_loop-log :
      (fs : List F) (fuel : ℕ) (buf : List ℕ) (pos : ℕ) (rest : List ℕ)
      → All IsWhole fs
      → IsTorn rest
      → drop pos buf ≡ log fs ++ rest
      → pos ≤ length buf
      → length fs < fuel
      → replay_loop crc w fuel buf pos ≡ ok (fs, pos + length (log fs))
  unfolding log
  replay_loop-log fs zero buf pos rest whole torn here inside enough = ground arith
  replay_loop-log [] (suc fuel) buf pos rest whole torn here inside enough =
      stops fuel buf pos inside (subst IsTorn (sym here) torn) ∙ ap (λ n. ok ([], n)) (omega arith)
  replay_loop-log (f ∷ fs) (suc fuel) buf pos rest whole torn here inside enough =
      round fuel buf pos f (log fs ++ rest)
        (fs, pos + length (frame_bytes crc w f) + length (log fs)) whole.0.reads whole.0.short first
        (replay_loop-log fs fuel buf (pos + length (frame_bytes crc w f)) rest whole.1 torn
          (drop-drop pos (length (frame_bytes crc w f)) buf
            ∙ rw first (drop-append (frame_bytes crc w f) (log fs ++ rest)))
          (room buf pos f (log fs ++ rest) whole.0.short first) (omega arith))
      ∙ ap (λ n. ok (f ∷ fs, n)) (omega (arith, length-append (frame_bytes crc w f) (log fs)))
    where
      first : drop pos buf ≡ frame_bytes crc w f ++ (log fs ++ rest)
      first = here ∙ append_assoc (frame_bytes crc w f) (log fs) rest
