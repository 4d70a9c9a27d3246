-- ===== src/Journal/Append.antt =====
-- A journal that holds whole frames, through `append` and `append_deferred`.
use wavedb.Base.{
  ℕ, zero, suc, ◌+◌, ◌≤◌, ◌≡◌, refl, sym, ap, ◌∙◌, arith, List, [], ◌∷◌, ◌++◌, length, take, drop,
  length-append, take_all,
}
use wavedb.Wire.Codec.{WaveWire}
use wavedb.Journal.{Journal, frame_bytes, create, append, append_deferred, write_frame, sync}
use wavedb.Journal.Replay.{log, log-append}

module _ {ℓ} {F : Type ℓ} (crc : List ℕ → ℕ) (w : WaveWire F) where
  -- The journal holds these frames and nothing else.
  pub record IsLog (fs : List F) (j : Journal) : Type 0 where
    pub file : j.file ≡ log crc w fs
    pub end : j.end ≡ length (log crc w fs)

  pub create-IsLog : (ts : ℕ) → IsLog [] (create ts)
  unfolding create log
  create-IsLog ts = record { file = refl; end = refl }

  take_whole : (n : ℕ) (xs : List ℕ) → n ≡ length xs → take n xs ≡ xs
  take_whole n xs e = take_all n xs (omega (arith, e))

  drop_past : (n : ℕ) (xs : List ℕ) → length xs ≤ n → drop n xs ≡ []
  drop_past zero [] h = refl
  drop_past zero (x ∷ xs) h = ground arith
  drop_past (suc n) [] h = refl
  drop_past (suc n) (x ∷ xs) h = drop_past n xs (omega arith)

  length-log_append :
      (fs : List F) (f : F)
      → length (log crc w (fs ++ (f ∷ []))) ≡ length (log crc w fs) + length (frame_bytes crc w f)
  unfolding log
  length-log_append fs f = omega (
    arith,
    ap (λ t. length t) (log-append crc w fs (f ∷ [])),
    length-append (log crc w fs) (frame_bytes crc w f ++ []),
    length-append (frame_bytes crc w f) [],
  )

  write_frame-IsLog :
      (fs : List F) (f : F) (j : Journal)
      → IsLog fs j
      → IsLog (fs ++ (f ∷ [])) (write_frame crc w f j)
  unfolding write_frame log
  write_frame-IsLog fs f j l = record {
    file = rw (take_whole j.end j.file (l.end ∙ ap (λ t. length t) (sym l.file))) (
        rw
          (drop_past (j.end + length (frame_bytes crc w f)) j.file
            (omega (arith, l.end, ap (λ t. length t) l.file)))
          (rw l.file (sym (log-append crc w fs (f ∷ [])))));
    end = omega (arith, l.end, length-log_append fs f);
  }

  -- `append` adds one frame to a journal of whole frames and takes one barrier.
  pub append-IsLog :
      (fs : List F) (f : F) (j : Journal)
      → IsLog fs j
      → IsLog (fs ++ (f ∷ [])) (append crc w f j) × ((append crc w f j).syncs ≡ j.syncs + 1)
  unfolding append sync write_frame
  append-IsLog fs f j l =
      let written = write_frame-IsLog fs f j l in
      (record { file = written.file; end = written.end }, refl)

  -- `append_deferred` adds the frame and takes no barrier.
  pub append_deferred-IsLog :
      (fs : List F) (f : F) (j : Journal)
      → IsLog fs j
      → IsLog (fs ++ (f ∷ [])) (append_deferred crc w f j)
        × ((append_deferred crc w f j).syncs ≡ j.syncs)
  unfolding append_deferred write_frame
  append_deferred-IsLog fs f j l = (write_frame-IsLog fs f j l, refl)
