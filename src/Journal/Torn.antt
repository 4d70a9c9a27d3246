-- ===== src/Journal/Torn.antt =====
-- What `replay` gives back of a log that a crash cut off, and of one that it did not.
use wavedb.Base.{
  ℕ, ◌+◌, ◌-◌, ◌%◌, ◌^◌, ◌≤◌, ◌<◌, ◌≡◌, inl, inr, refl, sym, ap, ◌∙◌, subst, arith, List, [], ◌∷◌,
  ◌++◌, append-nil, ltb, Bool-cases, length, take, All, length-append, length-take, take-append,
  take_front, take-append_past, take_all, if◌then◌else◌,
}
use wavedb.Wire.Error.{ok}
use wavedb.Wire.Cursor.{to_le_bytes, from_le_bytes}
use wavedb.Wire.Cursor.Laws.{length-to_le_bytes, from_le_bytes-to_le_bytes}
use wavedb.Wire.Codec.{WaveWire, to_wire_checked}
use wavedb.Journal.{Journal, frame_bytes, replay, open_file, append}
use wavedb.Journal.Append.{IsLog, append-IsLog}
use wavedb.Journal.Replay.{log, log-append, IsTorn, no_prefix, overrun, IsWhole, replay_loop-log}

module _ {ℓ} {F : Type ℓ} (crc : List ℕ → ℕ) (w : WaveWire F) where
  short_front : (n : ℕ) (xs ys : List ℕ) → length xs ≡ 4 → 4 ≤ n → take 4 (take n (xs ++ ys)) ≡ xs
  short_front n xs ys e h =
      ap (λ k. take 4 (take k (xs ++ ys))) (omega (arith, e))
      ∙ ap (take 4) (take-append_past (n - 4) xs ys)
      ∙ take_front 4 xs (take (n - 4) ys) e

  -- A frame of which the end is missing is torn.
  cut-IsTorn :
      (f : F) (n : ℕ)
      → length (to_wire_checked crc w f) < 2 ^ 32
      → n < length (frame_bytes crc w f)
      → IsTorn crc w (take n (frame_bytes crc w f))
  unfolding frame_bytes
  cut-IsTorn f n short h =
      let payload = to_wire_checked crc w f in
      let prefix = to_le_bytes 4 (length payload % 2 ^ 32) in
      let four : length prefix ≡ 4 = length-to_le_bytes 4 (length payload % 2 ^ 32) in
      let cut = length-take n (prefix ++ payload) in
      elim (Bool-cases (ltb n 4)) [
        | inl few ↦ no_prefix (ground (arith, cut))
        | inr more ↦ overrun (
            omega (
              arith,
              cut,
              h,
              length-append prefix payload,
              four,
              ap from_le_bytes (short_front n prefix payload four (ground arith)),
              from_le_bytes-to_le_bytes 4 (length payload % 2 ^ 32) (omega arith),
            ))
      ]

  nothing-IsTorn : IsTorn crc w []
  nothing-IsTorn = no_prefix (omega arith)

  length-log : (fs : List F) → length fs ≤ length (log crc w fs)
  unfolding log frame_bytes
  length-log [] = omega arith
  length-log (f ∷ fs) = omega (
    arith,
    length-log fs,
    length-append (frame_bytes crc w f) (log crc w fs),
    length-append (to_le_bytes 4 (length (to_wire_checked crc w f) % 2 ^ 32))
        (to_wire_checked crc w f),
    length-to_le_bytes 4 (length (to_wire_checked crc w f) % 2 ^ 32),
  )

  -- Of whole frames and torn bytes behind them, `replay` gives the frames, and the file is cut back to
  -- them.
  pub replay-log :
      (fs : List F) (rest : List ℕ) (ts : ℕ)
      → All (IsWhole crc w) fs
      → IsTorn crc w rest
      → (j : Journal) × (replay crc w (open_file (log crc w fs ++ rest) ts) ≡ ok (fs, j))
        × IsLog crc w fs j
  unfolding replay open_file
  replay-log fs rest ts whole torn =
      let file = log crc w fs ++ rest in
      let read =
        replay_loop-log crc w fs (length file + 1) (take (length file) file) 0 rest whole torn
          (take_all (length file) file (omega arith)) (omega arith)
          (omega (arith, length-log fs, length-append (log crc w fs) rest)) in
      elim (Bool-cases (ltb (0 + length (log crc w fs)) (length file))) [
        | inl longer ↦ (
          record {
            file = take (0 + length (log crc w fs)) file;
            ts = ts;
            end = 0 + length (log crc w fs);
            syncs = 0;
          },
          rw read (rw longer refl),
          record {
            file = take_front (0 + length (log crc w fs)) (log crc w fs) rest (omega arith);
            end = omega arith;
          },
        )
        | inr whole_file ↦ (
          record { file = file; ts = ts; end = length file; syncs = 0 },
          rw read (rw whole_file refl),
          record {
            file =
                sym (take_all (length (log crc w fs)) file (ground arith))
                ∙ take-append (log crc w fs) rest;
            end = ground (arith, length-append (log crc w fs) rest);
          },
        )
      ]

  appended_file :
      (fs : List F) (f : F) (j : Journal)
      → IsLog crc w fs j
      → (append crc w f j).file ≡ log crc w fs ++ frame_bytes crc w f
  unfolding log
  appended_file fs f j l =
      (append-IsLog crc w fs f j l).0.file
      ∙ log-append crc w fs (f ∷ [])
      ∙ ap (λ t. log crc w fs ++ t) (append-nil (frame_bytes crc w f))

  appended_cut :
      (fs : List F) (f : F) (j : Journal) (n : ℕ)
      → IsLog crc w fs j
      → length j.file ≤ n
      → take n (append crc w f j).file
        ≡ log crc w fs ++ take (n - length (log crc w fs)) (frame_bytes crc w f)
  appended_cut fs f j n l h =
      ap (take n) (appended_file fs f j l)
      ∙ ap (λ k. take k (log crc w fs ++ frame_bytes crc w f))
          (omega (arith, h, ap (λ t. length t) l.file))
      ∙ take-append_past (n - length (log crc w fs)) (log crc w fs) (frame_bytes crc w f)

  All-snoc :
      (fs : List F) (f : F)
      → All (IsWhole crc w) fs
      → IsWhole crc w f
      → All (IsWhole crc w) (fs ++ (f ∷ []))
  All-snoc [] f a h = (h, tt)
  All-snoc (g ∷ fs) f a h = (a.0, All-snoc fs f a.1 h)

  -- `replay` of a file gives these frames, and leaves a journal of them.
  abbrev pub Recovers : List F → List ℕ → ℕ → Type ℓ
  Recovers fs file ts =
      (after : Journal) × (replay crc w (open_file file ts) ≡ ok (fs, after)) × IsLog crc w fs after

  -- A crash while `append` writes leaves any front of the new file that holds the old one: `replay`
  -- of it gives the old frames if a byte is missing and all frames otherwise, and the reopened
  -- journal holds those frames and nothing else. The frames read back from their checked encodings,
  -- and these fit a 32-bit length.
  pub append_crash_replay :
      (fs : List F) (f : F) (j : Journal) (n ts : ℕ)
      → IsLog crc w fs j
      → All (IsWhole crc w) fs
      → IsWhole crc w f
      → length j.file ≤ n
      → Recovers
          (if ltb n (length (append crc w f j).file) then fs else fs ++ (f ∷ []))
          (take n (append crc w f j).file)
          ts
  append_crash_replay fs f j n ts l whole last h =
      elim (Bool-cases (ltb n (length (append crc w f j).file))) [
        | inl cut ↦ rw cut (
            subst (λ file. Recovers fs file ts) (sym (appended_cut fs f j n l h))
              (replay-log fs (take (n - length (log crc w fs)) (frame_bytes crc w f)) ts whole (
                cut-IsTorn f (n - length (log crc w fs)) last.short (
                  ground (
                    arith,
                    h,
                    ap (λ t. length t) (appended_file fs f j l),
                    ap (λ t. length t) l.file,
                    length-append (log crc w fs) (frame_bytes crc w f),
                  )))))
        | inr all ↦ rw all (
            subst (λ file. Recovers (fs ++ (f ∷ [])) file ts)
              (append-nil (log crc w (fs ++ (f ∷ [])))
                ∙ sym ((append-IsLog crc w fs f j l).0.file)
                ∙ sym (take_all n (append crc w f j).file (ground arith)))
              (replay-log (fs ++ (f ∷ [])) [] ts (All-snoc fs f whole last) nothing-IsTorn))
      ]
