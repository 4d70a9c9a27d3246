-- ===== src/Pages/MetaLog/Chain.antt =====
-- The walk of the chunks finds those that the log of the rounds holds, the oldest first.
use wavedb.Base.{
  ℕ, zero, suc, ◌+◌, ◌<◌, ◌≤◌, ◌≡◌, refl, sym, ap, ◌∙◌, arith, List, [], ◌∷◌, ◌++◌, All, Bool, true,
  false, length, length-append, ltb, le→ltb, if◌then◌else◌, Bool-cases, inl, inr, subst, append-nil,
}
use wavedb.Blocks.Descriptor.{BlockDescriptor, is_allocated, run}
use wavedb.Pages.Fault.{ok}
use wavedb.Pages.Directory.{File}
use wavedb.Pages.Edit.{EditChunk, max_edit_chunks, read_chunk, walk_loop, walk}
use wavedb.Pages.MetaLog.{MetaLog, wants_snapshot, record_chunk, last_or, head}

abbrev rev_onto {ℓ} : {A : Type ℓ} → List A → List A → List A
rev_onto [] ys = ys
rev_onto (x ∷ xs) ys = rev_onto xs (x ∷ ys)

rev_rev {ℓ} :
    {A : Type ℓ} (xs ys zs : List A) → rev_onto (rev_onto xs ys) zs ≡ rev_onto ys (xs ++ zs)
rev_rev [] ys zs = refl
rev_rev (x ∷ xs) ys zs = rev_rev xs (x ∷ ys) zs

rev_snoc {ℓ} :
    {A : Type ℓ} (xs ys : List A) (c : A) → rev_onto (xs ++ c ∷ []) ys ≡ c ∷ rev_onto xs ys
rev_snoc [] ys c = refl
rev_snoc (x ∷ xs) ys c = rev_snoc xs (x ∷ ys) c

-- From a cursor on, the file holds the chunks of these descriptors, each with the one behind it as its
-- `prev`, and the last ends the chain.
abbrev pub Linked : (List ℕ → ℕ) → File → BlockDescriptor → List BlockDescriptor → Type 0
Linked crc file cursor [] = is_allocated cursor ≡ false
Linked crc file cursor (d ∷ ds) =
    (cursor ≡ d)
    × (is_allocated d ≡ true)
    × ((chunk : EditChunk) × (read_chunk crc file (run d) ≡ ok chunk)
        × Linked crc file (record { raw = chunk.prev }) ds)

walk_loop-Linked :
    (fuel : ℕ) (crc : List ℕ → ℕ) (file : File) (cursor : BlockDescriptor) (seen : ℕ)
    (ds chain : List BlockDescriptor)
    → Linked crc file cursor ds
    → length ds < fuel
    → seen + length ds ≤ max_edit_chunks + 1
    → walk_loop fuel crc file cursor seen chain ≡ ok (rev_onto ds chain)
unfolding walk_loop
walk_loop-Linked zero crc file cursor seen ds chain l f s = absurd (omega (arith, f))
walk_loop-Linked (suc fuel) crc file cursor seen [] chain l f s = rw (walk_loop, l) refl
walk_loop-Linked (suc fuel) crc file cursor seen (d ∷ ds) chain (e, a, (chunk, r, l)) f s =
    let few : ltb max_edit_chunks seen ≡ false = le→ltb _ _ (omega (arith, s)) in
    let rest =
      walk_loop-Linked fuel crc file (record { raw = chunk.prev }) (suc seen) ds (d ∷ chain) l
        (omega (arith, f)) (omega (arith, s)) in
    subst (λ c. walk_loop (suc fuel) crc file c seen chain ≡ ok (rev_onto ds (d ∷ chain))) (sym e)
      (rw (walk_loop, a, few, r) rest)

-- The chunks of the log, the oldest first: the snapshot, if there is one, and the edits.
abbrev pub chain : MetaLog → List BlockDescriptor
chain m = if is_allocated m.snapshot then m.snapshot ∷ m.edits else m.edits

-- The log stands in the file, and is no longer than a walk goes.
pub record IsLog (crc : List ℕ → ℕ) (file : File) (m : MetaLog) : Type 0 where
  pub bounded : length m.edits ≤ max_edit_chunks
  pub linked : Linked crc file (record { raw = head m }) (rev_onto (chain m) [])

length-rev {ℓ} : {A : Type ℓ} (xs ys : List A) → length (rev_onto xs ys) ≡ length xs + length ys
length-rev [] ys = omega arith
length-rev (x ∷ xs) ys = omega (arith, length-rev xs (x ∷ ys))

length-chain : (m : MetaLog) → length (chain m) ≤ suc (length m.edits)
length-chain m = ground arith

walk-IsLog :
    (crc : List ℕ → ℕ) (file : File) (m : MetaLog)
    → IsLog crc file m
    → walk crc file (record { raw = head m }) ≡ ok (chain m)
unfolding walk
walk-IsLog crc file m is =
    walk_loop-Linked (max_edit_chunks + 2) crc file _ 0 (rev_onto (chain m) []) [] is.linked
      (omega (arith, length-rev (chain m) [], length-chain m, is.bounded))
      (omega (arith, length-rev (chain m) [], length-chain m, is.bounded))
    ∙ ap ok (rev_rev (chain m) [] [] ∙ append-nil (chain m))

-- A file that reads the runs of a chain as before has it still.
Linked-agree :
    (crc : List ℕ → ℕ) (file file' : File) (cursor : BlockDescriptor) (ds : List BlockDescriptor)
    → All (λ d. file' (run d) ≡ file (run d)) ds
    → Linked crc file cursor ds
    → Linked crc file' cursor ds
unfolding read_chunk
Linked-agree crc file file' cursor [] h l = l
Linked-agree crc file file' cursor (d ∷ ds) (h, hs) (e, a, (chunk, r, l)) =
    (e, a, (chunk, rw h r, Linked-agree crc file file' _ ds hs l))

-- The chunk of a round, as `place_in` links it: a snapshot ends the chain, an edit goes on from the head.
abbrev pub round_prev : MetaLog → ℕ
round_prev m = if wants_snapshot m then 0 else head m

abbrev pub round_chain : MetaLog → BlockDescriptor → List BlockDescriptor
round_chain m d = if wants_snapshot m then d ∷ [] else chain m ++ d ∷ []

last_or-snoc : (s d : BlockDescriptor) (ds : List BlockDescriptor) → last_or s (ds ++ d ∷ []) ≡ d
last_or-snoc s d [] = refl
last_or-snoc s d (e ∷ ds) = last_or-snoc e d ds

chain-record_chunk :
    (m : MetaLog) (d : BlockDescriptor) (full : Bool)
    → is_allocated d ≡ true
    → chain (record_chunk d full m).0 ≡ (if full then d ∷ [] else chain m ++ d ∷ [])
unfolding record_chunk
chain-record_chunk m d true a = rw a refl
chain-record_chunk m d false a = elim (Bool-cases (is_allocated m.snapshot)) [
  | inl snapshot ↦ rw snapshot refl
  | inr edits_only ↦ rw edits_only refl
]

nothing_allocated : is_allocated (record { raw = 0 }) ≡ false
unfolding is_allocated
nothing_allocated = refl

edit_room : (m : MetaLog) → wants_snapshot m ≡ false → length m.edits < max_edit_chunks
unfolding wants_snapshot
edit_room m e = ground (arith, e)

head-record_chunk :
    (m : MetaLog) (d : BlockDescriptor) (full : Bool)
    → record { raw = head (record_chunk d full m).0 } ≡ d
unfolding head record_chunk
head-record_chunk m d true = refl
head-record_chunk m d false = ap (λ e. record { raw = e.raw }) (last_or-snoc m.snapshot d m.edits)

next-IsLog :
    (crc : List ℕ → ℕ) (file file' : File) (m : MetaLog) (d : BlockDescriptor) (chunk : EditChunk)
    (full : Bool)
    → IsLog crc file m
    → (full ≡ false → length m.edits < max_edit_chunks)
    → All (λ c. file' (run c) ≡ file (run c)) (rev_onto (chain m) [])
    → is_allocated d ≡ true
    → read_chunk crc file' (run d) ≡ ok chunk
    → chunk.prev ≡ (if full then 0 else head m)
    → IsLog crc file' (record_chunk d full m).0
unfolding record_chunk
next-IsLog crc file file' m d chunk true is room agree a r p = record {
  bounded = omega arith;
  linked =
      subst (λ c. Linked crc file' c (rev_onto (chain (record_chunk d true m).0) []))
        (sym (head-record_chunk m d true))
        (rw (chain-record_chunk m d true a) (refl, a, (chunk, r, rw p nothing_allocated)));
}
next-IsLog crc file file' m d chunk false is room agree a r p = record {
  bounded = omega (arith, room refl, length-append m.edits (d ∷ []));
  linked =
      subst (λ c. Linked crc file' c (rev_onto (chain (record_chunk d false m).0) []))
        (sym (head-record_chunk m d false))
        (rw (chain-record_chunk m d false a, rev_snoc (chain m) [] d)
          (refl, a, (chunk, r, rw p (Linked-agree crc file file' _ _ agree is.linked))));
}

-- Where a log of chunks stands in a file and a round writes one more, which can be read back and
-- links to the head, or to nothing if the log wants a snapshot, and the chunks before read as
-- before, the log that the round records stands in the file, within the bound of a walk, and the
-- walk from its head gives the chunks before and the new one, or the snapshot alone.
pub walk-record_chunk :
    (crc : List ℕ → ℕ) (file file' : File) (m : MetaLog) (d : BlockDescriptor) (chunk : EditChunk)
    → IsLog crc file m
    → All (λ c. file' (run c) ≡ file (run c)) (rev_onto (chain m) [])
    → is_allocated d ≡ true
    → read_chunk crc file' (run d) ≡ ok chunk
    → chunk.prev ≡ round_prev m
    → IsLog crc file' (record_chunk d (wants_snapshot m) m).0
      × (walk crc file' (record { raw = head (record_chunk d (wants_snapshot m) m).0 })
          ≡ ok (round_chain m d))
walk-record_chunk crc file file' m d chunk is agree a r p =
    let next : IsLog crc file' (record_chunk d (wants_snapshot m) m).0 =
      next-IsLog crc file file' m d chunk (wants_snapshot m) is (edit_room m) agree a r p in
    (next, walk-IsLog crc file' _ next ∙ ap ok (chain-record_chunk m d (wants_snapshot m) a))
