-- ===== src/Runs/Streams.antt =====
-- Streams of ids that are combined.
use wavedb.Base.{ℕ, ◌≡◌, refl, arith, [], ◌∷◌, ◌++◌, not, some}
use wavedb.Streams.{
  Event, item, pending, Stream, adapter, probe_next, intersect_next, except_next, union, union_next,
  drive,
}
use wavedb.Streams.Laws.{filtered, holds, drive-adapter, drain-forgets}
use wavedb.Streams.Seen.{deduped, union_next-deduped}

abbrev id : ℕ → Event
id n = item (record { raw = n })

abbrev receiver : Stream
receiver = id 1 ∷ pending ∷ id 2 ∷ id 3 ∷ []

abbrev argument : Stream
argument = id 3 ∷ id 1 ∷ []

drive-adapter_example :
    (drive intersect_next 5 (adapter receiver argument)
      ≡ filtered (λ b. b) (holds argument) receiver)
    × (drive except_next 5 (adapter receiver argument) ≡ filtered not (holds argument) receiver)
drive-adapter_example =
    drive-adapter 5 receiver argument ((record { raw = 3 }, refl), ((record { raw = 1 }, refl), tt))
      (omega arith)

-- The common ids of the two streams.
common : drive intersect_next 5 (adapter receiver argument) ≡ id 1 ∷ pending ∷ id 3 ∷ []
unfolding drive intersect_next adapter
common = refl

drain-forgets_example :
    probe_next (λ b. b) (adapter receiver ((id 3 ∷ []) ++ pending ∷ id 1 ∷ []))
    ≡ (some pending, adapter receiver (id 1 ∷ []))
drain-forgets_example =
    drain-forgets (λ b. b) receiver (id 3 ∷ []) (id 1 ∷ []) ((record { raw = 3 }, refl), tt)

union_next-deduped_example :
    drive union_next 7 (union receiver argument) ≡ deduped [] (receiver ++ argument)
union_next-deduped_example = union_next-deduped 7 receiver argument (omega arith)
