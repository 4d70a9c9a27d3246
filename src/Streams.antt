-- ===== src/Streams.antt =====
-- crates/wavedb-core/src/index/stream.rs: set algebra over streams of ids.
-- A stream is the list of what its polls give, one after the other; behind the list it has ended.
pub mod Laws
pub mod Seen
use wavedb.Base.{
  ℕ, zero, suc, List, [], ◌∷◌, Bool, true, false, not, Option, none, some, ◌==◌, ◌||◌,
  if◌then◌else◌,
}
use wavedb.Ids.Id.{CompositeId}
use wavedb.BpTree.Fault.{Fault}

-- `Poll::Ready(Some(Ok(id)))`, `Poll::Ready(Some(Err(e)))` and `Poll::Pending`.
pub data Event : Type 0 where
  item : CompositeId → Event
  fault : Fault → Event
  pending : Event

-- A poll; `none` is `Poll::Ready(None)`.
abbrev pub Poll : Type 0
Poll = Option Event

abbrev pub Stream : Type 0
Stream = List Event

-- `HashSet<u128>`, of which only `insert` and `contains` are used.
abbrev pub contains : List ℕ → ℕ → Bool
contains [] n = false
contains (m ∷ set) n = m == n || contains set n

-- Here `none` is `Poll::Ready(Ok(()))`. The rest of the stream and the set come out beside it.
unfoldable pub drain_into : Stream → List ℕ → Poll × Stream × List ℕ
drain_into [] set = (none, [], set)
drain_into (item id ∷ s) set = drain_into s (id.raw ∷ set)
drain_into (fault e ∷ s) set = (some (fault e), s, set)
drain_into (pending ∷ s) set = (some pending, s, set)

-- `struct Intersect` and `struct Except`, which have the same fields.
pub record Adapter : Type 0 where
  pub left : Stream
  pub right : Stream
  pub buffered : Option (List ℕ)

unfoldable pub adapter : Stream → Stream → Adapter
adapter left right = record { left = left; right = right; buffered = none }

-- What becomes of the adapter behind a drain. The set of a drain that stops early is a local of the
-- block, and is dropped.
abbrev pub filled : Adapter → Poll × Stream × List ℕ → Poll × Adapter
filled a (none, rest, set) = (none, record a { right = rest; buffered = some set })
filled a (some e, rest, set) = (some e, record a { right = rest })

-- The `if this.buffered.is_none()` block: what it returns early, if it does.
unfoldable pub fill : Adapter → Poll × Adapter
unfolding drain_into
fill a = elim a.buffered [ some set ↦ (none, a) | none ↦ filled a (drain_into a.right []) ]

-- The loop over `left`, which yields what `keep` keeps of a probe.
unfoldable pub probe : (Bool → Bool) → List ℕ → Stream → Poll × Stream
probe keep set [] = (none, [])
probe keep set (item id ∷ s) =
    let rest = probe keep set s in if keep (contains set id.raw) then (some (item id), s) else rest
probe keep set (fault e ∷ s) = (some (fault e), s)
probe keep set (pending ∷ s) = (some pending, s)

-- `this.buffered.as_ref().unwrap()` finds a set behind the block.
unfoldable pub probed : (Bool → Bool) → Poll × Adapter → Poll × Adapter
unfolding probe
probed keep (some e, a) = (some e, a)
probed keep (none, a) = elim a.buffered [
  | none ↦ (none, a)
  | some set ↦ (let (p, rest) = probe keep set a.left in (p, record a { left = rest }))
]

unfoldable pub probe_next : (Bool → Bool) → Adapter → Poll × Adapter
unfolding fill probed
probe_next keep a = probed keep (fill a)

-- `Intersect::poll_next` and `Except::poll_next`.
unfoldable pub intersect_next : Adapter → Poll × Adapter
unfolding probe_next
intersect_next a = probe_next (λ b. b) a

unfoldable pub except_next : Adapter → Poll × Adapter
unfolding probe_next
except_next a = probe_next not a

pub record Union : Type 0 where
  pub left : Stream
  pub right : Stream
  pub seen : List ℕ
  pub left_done : Bool

unfoldable pub union : Stream → Stream → Union
union left right = record { left = left; right = right; seen = []; left_done = false }

-- A loop over one side, which passes over the ids that were seen.
unfoldable pub unseen : List ℕ → Stream → Poll × Stream × List ℕ
unseen seen [] = (none, [], seen)
unseen seen (item id ∷ s) =
    let rest = unseen seen s in
    if contains seen id.raw then rest else (some (item id), s, id.raw ∷ seen)
unseen seen (fault e ∷ s) = (some (fault e), s, seen)
unseen seen (pending ∷ s) = (some pending, s, seen)

unfoldable pub right_next : Union → Poll × Union
unfolding unseen
right_next u =
    let (p, rest, seen) = unseen u.seen u.right in (p, record u { right = rest; seen = seen })

-- Behind the loop over the left side, which ended or returns what it has.
unfoldable pub left_polled : Union → Poll × Stream × List ℕ → Poll × Union
unfolding right_next
left_polled u (some e, rest, seen) = (some e, record u { left = rest; seen = seen })
left_polled u (none, rest, seen) =
    right_next (record u { left = rest; seen = seen; left_done = true })

-- `Union::poll_next`.
unfoldable pub union_next : Union → Poll × Union
unfolding unseen right_next left_polled
union_next u = if u.left_done then right_next u else left_polled u (unseen u.seen u.left)

-- What a consumer sees that polls until the end, `fuel` times at most.
unfoldable pub drive : {S : Type 0} → (S → Poll × S) → ℕ → S → List Event
drive next zero s = []
drive next (suc fuel) s = elim (next s).0 [ none ↦ [] | some e ↦ e ∷ drive next fuel (next s).1 ]
