-- ===== src/Streams/Laws.antt =====
-- `intersect` and `except` as filters of the receiver.
use wavedb.Base.{
  ℕ, zero, suc, ◌<◌, ◌≡◌, refl, sym, ap, ◌∙◌, arith, List, [], ◌∷◌, ◌++◌, length, All, Bool, true,
  false, not, none, some, ◌==◌, ◌||◌, if◌then◌else◌, Bool-cases, inl, inr,
}
use wavedb.Ids.Id.{CompositeId}
use wavedb.Streams.{
  Event, item, fault, pending, Poll, Stream, contains, drain_into, Adapter, adapter, fill, filled,
  probed, probe, probe_next, intersect_next, except_next, drive,
}

abbrev pub IsItem : Event → Type 0
IsItem e = (id : CompositeId) × (e ≡ item id)

-- An id stands in a stream.
abbrev pub holds : Stream → ℕ → Bool
holds [] n = false
holds (item id ∷ s) n = id.raw == n || holds s n
holds (fault e ∷ s) n = holds s n
holds (pending ∷ s) n = holds s n

-- The events of `left`, of whose ids those stay that `keep` keeps.
abbrev pub filtered : (Bool → Bool) → (ℕ → Bool) → Stream → List Event
filtered keep test [] = []
filtered keep test (item id ∷ s) =
    let rest = filtered keep test s in if keep (test id.raw) then item id ∷ rest else rest
filtered keep test (fault e ∷ s) = fault e ∷ filtered keep test s
filtered keep test (pending ∷ s) = pending ∷ filtered keep test s

abbrev into : Stream → List ℕ → List ℕ
into [] set = set
into (item id ∷ s) set = into s (id.raw ∷ set)
into (fault e ∷ s) set = into s set
into (pending ∷ s) set = into s set

contains-into :
    (s : Stream) (set : List ℕ) (n : ℕ) → contains (into s set) n ≡ (contains set n || holds s n)
contains-into [] set n = ground arith
contains-into (item id ∷ s) set n = ground (arith, contains-into s (id.raw ∷ set) n)
contains-into (fault e ∷ s) set n = contains-into s set n
contains-into (pending ∷ s) set n = contains-into s set n

drain_into-items :
    (s : Stream) (set : List ℕ) → All IsItem s → drain_into s set ≡ (none, [], into s set)
unfolding drain_into
drain_into-items [] set h = refl
drain_into-items (item id ∷ s) set (h, hs) = drain_into-items s (id.raw ∷ set) hs
drain_into-items (fault e ∷ s) set ((id, h), hs) = cc
drain_into-items (pending ∷ s) set ((id, h), hs) = cc

abbrev full : Stream → Stream → List ℕ → Adapter
full left right set = record { left = left; right = right; buffered = some set }

-- Where two states give the same poll and go on alike, a consumer sees the same.
pub drive-step :
    {S : Type 0} (next : S → Poll × S) (f : ℕ) (a b : S)
    → next a ≡ next b
    → drive next (suc f) a ≡ drive next (suc f) b
unfolding drive
drive-step next f a b e = ap (λ q. elim q.0 [ none ↦ [] | some v ↦ v ∷ drive next f q.1 ]) e

pub drive-some :
    {S : Type 0} (next : S → Poll × S) (f : ℕ) (a b : S) (e : Event)
    → next a ≡ (some e, b)
    → drive next (suc f) a ≡ e ∷ drive next f b
unfolding drive
drive-some next f a b e h = ap (λ q. elim q.0 [ none ↦ [] | some v ↦ v ∷ drive next f q.1 ]) h

pub drive-none :
    {S : Type 0} (next : S → Poll × S) (f : ℕ) (a b : S)
    → next a ≡ (none, b)
    → drive next (suc f) a ≡ []
unfolding drive
drive-none next f a b h = ap (λ q. elim q.0 [ none ↦ [] | some v ↦ v ∷ drive next f q.1 ]) h

module _ (keep : Bool → Bool) (right : Stream) (set : List ℕ) where
  probe_next-full :
      (left : Stream)
      → probe_next keep (full left right set)
        ≡ ((probe keep set left).0, full (probe keep set left).1 right set)
  unfolding probe_next fill probed
  probe_next-full left = refl

  probe-kept :
      (id : CompositeId) (s : Stream)
      → keep (contains set id.raw) ≡ true
      → probe keep set (item id ∷ s) ≡ (some (item id), s)
  unfolding probe
  probe-kept id s h = rw h refl

  probe-skipped :
      (id : CompositeId) (s : Stream)
      → keep (contains set id.raw) ≡ false
      → probe keep set (item id ∷ s) ≡ probe keep set s
  unfolding probe
  probe-skipped id s h = rw h refl

  drive-filtered :
      (f : ℕ) (left : Stream)
      → length left < f
      → drive (probe_next keep) f (full left right set) ≡ filtered keep (contains set) left
  drive-filtered zero left h = absurd (omega (arith, h))
  drive-filtered (suc f) [] h =
      drive-none _ f _ (full [] right set) (probe_next-full [] ∙ (unfold probe in refl))
  drive-filtered (suc f) (fault e ∷ s) h =
      drive-some _ f _ (full s right set) (fault e)
        (probe_next-full (fault e ∷ s) ∙ (unfold probe in refl))
      ∙ ap (λ r. fault e ∷ r) (drive-filtered f s (omega (arith, h)))
  drive-filtered (suc f) (pending ∷ s) h =
      drive-some _ f _ (full s right set) pending
        (probe_next-full (pending ∷ s) ∙ (unfold probe in refl))
      ∙ ap (λ r. pending ∷ r) (drive-filtered f s (omega (arith, h)))
  drive-filtered (suc f) (item id ∷ s) h = elim (Bool-cases (keep (contains set id.raw))) [
    | inl kept ↦ rw kept (
        drive-some (probe_next keep) f (full (item id ∷ s) right set) (full s right set) (item id) (
          probe_next-full (item id ∷ s)
          ∙ ap (λ (q : Poll × Stream). (q.0, full q.1 right set)) (probe-kept id s kept))
        ∙ ap (λ r. item id ∷ r) (drive-filtered f s (omega (arith, h))))
    | inr skipped ↦ rw skipped (
        drive-step (probe_next keep) f (full (item id ∷ s) right set) (full s right set) (
          probe_next-full (item id ∷ s)
          ∙ ap (λ (q : Poll × Stream). (q.0, full q.1 right set)) (probe-skipped id s skipped)
          ∙ sym (probe_next-full s))
        ∙ drive-filtered (suc f) s (omega (arith, h)))
  ]

filtered-same :
    (keep : Bool → Bool) (p q : ℕ → Bool) (s : Stream)
    → ((n : ℕ) → p n ≡ q n)
    → filtered keep p s ≡ filtered keep q s
filtered-same keep p q [] h = refl
filtered-same keep p q (item id ∷ s) h = ground (arith, h id.raw, filtered-same keep p q s h)
filtered-same keep p q (fault e ∷ s) h = ap (λ r. fault e ∷ r) (filtered-same keep p q s h)
filtered-same keep p q (pending ∷ s) h = ap (λ r. pending ∷ r) (filtered-same keep p q s h)

module _ (keep : Bool → Bool) (f : ℕ) (left right : Stream) where
  -- The first poll drains the other side, where that gives ids only.
  drive-items :
      All IsItem right
      → length left < f
      → drive (probe_next keep) f (adapter left right) ≡ filtered keep (holds right) left
  drive-items h n = go f n
    where
      first : probe_next keep (adapter left right) ≡ probe_next keep (full left [] (into right []))
      first =
          unfold probe_next fill probed adapter in
          ap (λ q. probed keep (filled (adapter left right) q)) (drain_into-items right [] h)

      go :
          (f : ℕ)
          → length left < f
          → drive (probe_next keep) f (adapter left right) ≡ filtered keep (holds right) left
      go zero n = absurd (omega (arith, n))
      go (suc f) n =
          drive-step (probe_next keep) f _ _ first
          ∙ drive-filtered keep [] (into right []) (suc f) left n
          ∙ filtered-same keep _ _ left (contains-into right [])

-- Where the argument gives ids only, with no fault and no pending poll, a consumer that polls more
-- often than the receiver has events sees, in the receiver's order and with its faults and pending
-- polls, from `intersect` the receiver's ids that the argument gives and from `except` those that
-- it does not give.
pub drive-adapter :
    (f : ℕ) (left right : Stream)
    → All IsItem right
    → length left < f
    → (drive intersect_next f (adapter left right) ≡ filtered (λ b. b) (holds right) left)
      × (drive except_next f (adapter left right) ≡ filtered not (holds right) left)
drive-adapter f left right h n = (
  unfold intersect_next in drive-items (λ b. b) f left right h n,
  unfold except_next in drive-items not f left right h n,
)

drain_into-pending :
    (front back : Stream) (set : List ℕ)
    → All IsItem front
    → drain_into (front ++ pending ∷ back) set ≡ (some pending, back, into front set)
unfolding drain_into
drain_into-pending [] back set h = refl
drain_into-pending (item id ∷ s) back set (h, hs) = drain_into-pending s back (id.raw ∷ set) hs
drain_into-pending (fault e ∷ s) back set ((id, h), hs) = cc
drain_into-pending (pending ∷ s) back set ((id, h), hs) = cc

-- When the argument of `intersect` or `except` gives ids and is then pending, the adapter is
-- pending and its state is that of an adapter over what is left of the argument: the ids are
-- forgotten.
pub drain-forgets :
    (keep : Bool → Bool) (left front back : Stream)
    → All IsItem front
    → probe_next keep (adapter left (front ++ pending ∷ back)) ≡ (some pending, adapter left back)
unfolding probe_next fill probed adapter
drain-forgets keep left front back h =
    ap (λ q. probed keep (filled (adapter left (front ++ pending ∷ back)) q))
      (drain_into-pending front back [] h)
