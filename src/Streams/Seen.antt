-- ===== src/Streams/Seen.antt =====
-- `union` as the ids of both sides, each once.
use wavedb.Base.{
  ℕ, zero, suc, ◌+◌, ◌<◌, ◌≡◌, refl, sym, ap, ◌∙◌, arith, List, [], ◌∷◌, ◌++◌, length, true, false,
  none, some, if◌then◌else◌, Bool-cases, inl, inr,
}
use wavedb.Ids.Id.{CompositeId}
use wavedb.Streams.{
  Event, item, fault, pending, Poll, Stream, contains, Union, union, unseen, right_next,
  left_polled, union_next, drive,
}
use wavedb.Streams.Laws.{drive-step, drive-some, drive-none}

-- The events of a stream without the ids that `seen` has or that have come before.
abbrev pub deduped : List ℕ → Stream → List Event
deduped seen [] = []
deduped seen (item id ∷ s) =
    let passed = deduped seen s in
    let taken = deduped (id.raw ∷ seen) s in
    if contains seen id.raw then passed else item id ∷ taken
deduped seen (fault e ∷ s) = fault e ∷ deduped seen s
deduped seen (pending ∷ s) = pending ∷ deduped seen s

unseen-passed :
    (seen : List ℕ) (id : CompositeId) (s : Stream)
    → contains seen id.raw ≡ true
    → unseen seen (item id ∷ s) ≡ unseen seen s
unfolding unseen
unseen-passed seen id s h = rw h refl

unseen-taken :
    (seen : List ℕ) (id : CompositeId) (s : Stream)
    → contains seen id.raw ≡ false
    → unseen seen (item id ∷ s) ≡ (some (item id), s, id.raw ∷ seen)
unfolding unseen
unseen-taken seen id s h = rw h refl

abbrev at_right : Stream → List ℕ → Stream → Union
at_right left seen right = record { left = left; right = right; seen = seen; left_done = true }

abbrev at_left : Stream → Stream → List ℕ → Union
at_left left right seen = record { left = left; right = right; seen = seen; left_done = false }

union_next-right :
    (left : Stream) (seen : List ℕ) (right : Stream)
    → union_next (at_right left seen right)
      ≡ ((unseen seen right).0, at_right left (unseen seen right).2 (unseen seen right).1)
unfolding union_next right_next
union_next-right left seen right = refl

drive-right :
    (f : ℕ) (left : Stream) (seen : List ℕ) (right : Stream)
    → length right < f
    → drive union_next f (at_right left seen right) ≡ deduped seen right
drive-right zero left seen right h = absurd (omega (arith, h))
drive-right (suc f) left seen [] h =
    drive-none union_next f _ (at_right left seen [])
      (union_next-right left seen [] ∙ (unfold unseen in refl))
drive-right (suc f) left seen (fault e ∷ s) h =
    drive-some union_next f _ (at_right left seen s) (fault e)
      (union_next-right left seen (fault e ∷ s) ∙ (unfold unseen in refl))
    ∙ ap (λ r. fault e ∷ r) (drive-right f left seen s (omega (arith, h)))
drive-right (suc f) left seen (pending ∷ s) h =
    drive-some union_next f _ (at_right left seen s) pending
      (union_next-right left seen (pending ∷ s) ∙ (unfold unseen in refl))
    ∙ ap (λ r. pending ∷ r) (drive-right f left seen s (omega (arith, h)))
drive-right (suc f) left seen (item id ∷ s) h = elim (Bool-cases (contains seen id.raw)) [
  | inl passed ↦ rw passed (
      drive-step union_next f (at_right left seen (item id ∷ s)) (at_right left seen s) (
        union_next-right left seen (item id ∷ s)
        ∙ ap (λ (q : Poll × Stream × List ℕ). (q.0, at_right left q.2 q.1))
            (unseen-passed seen id s passed)
        ∙ sym (union_next-right left seen s))
      ∙ drive-right (suc f) left seen s (omega (arith, h)))
  | inr taken ↦ rw taken (
      drive-some union_next f (at_right left seen (item id ∷ s)) (at_right left (id.raw ∷ seen) s)
        (item id)
        (union_next-right left seen (item id ∷ s)
          ∙ ap (λ (q : Poll × Stream × List ℕ). (q.0, at_right left q.2 q.1))
              (unseen-taken seen id s taken))
      ∙ ap (λ r. item id ∷ r) (drive-right f left (id.raw ∷ seen) s (omega (arith, h))))
]

union_next-left :
    (left right : Stream) (seen : List ℕ)
    → union_next (at_left left right seen)
      ≡ left_polled (at_left left right seen) (unseen seen left)
unfolding union_next
union_next-left left right seen = refl

-- One step on the left side, on an event that is passed on.
left_yields :
    (left rest right : Stream) (seen seen' : List ℕ) (e : Event)
    → unseen seen left ≡ (some e, rest, seen')
    → union_next (at_left left right seen) ≡ (some e, at_left rest right seen')
unfolding left_polled
left_yields left rest right seen seen' e h =
    union_next-left left right seen ∙ ap (left_polled (at_left left right seen)) h

polled_any_left :
    (left left' right : Stream) (seen : List ℕ) (q : Poll × Stream × List ℕ)
    → left_polled (at_left left right seen) q ≡ left_polled (at_left left' right seen) q
unfolding left_polled
polled_any_left left left' right seen (some e, rest, seen') = refl
polled_any_left left left' right seen (none, rest, seen') = refl

drive-left :
    (f : ℕ) (left right : Stream) (seen : List ℕ)
    → length left + length right < f
    → drive union_next f (at_left left right seen) ≡ deduped seen (left ++ right)
drive-left zero left right seen h = absurd (omega (arith, h))
drive-left (suc f) [] right seen h =
    drive-step union_next f (at_left [] right seen) (at_right [] seen right)
      (union_next-left [] right seen ∙ (unfold unseen left_polled union_next in refl))
    ∙ drive-right (suc f) [] seen right (omega (arith, h))
drive-left (suc f) (fault e ∷ s) right seen h =
    drive-some union_next f _ (at_left s right seen) (fault e)
      (left_yields (fault e ∷ s) s right seen seen (fault e) (unfold unseen in refl))
    ∙ ap (λ r. fault e ∷ r) (drive-left f s right seen (omega (arith, h)))
drive-left (suc f) (pending ∷ s) right seen h =
    drive-some union_next f _ (at_left s right seen) pending
      (left_yields (pending ∷ s) s right seen seen pending (unfold unseen in refl))
    ∙ ap (λ r. pending ∷ r) (drive-left f s right seen (omega (arith, h)))
drive-left (suc f) (item id ∷ s) right seen h = elim (Bool-cases (contains seen id.raw)) [
  | inl passed ↦ rw passed (
      drive-step union_next f (at_left (item id ∷ s) right seen) (at_left s right seen) (
        union_next-left (item id ∷ s) right seen
        ∙ ap (left_polled (at_left (item id ∷ s) right seen)) (unseen-passed seen id s passed)
        ∙ polled_any_left (item id ∷ s) s right seen (unseen seen s)
        ∙ sym (union_next-left s right seen))
      ∙ drive-left (suc f) s right seen (omega (arith, h)))
  | inr taken ↦ rw taken (
      drive-some union_next f (at_left (item id ∷ s) right seen) (at_left s right (id.raw ∷ seen))
        (item id)
        (left_yields (item id ∷ s) s right seen (id.raw ∷ seen) (item id)
          (unseen-taken seen id s taken))
      ∙ ap (λ r. item id ∷ r) (drive-left f s right (id.raw ∷ seen) (omega (arith, h))))
]

-- A consumer of `union` that polls more often than both sides have events sees the ids of the left
-- side and then those of the right, each at its first place only, and each fault and pending poll.
pub union_next-deduped :
    (f : ℕ) (left right : Stream)
    → length left + length right < f
    → drive union_next f (union left right) ≡ deduped [] (left ++ right)
unfolding union
union_next-deduped f left right h = drive-left f left right [] h
