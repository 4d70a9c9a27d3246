-- ===== src/Pages/Edit/Restores.antt =====
-- The edits of the rounds, replayed, give the addresses that the directories have.
use wavedb.Base.{
  ℕ, zero, suc, ◌-◌, ◌%◌, ◌^◌, ◌<◌, ◌≤◌, ◌≡◌, refl, sym, ap, ◌∙◌, arith, List, [], ◌∷◌, ◌++◌, map,
  All, Bool, true, false, length, replicate, length-append, length-replicate, length-map, ltb, ◌==◌,
  ==_iff, Option, none, some, if◌then◌else◌, Bool-cases, inl, inr,
}
use wavedb.Blocks.Descriptor.{BlockDescriptor}
use wavedb.Pages.Map.{Map, has, get-insert}
use wavedb.Pages.Map
use wavedb.Pages.Fault.{StorageResult, ok}
use wavedb.Pages.Directory.{descriptor}
use wavedb.Pages.Edit.{
  SlotEdit, Replay, changed_buckets, planned_edit, raw_of, or_default, resized, put_address,
  put_addresses, put_dict, apply_edit,
}

-- `v.get(i)`.
abbrev at : List ℕ → ℕ → Option ℕ
at [] i = none
at (x ∷ xs) zero = some x
at (x ∷ xs) (suc i) = at xs i

at_ext :
    (xs ys : List ℕ)
    → length xs ≡ length ys
    → ((i : ℕ) → i < length xs → at xs i ≡ at ys i)
    → xs ≡ ys
at_ext [] [] n h = refl
at_ext [] (y ∷ ys) n h = absurd (omega (arith, n))
at_ext (x ∷ xs) [] n h = absurd (omega (arith, n))
at_ext (x ∷ xs) (y ∷ ys) n h =
    let tails = at_ext xs ys (omega (arith, n)) (λ i l. h (suc i) (omega (arith, l))) in
    let heads = h 0 (omega arith) in cc (tails, heads)

at-append : (xs ys : List ℕ) (i : ℕ) → i < length xs → at (xs ++ ys) i ≡ at xs i
at-append [] ys i h = absurd (omega (arith, h))
at-append (x ∷ xs) ys zero h = refl
at-append (x ∷ xs) ys (suc i) h = at-append xs ys i (omega (arith, h))

at-raw :
    (slots : List BlockDescriptor) (i : ℕ)
    → i < length slots
    → at (map (λ d. d.raw) slots) i ≡ some (raw_of (descriptor slots i))
at-raw [] i h = absurd (omega (arith, h))
at-raw (d ∷ slots) zero h = refl
at-raw (d ∷ slots) (suc i) h = at-raw slots i (omega (arith, h))

-- One write.
put_address_lem :
    (b v : ℕ) (xs : List ℕ)
    → b < length xs
    → (ys : List ℕ) × (put_address b v xs ≡ ok ys)
      × (length ys ≡ length xs)
      × ((j : ℕ) → j < length xs → at ys j ≡ (if b == j then some v else at xs j))
put_address_lem b v [] h = absurd (omega (arith, h))
put_address_lem zero v (x ∷ xs) h = (v ∷ xs, refl, refl, first)
  where
    first :
        (j : ℕ) → j < length (x ∷ xs) → at (v ∷ xs) j ≡ (if 0 == j then some v else at (x ∷ xs) j)
    first zero l = refl
    first (suc j) l = ground arith
put_address_lem (suc b) v (x ∷ xs) h =
    let (ys, e, n, look) = put_address_lem b v xs (omega (arith, h)) in
    (x ∷ ys, rw e refl, ap suc n, later ys look)
  where
    later :
        (ys : List ℕ)
        → ((j : ℕ) → j < length xs → at ys j ≡ (if b == j then some v else at xs j))
        → (j : ℕ) → j < length (x ∷ xs)
        → at (x ∷ ys) j ≡ (if suc b == j then some v else at (x ∷ xs) j)
    later ys look zero l = ground arith
    later ys look (suc j) l = look j (omega (arith, l)) ∙ ground arith

put_next :
    (b b' v : ℕ) (xs ys : List ℕ) (rest : List (ℕ × ℕ)) (r : StorageResult (List ℕ))
    → b' ≡ b
    → put_address b v xs ≡ ok ys
    → put_addresses rest ys ≡ r
    → put_addresses ((b', v) ∷ rest) xs ≡ r
put_next b b' v xs ys rest r eb e h = rw (eb, e) h

look_both :
    (b j : ℕ) (bytes : List ℕ) (pages : Map (List ℕ)) (slots : List BlockDescriptor)
    (z y x : Option ℕ)
    → z ≡ (if has j pages then some (raw_of (descriptor slots j)) else y)
    → y ≡ (if b == j then some (raw_of (descriptor slots b)) else x)
    → z ≡ (if has j ((b, bytes) ∷ pages) then some (raw_of (descriptor slots j)) else x)
unfolding Map.get
look_both b j bytes pages slots z y x ez ey = elim (Bool-cases (b == j)) [
  | inr apart ↦
      rw (has, apart)
        (ez
          ∙ ap (λ (y : Option ℕ). if has j pages then some (raw_of (descriptor slots j)) else y)
              (rw apart at ey))
  | inl same ↦
      let found : y ≡ some (raw_of (descriptor slots j)) =
        (rw same at ey) ∙ ap (λ b. some (raw_of (descriptor slots b))) ((==_iff b j).0 same) in
      rw (has, same) (ez ∙ either (has j pages) found)
]
  where
    either :
        (t : Bool)
        → y ≡ some (raw_of (descriptor slots j))
        → (if t then some (raw_of (descriptor slots j)) else y) ≡ some (raw_of (descriptor slots j))
    either true f = refl
    either false f = f

-- The writes of a plan.
put_changed :
    (pages : Map (List ℕ)) (slots : List BlockDescriptor) (xs : List ℕ)
    → length slots < 2 ^ 32
    → length xs ≡ length slots
    → All (λ e. e.0 < length slots) pages
    → (ys : List ℕ) × (put_addresses (changed_buckets pages slots) xs ≡ ok ys)
      × (length ys ≡ length slots)
      × ((j : ℕ)
          → j < length slots
          → at ys j ≡ (if has j pages then some (raw_of (descriptor slots j)) else at xs j))
unfolding changed_buckets Map.get
put_changed [] slots xs small n h = (xs, refl, n, λ j l. refl)
put_changed ((b, bytes) ∷ pages) slots xs small n (hb, h) =
    let same : b % 2 ^ 32 ≡ b = omega (arith, small, hb) in
    let (ys, e, m, look) =
      put_address_lem b (raw_of (descriptor slots b)) xs (omega (arith, n, hb)) in
    let (zs, e', m', look') = put_changed pages slots ys small (m ∙ n) h in
    (
      zs,
      put_next b (b % 2 ^ 32) _ xs ys _ (ok zs) same e e',
      m',
      λ j l. look_both b j bytes pages slots _ _ _ (look' j l) (look j (omega (arith, l, n))),
    )

length-resized :
    (old slots : List BlockDescriptor)
    → length old ≤ length slots
    → length (resized (length slots) (map (λ d. d.raw) old)) ≡ length slots
length-resized old slots h =
    elim (Bool-cases (ltb (length (map (λ d. d.raw) old)) (length slots))) [
      | inl more ↦ rw more (
          omega (
            arith,
            h,
            length-map (λ d. d.raw) old,
            length-append (map (λ d. d.raw) old)
                (replicate (length slots - length (map (λ d. d.raw) old)) 0),
            length-replicate {A = ℕ} (length slots - length (map (λ d. d.raw) old)) 0,
          ))
      | inr same ↦ rw same (ground (arith, h, length-map (λ d. d.raw) old, same))
    ]

at-resized :
    (old slots : List BlockDescriptor) (j : ℕ)
    → j < length old
    → at (resized (length slots) (map (λ d. d.raw) old)) j ≡ some (raw_of (descriptor old j))
at-resized old slots j h = elim (Bool-cases (ltb (length (map (λ d. d.raw) old)) (length slots))) [
  | inl more ↦
      rw more (at-append _ _ j (omega (arith, h, length-map (λ d. d.raw) old)) ∙ at-raw old j h)
  | inr same ↦ rw same (at-raw old j h)
]

point : (t : Bool) (z y v : Option ℕ) → z ≡ (if t then v else y) → (t ≡ false → y ≡ v) → z ≡ v
point true z y v e f = e
point false z y v e f = e ∙ f refl

pub apply_done :
    (edit : SlotEdit) (r : Replay) (base ys : List ℕ)
    → resized edit.buckets (or_default (Map.get edit.struct_hash r.slots)) ≡ base
    → put_addresses edit.changed base ≡ ok ys
    → apply_edit edit r
      ≡ ok (record {
        slots = Map.insert edit.struct_hash ys r.slots;
        dicts = put_dict edit.dict edit.struct_hash r.dicts;
      })
unfolding apply_edit
apply_done edit r base ys eb e = rw (eb, e) refl

-- Where a directory of less than 2 ^ 32 buckets is no shorter than the one before, a round has
-- pages for buckets of it only, a bucket without a page has the address that it had, and the
-- replayed state holds the addresses of the directory before, the delta of the round applies
-- without a fault and leaves the addresses of its directory for the type, and all other types as
-- they were.
pub apply_edit-planned_edit :
    (hash : ℕ) (old slots : List BlockDescriptor) (pages : Map (List ℕ)) (dict : Option ℕ)
    (r : Replay)
    → length slots < 2 ^ 32
    → length old ≤ length slots
    → All (λ e. e.0 < length slots) pages
    → ((b : ℕ)
        → b < length slots
        → has b pages ≡ false
        → (b < length old) × (descriptor slots b ≡ descriptor old b))
    → or_default (Map.get hash r.slots) ≡ map (λ d. d.raw) old
    → (r' : Replay) × (apply_edit (planned_edit hash slots pages false dict) r ≡ ok r')
      × ((h : ℕ)
          → Map.get h r'.slots
            ≡ (if hash == h then some (map (λ d. d.raw) slots) else Map.get h r.slots))
unfolding planned_edit apply_edit
apply_edit-planned_edit hash old slots pages dict r small shorter keys kept before =
    let base : List ℕ = resized (length slots) (map (λ d. d.raw) old) in
    let (ys, e, n, look) =
      put_changed pages slots base small (length-resized old slots shorter) keys in
    let whole : ys ≡ map (λ d. d.raw) slots =
      at_ext ys (map (λ d. d.raw) slots) (n ∙ sym (length-map (λ d. d.raw) slots)) (λ j l.
        point (has j pages) _ _ (some (raw_of (descriptor slots j))) (look j (omega (arith, l, n)))
          (λ none_planned.
            let (in_old, same) = kept j (omega (arith, l, n)) none_planned in
            at-resized old slots j in_old ∙ ap (λ d. some (raw_of d)) (sym same))
        ∙ sym (at-raw slots j (omega (arith, l, n)))) in
    let start : resized (length slots % 2 ^ 32) (or_default (Map.get hash r.slots)) ≡ base =
      rw before (ap (λ k. resized k (map (λ d. d.raw) old)) (omega (arith, small))) in
    (
      _,
      apply_done (planned_edit hash slots pages false dict) r base ys start e,
      λ h.
          get-insert hash h ys r.slots
          ∙ ap (λ a. if hash == h then some a else Map.get h r.slots) whole,
    )
