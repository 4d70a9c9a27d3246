-- ===== src/Pages/Page/Laws.antt =====
-- A page reads back from its bytes.
use wavedb.Base.{
  ℕ, zero, suc, ◌%◌, ◌^◌, ◌≤◌, ◌<◌, ◌≡◌, refl, sym, ◌∙◌, arith, List, [], ◌∷◌, ◌++◌, length, Bool,
  true, false, ltb, All, some, append-nil, append_assoc, subst, All-append_parts, le→leb,
  length-append, take-append, Bool-cases, inl, inr,
}
use wavedb.Journal.Frame.{bytes_wire, BytesFit, bytes-IsWire}
use wavedb.Wire.Codec.{to_wire, from_wire, to_wire_checked}
use wavedb.Wire.Codec.Laws.{IsWire}
use wavedb.Wire.Codec.RoundTrip.{from_wire-to_wire, from_wire_checked-to_wire_checked}
use wavedb.Wire.Scalars.{uint}
use wavedb.Wire.Scalars.Laws.{uint-IsWire}
use wavedb.Wire.Dynamic.{vec_heap_size}
use wavedb.Wire.Dynamic.Laws.{vec-IsWire}
use wavedb.Wire.Compose.{pair}
use wavedb.Wire.Compose.Laws.{pair-IsWire}
use wavedb.Wire.Derive.{enum_heap_size}
use wavedb.Wire.Derive.Laws.{derive_struct-IsWire, AreVariants, derive_enum-IsWire}
use wavedb.Pages.Map.{Map}
use wavedb.Pages.Map
use wavedb.Wire.Error as Wire
use wavedb.Pages.Fault.{
  StorageResult, ok, err, stuck, page_length_truncated, page_length_out_of_range, ◌>>=◌,
}
use wavedb.Pages.Framed.{framed, unframed-framed}
use wavedb.Pages.Dictionary.{Dictionary}
use wavedb.Pages.Dictionary
use wavedb.Pages.Page.{
  PagePayload, raw, zstd, payload_tag, PayloadFields, payload_fields, build_payload,
  payload_field_wire, payload_variants, payload_wire, PageEnvelope, envelope_wire, body_wire,
  SlotPage, Codecs, collect, smaller, payload_of, to_bytes, plain_of, from_bytes,
}

-- Numbers of their width, and lengths that fit 32 bits.
abbrev pub PayloadFieldsFit : (t : ℕ) → PayloadFields t → Type 0
PayloadFieldsFit zero f = BytesFit f
PayloadFieldsFit (suc t) f = (f.0 < 256 ^ 4) × ((f.1.0 < 256 ^ 4) × BytesFit f.1.1)

payload_field_law : (t : ℕ) → IsWire (payload_field_wire t) (PayloadFieldsFit t)
payload_field_law zero = bytes-IsWire
payload_field_law (suc t) = pair-IsWire (uint-IsWire 4) (pair-IsWire (uint-IsWire 4) bytes-IsWire)

payload_tag-lt : (v : PagePayload) → payload_tag v < 2
payload_tag-lt (raw bytes) = omega arith
payload_tag-lt (zstd dict_len raw_len bytes) = omega arith

build_payload-fields : (v : PagePayload) → build_payload (payload_tag v) (payload_fields v) ≡ v
build_payload-fields (raw bytes) = refl
build_payload-fields (zstd dict_len raw_len bytes) = refl

payload-AreVariants :
    AreVariants payload_variants (λ v. PayloadFieldsFit (payload_tag v) (payload_fields v))
payload-AreVariants = record {
  FieldsFit = PayloadFieldsFit;
  field_law = payload_field_law;
  fields_fit = λ v fits. fits;
  tag_lt = payload_tag-lt;
  build-fields = build_payload-fields;
}

abbrev pub PayloadFits : PagePayload → Type 0
PayloadFits v =
    PayloadFieldsFit (payload_tag v) (payload_fields v)
    × (enum_heap_size payload_variants v < 2 ^ 32)

payload-IsWire : IsWire payload_wire PayloadFits
unfolding payload_wire
payload-IsWire = derive_enum-IsWire payload-AreVariants

envelope-IsWire : IsWire envelope_wire (λ e. (e.struct_hash < 256 ^ 8) × PayloadFits e.payload)
unfolding envelope_wire
envelope-IsWire = derive_struct-IsWire _ (pair-IsWire (uint-IsWire 8) payload-IsWire) (λ e. refl)

abbrev pub BodyFits : List (ℕ × List ℕ) → Type 0
BodyFits records =
    All (λ r. (r.0 < 256 ^ 16) × BytesFit r.1) records
    × (vec_heap_size (pair (uint 16) bytes_wire) records < 2 ^ 32)

body-IsWire : IsWire body_wire BodyFits
unfolding body_wire uint pair
body-IsWire =
    derive_struct-IsWire _ (vec-IsWire (pair-IsWire (uint-IsWire 16) bytes-IsWire) (omega arith))
      (λ l. refl)

-- The keys rise.
abbrev pub IsSorted {ℓ} : {V : Type ℓ} → Map V → Type 0
IsSorted [] = Unit
IsSorted (e ∷ m) = All (λ f. e.0 < f.0) m × IsSorted m

insert_last {ℓ} :
    {V : Type ℓ} (k : ℕ) (v : V) (m : Map V)
    → All (λ f. f.0 < k) m
    → Map.insert k v m ≡ m ++ (k, v) ∷ []
unfolding Map.insert
insert_last k v [] h = refl
insert_last k v ((j, w) ∷ m) (h, hs) = ground (arith, insert_last k v m hs)

sorted_below {ℓ} :
    {V : Type ℓ} (m : Map V) (e : ℕ × V) (l : Map V)
    → IsSorted (m ++ e ∷ l)
    → All (λ f. f.0 < e.0) m
sorted_below [] e l h = tt
sorted_below (f ∷ m) e l (h, hs) = ((All-append_parts _ m (e ∷ l) h).1.0, sorted_below m e l hs)

ok_eq {ℓ} : {A : Type ℓ} {a b : A} → ok a ≡ ok b → a ≡ b
ok_eq h = cc

collect_sorted : (m l : Map (List ℕ)) → IsSorted (m ++ l) → collect m l ≡ m ++ l
collect_sorted m [] h = sym (append-nil m)
collect_sorted m ((k, v) ∷ l) h =
    let one : (m ++ (k, v) ∷ []) ++ l ≡ m ++ (k, v) ∷ l = append_assoc m ((k, v) ∷ []) l in
    rw (insert_last k v m (sorted_below m (k, v) l h))
      (collect_sorted (m ++ (k, v) ∷ []) l (subst IsSorted (sym one) h) ∙ one)

-- What the page relies on in the crates: a 32-bit checksum, and a decompressor that undoes the
-- compressor with the same dictionary.
pub record AreCodecs (c : Codecs) : Type 0 where
  pub is_u32 : (bytes : List ℕ) → c.crc bytes < 2 ^ 32
  pub decompress-compress :
      (dict plain packed : List ℕ)
      → c.compress dict plain ≡ ok packed
      → c.decompress dict packed (length plain) ≡ some plain

module _ {c : Codecs} (law : AreCodecs c) where
  packed_case :
      (dict : Dictionary) (more plain : List ℕ) (payload : PagePayload) (r : StorageResult (List ℕ))
      → length dict.buf < 2 ^ 32
      → length plain < 2 ^ 32
      → c.compress dict.buf plain ≡ r
      → (r >>= λ packed. ok (smaller c dict plain packed)) ≡ ok payload
      → plain_of c (record { buf = dict.buf ++ more }) payload ≡ ok plain
  unfolding plain_of smaller Dictionary.state
  packed_case dict more plain payload (err f) hd hp e h = cc
  packed_case dict more plain payload stuck hd hp e h = cc
  packed_case dict more plain payload (ok packed) hd hp e h =
      rw (← ok_eq h) (elim (Bool-cases (ltb (length packed) (length plain))) [
        | inr no_gain ↦ rw no_gain refl
        | inl gain ↦
            let small : length dict.buf % 2 ^ 32 ≡ length dict.buf = omega (arith, hd) in
            let plain_len : length plain % 2 ^ 32 ≡ length plain = omega (arith, hp) in
            let room : length dict.buf ≤ length (dict.buf ++ more) =
              omega (arith, length-append dict.buf more) in
            rw gain (
              rw (small, plain_len, le→leb _ _ room, take-append dict.buf more)
                (rw (law.decompress-compress dict.buf plain packed e) refl))
      ])

  -- A dictionary that has grown gives the state that a page was written under.
  pub plain_of-payload_of :
      (dict : Dictionary) (more : List ℕ) (compressed : Bool) (plain : List ℕ)
      (payload : PagePayload)
      → length dict.buf < 2 ^ 32
      → length plain < 2 ^ 32
      → payload_of c dict compressed plain ≡ ok payload
      → plain_of c (record { buf = dict.buf ++ more }) payload ≡ ok plain
  unfolding payload_of plain_of smaller Dictionary.state
  plain_of-payload_of dict more false plain payload hd hp e = rw (← ok_eq e) refl
  plain_of-payload_of dict more true plain payload hd hp e =
      packed_case dict more plain payload (c.compress dict.buf plain) hd hp refl e

  -- Where the codecs are lawful, the dictionary, the records and the envelope are below 2 ^ 32
  -- bytes, their numbers fit, the ids stand in order and the page can be compressed, the page has
  -- bytes, and they read back as the page under every dictionary that has grown from the one that
  -- they were made with, whatever stands behind them in the run.
  pub from_bytes-to_bytes_grown :
      (dict : Dictionary) (more pad : List ℕ) (compressed : Bool) (p : SlotPage)
      (payload : PagePayload)
      → length dict.buf < 2 ^ 32
      → length (to_wire body_wire p.records) < 2 ^ 32
      → payload_of c dict compressed (to_wire body_wire p.records) ≡ ok payload
      → (p.struct_hash < 256 ^ 8) × PayloadFits payload
      → length (
          to_wire_checked c.crc envelope_wire
            (record { struct_hash = p.struct_hash; payload = payload }))
        < 2 ^ 32
      → BodyFits p.records
      → IsSorted p.records
      → (bytes : List ℕ) × (to_bytes c dict compressed p ≡ ok bytes)
        × (from_bytes c (record { buf = dict.buf ++ more }) (bytes ++ pad) ≡ ok p)
  unfolding to_bytes from_bytes
  from_bytes-to_bytes_grown dict more pad compressed p payload hd hp e fits small body sorted =
      let envelope : PageEnvelope = record { struct_hash = p.struct_hash; payload = payload } in
      let read : from_wire body_wire (to_wire body_wire p.records) ≡ Wire.ok p.records =
        rw append-nil at (from_wire-to_wire body-IsWire p.records [] body) in
      (
        framed (to_wire_checked c.crc envelope_wire envelope),
        rw e refl,
        rw
            (
              unframed-framed page_length_truncated page_length_out_of_range
                  (to_wire_checked c.crc envelope_wire envelope) pad small,
              from_wire_checked-to_wire_checked envelope-IsWire c.crc law.is_u32 envelope fits,
              plain_of-payload_of dict more compressed (to_wire body_wire p.records) payload hd hp
                  e,
              read,
              collect_sorted [] p.records sorted,
            )
            refl,
      )
