-- ===== src/Pages/Plan/Reading.antt =====
-- Pages read the same behind a dictionary that has grown.
use wavedb.Base.{ℕ, ◌≡◌, refl, List, Bool, true, false, inl, inr, Option, none, some, Option-cases}
use wavedb.Blocks.Descriptor.{BlockDescriptor, is_allocated, run}
use wavedb.Wire.Codec.{from_wire_checked}
use wavedb.Pages.Fault.{
  StorageResult, ok, err, stuck, or_corrupt, ◌>>=◌, page_length_truncated, page_length_out_of_range,
  page_envelope,
}
use wavedb.Pages.Framed.{unframed}
use wavedb.Pages.Dictionary.{Dictionary, DictState}
use wavedb.Pages.Dictionary
use wavedb.Pages.Dictionary.Laws.{Grown, state-Grown}
use wavedb.Pages.Page.{
  Codecs, PagePayload, raw, zstd, envelope_wire, SlotPage, plain_of, from_bytes,
}
use wavedb.Pages.Directory.{Directory, Env, File, descriptor, page_at, read_page}

plain_of-Grown :
    (c : Codecs) (d d' : Dictionary) (payload : PagePayload) (plain : List ℕ)
    → Grown d d'
    → plain_of c d payload ≡ ok plain
    → plain_of c d' payload ≡ ok plain
unfolding plain_of
plain_of-Grown c d d' (raw bytes) plain g h = h
plain_of-Grown c d d' (zstd dict_len raw_len bytes) plain g h =
    elim (Option-cases (Dictionary.state dict_len d)) [
      | inl unknown ↦ let bad = rw unknown at h in cc
      | inr (s, known) ↦ rw (state-Grown d d' dict_len s g known) (rw known at h)
    ]

bind_imp {ℓ κ} :
    {A : Type ℓ} {B : Type κ} (m m' : StorageResult A) (f : A → StorageResult B) {b : B}
    → ((a : A) → m ≡ ok a → m' ≡ ok a)
    → (m >>= f) ≡ ok b
    → (m' >>= f) ≡ ok b
bind_imp (ok a) m' f imp h = rw (imp a refl) h
bind_imp (err e) m' f imp h = cc
bind_imp stuck m' f imp h = cc

bind_same {ℓ κ} :
    {A : Type ℓ} {B : Type κ} (m : StorageResult A) (f g : A → StorageResult B) {b : B}
    → ((a : A) → f a ≡ ok b → g a ≡ ok b)
    → (m >>= f) ≡ ok b
    → (m >>= g) ≡ ok b
bind_same (ok a) f g imp h = imp a h
bind_same (err e) f g imp h = cc
bind_same stuck f g imp h = cc

from_bytes-Grown :
    (c : Codecs) (d d' : Dictionary) (buf : List ℕ) (p : SlotPage)
    → Grown d d'
    → from_bytes c d buf ≡ ok p
    → from_bytes c d' buf ≡ ok p
unfolding from_bytes
from_bytes-Grown c d d' buf p g h =
    bind_same (unframed page_length_truncated page_length_out_of_range buf) _ _
      (λ body.
        bind_same (or_corrupt page_envelope (from_wire_checked c.crc envelope_wire body)) _ _
          (λ envelope.
            bind_imp (plain_of c d envelope.payload) (plain_of c d' envelope.payload) _
              (λ plain. plain_of-Grown c d d' envelope.payload plain g)))
      h

-- A page that reads under a dictionary reads the same under a longer one.
pub read_page-Grown :
    (env : Env) (dir : Directory) (hash : ℕ) (file : File) (bucket : ℕ) (dict dict' : DictState)
    (p : SlotPage)
    → Grown dict.dict dict'.dict
    → read_page env dir hash file bucket dict ≡ ok p
    → read_page env dir hash file bucket dict' ≡ ok p
unfolding read_page
read_page-Grown env dir hash file bucket dict dict' p g h =
    from_slot (descriptor dir.slots bucket) h
  where
    allocated :
        (desc : BlockDescriptor) (b : Bool)
        → is_allocated desc ≡ b
        → page_at env hash file dict (some desc) ≡ ok p
        → page_at env hash file dict' (some desc) ≡ ok p
    allocated desc false e h = rw (page_at, e) (rw (page_at, e) at h)
    allocated desc true e h =
        rw (page_at, e)
          (bind_same (file (run desc)) _ _
            (λ bytes. from_bytes-Grown env.codecs dict.dict dict'.dict bytes p g)
            (rw (page_at, e) at h))

    from_slot :
        (o : Option BlockDescriptor)
        → page_at env hash file dict o ≡ ok p
        → page_at env hash file dict' o ≡ ok p
    from_slot none h = h
    from_slot (some desc) h = allocated desc (is_allocated desc) refl h
