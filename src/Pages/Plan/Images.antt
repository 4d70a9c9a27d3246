-- ===== src/Pages/Plan/Images.antt =====
-- The planned bytes are those of the staged pages.
use wavedb.Base.{ℕ, ◌≡◌, refl, List, [], ◌∷◌, ◌==◌, Option, none, some, Bool-cases, inl, inr}
use wavedb.Pages.Map.{Map, get-insert}
use wavedb.Pages.Map
use wavedb.Pages.Fault.{StorageResult, ok, err, stuck, ◌>>=◌}
use wavedb.Pages.Dictionary.{DictState}
use wavedb.Pages.Page.{SlotPage, to_bytes}
use wavedb.Pages.Directory.{Env, File}
use wavedb.Pages.Storage.{StructStorage}
use wavedb.Pages.Plan.{page_images}

pub bind_inv {ℓ κ} :
    {A : Type ℓ} {B : Type κ} (m : StorageResult A) (f : A → StorageResult B) {b : B}
    → (m >>= f) ≡ ok b
    → (a : A) × (m ≡ ok a) × (f a ≡ ok b)
bind_inv (ok a) f h = (a, refl, h)
bind_inv (err e) f h = cc
bind_inv stuck f h = cc

pub ok_eq {ℓ} : {A : Type ℓ} {a b : A} → ok a ≡ ok b → a ≡ b
ok_eq h = cc

abbrev pub IsImage : Env → DictState → Option SlotPage → Option (List ℕ) → Type 0
IsImage env dict none none = Unit
IsImage env dict none (some bytes) = ⊥
IsImage env dict (some p) none = ⊥
IsImage env dict (some p) (some bytes) = to_bytes env.codecs dict.dict dict.enabled p ≡ ok bytes

-- Bucket by bucket, the bytes of the staged page, and none where no page is staged.
abbrev pub AreImages : Env → DictState → Map SlotPage → Map (List ℕ) → Type 0
AreImages env dict staged pages = (b : ℕ) → IsImage env dict (Map.get b staged) (Map.get b pages)

pub insert-AreImages :
    (env : Env) (dict : DictState) (bucket : ℕ) (p : SlotPage) (bytes : List ℕ)
    (staged : Map SlotPage) (pages : Map (List ℕ))
    → to_bytes env.codecs dict.dict dict.enabled p ≡ ok bytes
    → AreImages env dict staged pages
    → AreImages env dict (Map.insert bucket p staged) (Map.insert bucket bytes pages)
insert-AreImages env dict bucket p bytes staged pages e images b =
    rw (get-insert bucket b p staged, get-insert bucket b bytes pages)
      (elim (Bool-cases (bucket == b)) [ inl here ↦ rw here e | inr there ↦ rw there (images b) ])

pub page_images-AreImages :
    (env : Env) (file : File) (slot : StructStorage) (dict : DictState) (staged : Map SlotPage)
    (pages : Map (List ℕ))
    → page_images env file slot dict staged ≡ ok pages
    → AreImages env dict staged pages
unfolding page_images Map.get
page_images-AreImages env file slot dict [] pages h b = rw (← ok_eq h) tt
page_images-AreImages env file slot dict ((bucket, p) ∷ staged) pages h b =
    let (bytes, e, rest) = bind_inv (to_bytes env.codecs dict.dict dict.enabled p) _ h in
    let (others, images, last) = bind_inv (page_images env file slot dict staged) _ rest in
    rw (← ok_eq last) (elim (Bool-cases (bucket == b)) [
      | inl here ↦ rw here e
      | inr there ↦ rw there (page_images-AreImages env file slot dict staged others images b)
    ])
