-- ===== src/Pages/Fault.antt =====
-- crates/wavedb-storage/src/error.rs: `StorageError` and `StorageResult`.
use wavedb.Base.{ℕ}
use wavedb.Ids.Id.{CompositeId}
use wavedb.Wire.Error.{Result as WireResult, ok as wire_ok, err as wire_err, stuck as wire_stuck}

-- The texts of `StorageError::Corrupt`.
pub data Part : Type 0 where
  page_length_truncated : Part
  page_length_out_of_range : Part
  page_envelope : Part
  page_dictionary_state_unknown : Part
  page_decompress : Part
  page_body : Part
  dictionary_length_truncated : Part
  dictionary_length_out_of_range : Part
  dictionary_body : Part
  record_shorter_than_struct_hash : Part
  edit_chunk_header : Part
  edit_chunk_length : Part
  edit_chunk : Part
  edit_chunk_bucket_out_of_range : Part
  edit_chain_too_long : Part

-- The variants that the modelled code raises or passes on. `conflict` is `Core(Error::Conflict(id))`,
-- `io` a failure of a file operation or of the compressor.
pub data StorageError : Type 0 where
  io : ℕ → StorageError
  corrupt : Part → StorageError
  unregistered_struct_hash : ℕ → StorageError
  conflict : CompositeId → StorageError

-- `stuck` is no Rust value: the source panics there, or a decode of the codec ran out of fuel.
pub data StorageResult {ℓ} (A : Type ℓ) : Type ℓ where
  ok : A → StorageResult A
  err : StorageError → StorageResult A
  stuck : StorageResult A

-- The operator `?`.
infixl 5 ◌>>=◌
abbrev pub ◌>>=◌ {ℓ κ} :
    {A : Type ℓ} {B : Type κ} → StorageResult A → (A → StorageResult B) → StorageResult B
ok a >>= f = f a
err e >>= f = err e
stuck >>= f = stuck

-- `map_err(|_| StorageError::Corrupt(part))`.
abbrev pub or_corrupt {ℓ} : {A : Type ℓ} → Part → WireResult A → StorageResult A
or_corrupt part (wire_ok a) = ok a
or_corrupt part (wire_err e) = err (corrupt part)
or_corrupt part wire_stuck = stuck

-- `expect` on a `Result`.
abbrev pub expect_ok {ℓ} : {A : Type ℓ} → StorageResult A → StorageResult A
expect_ok (ok a) = ok a
expect_ok (err e) = stuck
expect_ok stuck = stuck
