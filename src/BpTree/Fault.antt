-- ===== src/BpTree/Fault.antt =====
-- crates/wavedb-core/src/error.rs: the errors that the B+tree raises, and its `Result`.
use wavedb.Base.{ℕ}
use wavedb.Ids.LocalId.{LocalId}
use wavedb.Wire.Error.{Error}
use wavedb.Wire.Error.{Result as WireResult, ok as wire_ok, err as wire_err, stuck as wire_stuck}

-- The variants of `enum Error` that a tree raises itself. `Store` stands for the failure of a store.
pub data Fault : Type 0 where
  store : ℕ → Fault
  wire : Error → Fault
  bp_tree_node_missing : LocalId → Fault
  bp_tree_node_bad_tag : ℕ → Fault

-- `Result<T>`. `stuck` is no Rust value: a loop ran out of fuel, or an index is out of range, where
-- the source panics.
pub data Result {ℓ} (A : Type ℓ) : Type ℓ where
  ok : A → Result A
  err : Fault → Result A
  stuck : Result A

-- The operator `?`.
infixl 5 ◌>>=◌
abbrev pub ◌>>=◌ {ℓ κ} : {A : Type ℓ} {B : Type κ} → Result A → (A → Result B) → Result B
ok a >>= f = f a
err e >>= f = err e
stuck >>= f = stuck

-- `?` on a result of the codec, through `From<wavedb_wire::Error>`.
abbrev pub from_wire_error {ℓ} : {A : Type ℓ} → WireResult A → Result A
from_wire_error (wire_ok a) = ok a
from_wire_error (wire_err e) = err (wire e)
from_wire_error wire_stuck = stuck
