-- ===== src/Pages/Dictionary.antt =====
-- crates/wavedb-storage/src/dictionary.rs: the append-only compression dictionary of a type.
pub mod Laws
use wavedb.Base.{
  ℕ, ◌+◌, ◌-◌, ◌*◌, ◌<◌, ◌≤◌, ◌^◌, ◌≡◌, refl, ap, arith, List, [], ◌++◌, length, take, Bool, true,
  false, not, ◌==◌, leb, min, Option, none, some, if◌then◌else◌,
}
use wavedb.Blocks.Descriptor.{BlockDescriptor}
use wavedb.Journal.Frame.{bytes_wire}
use wavedb.Wire.Codec.{to_wire_checked, from_wire_checked}
use wavedb.Pages.Fault.{
  StorageResult, ok, err, or_corrupt, dictionary_body, dictionary_length_truncated,
  dictionary_length_out_of_range, ◌>>=◌,
}
use wavedb.Pages.Framed.{framed, unframed}

abbrev pub dict_cap : ℕ
dict_cap = 64 * 1024

pub record Dictionary : Type 0 where
  pub buf : List ℕ

-- `Dictionary::sample`.
unfoldable pub sample : List ℕ → Dictionary → Dictionary
sample bytes d =
    let room = dict_cap - length d.buf in
    if room == 0 then d else record { buf = d.buf ++ take (min (length bytes) room) bytes }

-- `self.buf.get(..len)`.
unfoldable pub state : ℕ → Dictionary → Option (List ℕ)
state len d = if leb len (length d.buf) then some (take len d.buf) else none

-- `Dictionary::to_bytes` and `Dictionary::from_bytes`.
unfoldable pub dict_bytes : (List ℕ → ℕ) → Dictionary → List ℕ
dict_bytes crc d = framed (to_wire_checked crc bytes_wire d.buf)

unfoldable pub dict_of_bytes : (List ℕ → ℕ) → List ℕ → StorageResult Dictionary
dict_of_bytes crc bytes = do
  body ← unframed dictionary_length_truncated dictionary_length_out_of_range bytes
  buf ← or_corrupt dictionary_body (from_wire_checked crc bytes_wire body)
  ok (record { buf = buf })

pub record DictState : Type 0 where
  pub enabled : Bool
  pub dict : Dictionary
  pub desc : BlockDescriptor

-- `DictState::sample`: whether the dictionary grew.
unfoldable pub sample_state : List ℕ → DictState → DictState × Bool
unfolding sample
sample_state bytes s =
    let grown = sample bytes s.dict in
    if s.enabled
    then (record s { dict = grown }, not (length grown.buf == length s.dict.buf))
    else (s, false)

-- `DictState::repoint`, `load` and `reset`.
unfoldable pub repoint : BlockDescriptor → DictState → DictState × BlockDescriptor
repoint desc s = (record s { desc = desc }, s.desc)

unfoldable pub load : Dictionary → BlockDescriptor → DictState → DictState
load dict desc s = record s { dict = dict; desc = desc }

unfoldable pub reset : DictState → DictState
reset s = record s { dict = record { buf = [] }; desc = record { raw = 0 } }
