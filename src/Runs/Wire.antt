-- ===== src/Runs/Wire.antt =====
-- The codec at concrete inputs.
use wavedb.Base.{ℕ, ◌%◌, ◌^◌, ◌<◌, ◌≡◌, arith, List, [], ◌∷◌, All, length}
use wavedb.Wire.Error.{ok, stuck}
use wavedb.Wire.Codec.{to_wire, from_wire, to_wire_checked, from_wire_checked}
use wavedb.Wire.Codec.Laws.{IsWire}
use wavedb.Wire.Codec.RoundTrip.{from_wire_checked-to_wire_checked}
use wavedb.Wire.Scalars.{uint, unit}
use wavedb.Wire.Scalars.Laws.{uint-IsWire}
use wavedb.Wire.Dynamic.{vec, vec_heap_size, vec_loop}
use wavedb.Wire.Dynamic.Laws.{vec-IsWire}
use wavedb.Wire.Dynamic.Ending.{vec_loop-unit, vec-unit_reads_empty}

sum32 : List ℕ → ℕ
sum32 bytes = length bytes % 2 ^ 32

from_wire_checked-to_wire_checked_example :
    from_wire_checked sum32 (uint 2) (to_wire_checked sum32 (uint 2) 300) ≡ ok 300
unfolding sum32
from_wire_checked-to_wire_checked_example =
    from_wire_checked-to_wire_checked (uint-IsWire 2) sum32 (λ bytes. omega arith) 300 (omega arith)

vec-IsWire_example :
    IsWire (vec (uint 2)) (λ es. All (λ v. v < 256 ^ 2) es × (vec_heap_size (uint 2) es < 2 ^ 32))
unfolding uint
vec-IsWire_example = vec-IsWire (uint-IsWire 2) (omega arith)

vec_loop-unit_example : vec_loop unit 3 (0 ∷ []) 0 [] ≡ stuck
vec_loop-unit_example = vec_loop-unit 3 (0 ∷ []) 0 [] (omega arith)

vec-unit_reads_empty_example : from_wire (vec unit) (to_wire (vec unit) (tt ∷ tt ∷ [])) ≡ ok []
vec-unit_reads_empty_example = vec-unit_reads_empty (tt ∷ tt ∷ [])
