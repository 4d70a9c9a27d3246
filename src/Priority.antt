-- ===== src/Priority.antt =====
-- crates/wavedb-quick-node/src/shard/priority.rs: the valve that picks the queue which the page actor
-- serves next. A method of `&mut self` gives its result and the new state.
pub mod Starvation
use wavedb.Base.{
  ℕ, ◌+◌, ◌-◌, ◌*◌, ◌^◌, List, [], ◌∷◌, Bool, true, false, ◌||◌, ltb, leb, Option, none, some, min,
  if◌then◌else◌,
}

pub data Class : Type 0 where
  read : Class
  maintenance : Class

pub record Available : Type 0 where
  pub reads : Bool
  pub maintenance : Bool

abbrev pub low_water_bytes : ℕ
low_water_bytes = 8 * 2 ^ 20

abbrev pub high_water_bytes : ℕ
high_water_bytes = 64 * 2 ^ 20

abbrev pub default_reads_per_maintenance : ℕ
default_reads_per_maintenance = 8

pub record Priority : Type 0 where
  pub low_water : ℕ
  pub high_water : ℕ
  pub reads_per_maintenance : ℕ
  pub reads_since : ℕ

unfoldable pub new : ℕ → ℕ → ℕ → Priority
new low high reads_per_maintenance = record {
  low_water = low;
  high_water = if ltb high low then low else high;
  reads_per_maintenance = reads_per_maintenance;
  reads_since = 0;
}

unfoldable pub default : Priority
unfolding new
default = new low_water_bytes high_water_bytes default_reads_per_maintenance

-- The count of reads saturates at 32 bits.
abbrev pub serve_read : Priority → Class × Priority
serve_read p = (read, record p { reads_since = min (p.reads_since + 1) (2 ^ 32 - 1) })

abbrev pub serve_maintenance : Priority → Class × Priority
serve_maintenance p = (maintenance, record p { reads_since = 0 })

abbrev pub arbitrate : ℕ → Priority → Class × Priority
arbitrate unsettled p =
    if leb p.high_water unsettled
    then serve_maintenance p
    else if ltb unsettled p.low_water || ltb p.reads_since p.reads_per_maintenance
    then serve_read p
    else serve_maintenance p

abbrev pub pick : Bool → Bool → ℕ → Priority → Option (Class × Priority)
pick false false unsettled p = none
pick true false unsettled p = some (serve_read p)
pick false true unsettled p = some (serve_maintenance p)
pick true true unsettled p = some (arbitrate unsettled p)

unfoldable pub next : Available → ℕ → Priority → Option (Class × Priority)
next avail unsettled p = pick avail.reads avail.maintenance unsettled p

-- A sequence of calls, each with what is queued then and the unsettled volume: the classes served.
unfoldable pub serve_all : List (Available × ℕ) → Priority → List Class
unfolding next
serve_all [] p = []
serve_all ((avail, unsettled) ∷ calls) p = elim (next avail unsettled p) [
  | none ↦ serve_all calls p
  | some (class, p') ↦ class ∷ serve_all calls p'
]
