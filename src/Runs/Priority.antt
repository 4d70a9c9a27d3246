-- ===== src/Runs/Priority.antt =====
-- The valve at a concrete input.
use wavedb.Base.{◌≡◌, refl, arith, [], ◌∷◌, true}
use wavedb.Priority.{Priority, Available, serve_all}
use wavedb.Priority.Starvation.{has_maintenance, serve_all-has_maintenance}

abbrev both : Available
both = record { reads = true; maintenance = true }

-- Two reads a run, and marks of 10 and 20 bytes.
abbrev valve : Priority
valve = record { low_water = 10; high_water = 20; reads_per_maintenance = 2; reads_since = 0 }

serve_all-has_maintenance_example :
    has_maintenance (serve_all ((both, 12) ∷ (both, 13) ∷ (both, 14) ∷ []) valve) ≡ true
serve_all-has_maintenance_example =
    serve_all-has_maintenance valve ((both, 12) ∷ (both, 13) ∷ (both, 14) ∷ []) (omega arith)
      ((refl, omega arith), ((refl, omega arith), ((refl, omega arith), tt))) (omega arith)
