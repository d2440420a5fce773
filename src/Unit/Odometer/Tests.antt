-- ===== src/Unit/Odometer/Tests.antt =====
-- A unit whose ring was reset, at concrete counts.
use split_flap.Common.{◌+◌, ◌<◌, ◌≡◌, ◌⊎◌, inr, refl, List, [], ◌∷◌, arith}
use split_flap.Common.Int.{ℤ, pos, negsuc}
use split_flap.Unit.Odometer.{OdometerState, boot_scan, torn_persist, reset_ring}
use split_flap.Unit.Odometer.Count.{add_moves, travelled, steps_of, add_moves_counts}
use split_flap.Unit.Odometer.Recovery.{
  reset_ring-Holds, torn_persist_recovers, boot_scan-persist_run, persist_run,
}

abbrev parked : OdometerState
parked = record { revolutions = 1; step_accumulator = 2000 }

abbrev moves : List ℤ
moves = pos 100 ∷ negsuc 4 ∷ []

add_moves_counts_example :
    (steps_of (add_moves parked moves 2038) 2038 ≡ steps_of parked 2038 + travelled moves)
    × ((add_moves parked moves 2038).step_accumulator < 2038)
add_moves_counts_example =
    add_moves_counts parked moves 2038 (omega arith) (omega arith) (omega arith)
      (omega arith, (omega arith, tt)) (omega arith)

boot_scan-persist_run_example : boot_scan (persist_run reset_ring 0 20) ≡ 20
boot_scan-persist_run_example = boot_scan-persist_run reset_ring 20 (omega arith) (inr refl)

torn_persist_recovers_example :
    (boot_scan (torn_persist 256 reset_ring 1) ≡ 0)
    ⊎ (boot_scan (torn_persist 256 reset_ring 1) ≡ 1)
unfolding reset_ring
torn_persist_recovers_example =
    torn_persist_recovers 0 256 reset_ring (omega arith) (omega arith) reset_ring-Holds
      (ground arith)
