-- ===== src/Unit/Drift/Tests.antt =====
-- A drum of 2038 steps that fell 12 steps behind its position.
use split_flap.Common.{◌+◌, ◌%◌, ◌<◌, ◌≡◌, List, [], ◌∷◌, true, arith}
use split_flap.Common.Int.{ℤ, pos, negsuc}
use split_flap.Unit.Drift.{DriftState, drift_reset}
use split_flap.Unit.Drift.Reckoning.{advance_moves, ahead, back, advance_moves_lem}

abbrev ran_ahead : DriftState
ran_ahead = record drift_reset { drum_position = 12; position_known = true }

abbrev moves : List ℤ
moves = pos 4000 ∷ negsuc 29 ∷ []

advance_moves_lem_example :
    let t = advance_moves ran_ahead moves 2038 in
    (t.drum_position < 2038) × ((t.drum_position + back moves) % 2038 ≡ (12 + ahead moves) % 2038)
advance_moves_lem_example =
    advance_moves_lem ran_ahead moves 2038 (omega arith) (omega arith) (omega arith)
