-- ===== src/Wire/Tests.antt =====
-- The replies of a unit at 2 revolutions, and the frames of its master, at concrete bytes.
use split_flap.Common.{ℕ, ◌≡◌, refl, List, [], ◌∷◌, false, arith, set}
use split_flap.Wire.Cmd
use split_flap.Wire.Contract.{no_arg_mutation_accepted, is_no_arg_mutation}
use split_flap.Wire.Contract.Mutations.{letter_write_runs_no_mutation}
use split_flap.Wire.Replies.{odometer_readback_valid}
use split_flap.Wire.Detect.{Reply, single_byte_error_rejected, accepts}

abbrev two_turns : List ℕ
two_turns = 2 ∷ 0 ∷ 0 ∷ 0 ∷ 167 ∷ []

single_byte_error_rejected_example : accepts Reply.odometer (set two_turns 0 3) ≡ false
unfolding accepts odometer_readback_valid
single_byte_error_rejected_example =
    single_byte_error_rejected Reply.odometer two_turns 0 3 refl (ground arith) (omega arith)
      (omega arith) (omega arith) refl

letter_write_runs_no_mutation_example : no_arg_mutation_accepted Cmd.reboot 1 12 false ≡ false
unfolding is_no_arg_mutation
letter_write_runs_no_mutation_example =
    letter_write_runs_no_mutation Cmd.reboot 12 false (ground arith) (omega arith)
