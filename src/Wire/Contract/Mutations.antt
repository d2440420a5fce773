-- ===== src/Wire/Contract/Mutations.antt =====
-- Which frames run a mutation: UnitWireContract.h's guarded opcodes and JOG, and what a flipped bit
-- can turn into one.
use split_flap.Common.{ℕ, ◌<◌, ◌≡◌, ◌↔◌, ◌⊎◌, some, [], ◌∷◌, Bool, true, false, arith, IsByte, not8}
use split_flap.Common.Int.{of_u8}
use split_flap.Wire.Cmd
use split_flap.Wire.Contract.{is_no_arg_mutation, no_arg_mutation_accepted, jog_encode, jog_decode}

-- A unit with the strict gate on runs an opcode exactly when the frame carries the guard byte alone
-- behind it, or is the bare ENTER_BOOTLOADER, which every generation of masters sends.
pub no_arg_mutation_accepted_strict_iff :
    (opcode extra_len guard : ℕ)
    → (no_arg_mutation_accepted opcode extra_len guard true ≡ true) ↔ (
        (extra_len ≡ 1) × (guard ≡ not8 opcode) ⊎ (extra_len ≡ 0) × (opcode ≡ Cmd.enter_bootloader))
unfolding no_arg_mutation_accepted
no_arg_mutation_accepted_strict_iff opcode extra_len guard = ground arith

-- A letter write is an index with a speed byte behind it. When its index is corrupted into one of
-- the opcodes, no unit runs it, whatever its gate, at any speed below 103 (masters send at most
-- 12).
pub letter_write_runs_no_mutation :
    (opcode speed : ℕ) (strict : Bool)
    → is_no_arg_mutation opcode ≡ true
    → speed < 103
    → no_arg_mutation_accepted opcode 1 speed strict ≡ false
unfolding is_no_arg_mutation no_arg_mutation_accepted
letter_write_runs_no_mutation opcode speed strict m h = ground arith

-- JOG: a strict unit moves exactly on the two bytes of an encoding.
pub jog_decode_strict_iff :
    (a b x : ℕ)
    → IsByte a
    → IsByte b
    → IsByte x
    → let payload = a ∷ b ∷ [] in
      (jog_decode payload 2 true ≡ some (of_u8 x)) ↔ (payload ≡ jog_encode x)
unfolding jog_decode jog_encode
jog_decode_strict_iff a b x ha hb hx = ground arith
