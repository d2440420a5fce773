-- ===== src/Unit/Odometer.antt =====
-- firmware/v2/Unit/UnitOdometer.h: the revolution counter, its ring of EEPROM slots and the
-- recovery at boot, with the loops of Unit.ino that drive them.
pub mod Count
pub mod Recovery
mod Tests
use split_flap.Common.{
  ℕ, zero, suc, ◌+◌, ◌*◌, ◌/◌, ◌%◌, bit_xor, List, [], ◌∷◌, Bool, true, false, ◌&&◌, ◌==◌, ◌!=◌,
  ltb, leb, if◌then◌else◌, get_or, set, replicate, u8, u16, u32, sub32,
}
use split_flap.Common.Int.{ℤ, abs}

abbrev pub ring_slots : ℕ
ring_slots = 16

abbrev pub persist_interval_revs : ℕ
persist_interval_revs = 1

abbrev pub slot_stride : ℕ
slot_stride = 5

pub record OdometerState : Type 0 where
  pub revolutions : ℕ  -- uint32_t
  pub step_accumulator : ℕ  -- uint16_t

-- `(uint32_t)(steps < 0 ? -steps : steps)` is |steps|.
unfoldable pub add_steps : OdometerState → ℤ → ℕ → OdometerState
add_steps s steps steps_per_rev =
    let magnitude = u32 (abs steps) in
    let total = u32 (s.step_accumulator + magnitude) in
    record {
      revolutions = u32 (s.revolutions + total / steps_per_rev);
      step_accumulator = u16 (total % steps_per_rev);
    }

unfoldable pub slot_index : ℕ → ℕ
slot_index revolutions = u8 (revolutions / persist_interval_revs % ring_slots)

unfoldable pub slot_offset : ℕ → ℕ
slot_offset slot = u16 (slot * slot_stride)

unfoldable pub should_persist : ℕ → ℕ → Bool
should_persist revolutions last_persisted =
    leb persist_interval_revs (sub32 revolutions last_persisted)

unfoldable pub slot_checksum : ℕ → ℕ
slot_checksum value = u8 (
    bit_xor
      (bit_xor (bit_xor (bit_xor (value % 256) (value / 256 % 256)) (value / 65536 % 256))
        (value / 16777216 % 256))
      0x3c)

-- A slot of the ring: the count and the checksum byte behind it.
pub record Slot : Type 0 where
  pub value : ℕ  -- uint32_t
  pub sum : ℕ  -- uint8_t

-- An erased slot reads 0xFF on every byte.
abbrev pub erased : Slot
erased = record { value = 0xffff_ffff; sum = 0xff }

-- `odometerBootScanSlot`, from the best count so far.
unfoldable pub boot_scan_slot : ℕ → Slot → ℕ
boot_scan_slot best slot =
    if slot.value != 0xffff_ffff && slot.sum == slot_checksum slot.value && ltb best slot.value
    then slot.value
    else best

-- The boot loop of Unit.ino over the ring's slots, from `odometerBootScanInit`.
boot_scan_from : ℕ → List Slot → ℕ
boot_scan_from best [] = best
boot_scan_from best (slot ∷ ring) = boot_scan_from (boot_scan_slot best slot) ring

unfoldable pub boot_scan : List Slot → ℕ
unfolding boot_scan_from
boot_scan ring = boot_scan_from 0 ring

-- The persist of Unit.ino's loop(): the value, then the checksum, into the slot of the count.
unfoldable pub persist : List Slot → ℕ → List Slot
unfolding slot_index
persist ring revs = set ring (slot_index revs) (record { value = revs; sum = slot_checksum revs })

-- A power loss in that persist after `written` (0 to 4) bytes of the value and before the checksum:
-- the value's low bytes are new, the rest of the slot is old.
unfoldable pub torn_value : ℕ → ℕ → ℕ → ℕ
torn_value base old revs = old / base * base + revs % base

unfoldable pub torn_persist : ℕ → List Slot → ℕ → List Slot
unfolding slot_index torn_value
torn_persist base ring revs =
    let old = get_or ring (slot_index revs) erased in
    set ring (slot_index revs) (record old { value = torn_value base old.value revs })

-- SFP_CMD_RESET_ODOMETER: every slot is written with the count 0.
unfoldable pub reset_ring : List Slot
unfolding slot_checksum
reset_ring = replicate ring_slots (record { value = 0; sum = slot_checksum 0 })
