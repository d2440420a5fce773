-- ===== src/Wire/BusRecord.antt =====
-- firmware/v2/shared/UnitBusRecord.h: what a unit remembers of the times nobody addressed it, and
-- the reply that carries it.
use split_flap.Common.{ℕ, Option, none, some, List, [], ◌∷◌, ◌++◌, ◌!=◌, ltb, if◌then◌else◌, get_or}
use split_flap.Wire.Checksum.{masked_xor}

-- The bits of `flags`.
abbrev pub flag_traffic : ℕ
flag_traffic = 0x01

abbrev pub flag_line_low : ℕ
flag_line_low = 0x02

abbrev pub flag_ended : ℕ
flag_ended = 0x04

abbrev pub flag_restarted : ℕ
flag_restarted = 0x08

-- Every field is a uint8_t.
pub record BusRecord : Type 0 where
  pub silences : ℕ
  pub last_minutes : ℕ
  pub longest_minutes : ℕ
  pub reinits : ℕ
  pub reinits_heard : ℕ
  pub self_restarts : ℕ
  pub flags : ℕ

pub record BusRecordReading : Type 0 where
  pub stored : BusRecord
  pub silent_now_minutes : ℕ

unfoldable pub bus_record_checksum : List ℕ → ℕ
unfolding masked_xor
bus_record_checksum buf = masked_xor 8 0xd4 buf

unfoldable pub bus_record_encode_reply : BusRecord → ℕ → List ℕ
unfolding bus_record_checksum
bus_record_encode_reply r silent_now_minutes =
    let payload =
      r.silences ∷ r.last_minutes ∷ r.longest_minutes ∷ r.reinits ∷ r.reinits_heard
      ∷ r.self_restarts ∷ r.flags ∷ silent_now_minutes ∷ [] in
    payload ++ bus_record_checksum payload ∷ []

unfoldable pub bus_record_readback_valid : List ℕ → ℕ → Option BusRecordReading
unfolding bus_record_checksum
bus_record_readback_valid buf len =
    if ltb len 9
    then none
    else if get_or buf 8 0 != bus_record_checksum buf
    then none
    else some (record {
      stored = record {
        silences = get_or buf 0 0;
        last_minutes = get_or buf 1 0;
        longest_minutes = get_or buf 2 0;
        reinits = get_or buf 3 0;
        reinits_heard = get_or buf 4 0;
        self_restarts = get_or buf 5 0;
        flags = get_or buf 6 0;
      };
      silent_now_minutes = get_or buf 7 0;
    })
