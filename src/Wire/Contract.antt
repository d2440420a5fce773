-- ===== src/Wire/Contract.antt =====
-- firmware/v2/shared/UnitWireContract.h: the core reads and writes between a row master and a unit.
-- A buffer is the list of its bytes, a decoder's `out` parameter is the value of an Option, and
-- `none` is the return value false, on which `out` keeps what it held. int16_t values are ℤ.
pub mod Exact
pub mod Mutations
use split_flap.Common.{
  ℕ, zero, suc, ◌+◌, ◌*◌, ◌/◌, ◌%◌, bit_xor, Option, none, some, List, [], ◌∷◌, ◌++◌, Bool, true,
  false, not, ◌&&◌, ◌||◌, ◌==◌, ◌!=◌, ltb, if◌then◌else◌, get_or, take, u8, u16, not8, not16,
}
use split_flap.Common.Int.{ℤ, pos, negsuc, to_u16, of_u16, of_u8}
use split_flap.Wire.Checksum.{masked_xor}
use split_flap.Wire.Cmd

abbrev pub protocol_version : ℕ
protocol_version = 1

unfoldable pub protocol_supported : ℕ → Bool
protocol_supported reported = reported == protocol_version

unfoldable pub opcode_allowed_when_unsupported : ℕ → Bool
opcode_allowed_when_unsupported opcode = opcode == Cmd.get_version || opcode == Cmd.enter_bootloader

-- GET_VERSION. The revision is a C string: `char_of rev i` is its i-th character in memory.
pub record VersionPacket : Type 0 where
  pub rev : List ℕ  -- the 8 characters before the terminator
  pub version : ℕ

unfoldable pub version_checksum : List ℕ → ℕ
unfolding masked_xor
version_checksum buf = masked_xor 9 0x4b buf

-- `rev == nullptr` is `none`.
rev_char : Option (List ℕ) → ℕ → ℕ
rev_char none i = 0
rev_char (some rev) i = get_or rev i 0

unfoldable pub version_encode_reply : Option (List ℕ) → ℕ → List ℕ
unfolding rev_char version_checksum
version_encode_reply rev version =
    let c = λ (i : ℕ). u8 (rev_char rev i) in
    let payload = c 0 ∷ c 1 ∷ c 2 ∷ c 3 ∷ c 4 ∷ c 5 ∷ c 6 ∷ c 7 ∷ version ∷ [] in
    payload ++ version_checksum payload ∷ []

unfoldable pub version_readback_valid : List ℕ → ℕ → Option VersionPacket
unfolding version_checksum
version_readback_valid buf len =
    if ltb len 10
    then none
    else if get_or buf 9 0 != version_checksum buf
    then none
    else some (record { rev = take 8 buf; version = get_or buf 8 0 })

-- GET_STATUS
unfoldable pub status_checksum : List ℕ → ℕ
unfolding masked_xor
status_checksum buf = masked_xor 8 0x7e buf

unfoldable pub status_encode_reply : List ℕ → List ℕ
unfolding status_checksum
status_encode_reply payload = take 8 payload ++ status_checksum payload ∷ []

unfoldable pub status_readback_valid : List ℕ → ℕ → Option (List ℕ)
unfolding status_checksum
status_readback_valid buf len =
    if ltb len 9
    then none
    else if get_or buf 8 0 != status_checksum buf
    then none
    else some (take 8 buf)

-- Two bytes, low first: `(uint16_t)lo | ((uint16_t)hi << 8)` of two bytes is a sum.
abbrev pub le16 : ℕ → ℕ → ℕ
le16 lo hi = lo + hi * 256

-- GET_OFFSET
unfoldable pub offset_checksum : List ℕ → ℕ
offset_checksum buf = u8 (bit_xor (bit_xor (get_or buf 0 0) (get_or buf 1 0)) 0x1d)

unfoldable pub offset_encode_reply : ℤ → List ℕ
unfolding offset_checksum
offset_encode_reply offset =
    let payload = (to_u16 offset % 256) ∷ (to_u16 offset / 256 % 256) ∷ [] in
    payload ++ offset_checksum payload ∷ []

unfoldable pub offset_readback_valid : List ℕ → ℕ → Option ℤ
unfolding offset_checksum
offset_readback_valid buf len =
    if ltb len 3
    then none
    else if get_or buf 2 0 != offset_checksum buf
    then none
    else some (of_u16 (le16 (get_or buf 0 0) (get_or buf 1 0)))

-- SET_OFFSET
unfoldable pub set_offset_encode : ℤ → List ℕ
set_offset_encode offset =
    let v = to_u16 offset in
    let c = not16 v in (v % 256) ∷ (v / 256 % 256) ∷ (c % 256) ∷ (c / 256 % 256) ∷ []

unfoldable pub set_offset_decode : List ℕ → ℕ → Option ℤ
set_offset_decode buf len =
    let v = le16 (get_or buf 0 0) (get_or buf 1 0) in
    let c = le16 (get_or buf 2 0) (get_or buf 3 0) in
    if ltb len 4 then none else if c != not16 v then none else some (of_u16 v)

-- SET_I2C_ADDRESS
unfoldable pub set_address_encode : ℕ → List ℕ
set_address_encode address = address ∷ not8 address ∷ []

unfoldable pub set_address_decode : List ℕ → ℕ → Option ℕ
set_address_decode buf len =
    if ltb len 2
    then none
    else if get_or buf 1 0 != not8 (get_or buf 0 0)
    then none
    else some (get_or buf 0 0)

-- SET_GATES
unfoldable pub set_gates_encode : ℕ → List ℕ
set_gates_encode gates = gates ∷ not8 gates ∷ []

unfoldable pub set_gates_decode : List ℕ → ℕ → Option ℕ
set_gates_decode buf len =
    if ltb len 2
    then none
    else if get_or buf 1 0 != not8 (get_or buf 0 0)
    then none
    else some (get_or buf 0 0)

-- The mutations that carry no argument, and their guard byte.
unfoldable pub is_no_arg_mutation : ℕ → Bool
is_no_arg_mutation opcode =
    opcode == Cmd.enter_bootloader
    || opcode == Cmd.home
    || opcode == Cmd.reboot
    || opcode == Cmd.clear_i2c_address
    || opcode == Cmd.identify
    || opcode == Cmd.reset_odometer
    || opcode == Cmd.start_self_test

unfoldable pub no_arg_guard_byte : ℕ → ℕ
no_arg_guard_byte opcode = not8 opcode

unfoldable pub no_arg_mutation_accepted : ℕ → ℕ → ℕ → Bool → Bool
unfolding no_arg_guard_byte
no_arg_mutation_accepted opcode extra_len guard strict =
    if extra_len == 0
    then not strict || opcode == Cmd.enter_bootloader
    else if extra_len != 1
    then false
    else guard == no_arg_guard_byte opcode

-- JOG
unfoldable pub jog_encode : ℕ → List ℕ
jog_encode steps = steps ∷ not8 steps ∷ []

unfoldable pub jog_decode : List ℕ → ℕ → Bool → Option ℤ
jog_decode payload extra_len strict =
    let steps = some (of_u8 (get_or payload 0 0)) in
    if extra_len == 1
    then (if strict then none else steps)
    else if extra_len != 2 || get_or payload 1 0 != not8 (get_or payload 0 0)
    then none
    else steps

abbrev pub speed_max : ℕ
speed_max = 12

unfoldable pub clamp_speed : ℤ → ℕ
clamp_speed (pos n) = if ltb n 1 then 1 else if ltb speed_max n then speed_max else n
clamp_speed (negsuc n) = 1

abbrev pub letter_unknown : ℕ
letter_unknown = 0xff

unfoldable pub letter_reply_index : ℕ → Bool → ℕ
letter_reply_index displayed homed = if homed then displayed else letter_unknown
