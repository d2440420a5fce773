-- ===== src/Wire/Cmd.antt =====
-- The opcodes of firmware/v2/shared/SplitFlapProtocol.h that the wire contract tells apart.
use split_flap.Common.{ℕ}

abbrev pub enter_bootloader : ℕ
enter_bootloader = 0x80

abbrev pub get_version : ℕ
get_version = 0x81

abbrev pub home : ℕ
home = 0x90

abbrev pub reboot : ℕ
reboot = 0x92

abbrev pub clear_i2c_address : ℕ
clear_i2c_address = 0x95

abbrev pub identify : ℕ
identify = 0x96

abbrev pub reset_odometer : ℕ
reset_odometer = 0x97

abbrev pub start_self_test : ℕ
start_self_test = 0x98
