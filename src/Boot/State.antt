-- ===== src/Boot/State.antt =====
-- The static variables of main.c, the registers that its TWI handler keeps between two interrupts,
-- and the constants of its protocol.
use split_flap.Common.{ℕ, List, [], ◌∷◌, Bool}

-- The two builds of main.c: without and with SF_NEW_TWIBOOT.
pub data Image : Type 0 where
  fielded lean : Image

-- The values of `cmd`. CMD_SWITCH_APPLICATION and CMD_READ_VERSION are one value.
pub data Cmd : Type 0 where
  wait switch_application access_memory access_chipinfo access_flash access_eeprom write_flash_page
        write_eeprom_page boot_application :
      Cmd

abbrev pub boottype_application : ℕ
boottype_application = 0x80

-- TIMER_MSEC2IRQCNT(ms) of a tick of 16 ms, and BOOT_TICKS(ms).
abbrev pub fielded_timeout : ℕ
fielded_timeout = 62

abbrev pub lean_start_timeout : ℕ
lean_start_timeout = 8

abbrev pub pin_timeout : ℕ
pin_timeout = 234

abbrev pub boot_prescale_limit : ℕ
boot_prescale_limit = 8

pub record Boot (F E : Type 0) : Type 0 where
  pub cmd : Cmd
  pub boot_timeout : ℕ  -- uint8_t
  pub boot_prescale : ℕ  -- uint8_t
  pub app_installed : Bool
  pub buf : List ℕ  -- 128 bytes
  pub addr : ℕ  -- uint16_t
  pub bcnt : ℕ  -- uint8_t
  pub acking : Bool  -- TWEA
  pub twdr : ℕ  -- the byte put out last
  pub flash : F
  pub eeprom : E
  pub crash_a : ℕ  -- CRASH_REC_A and CRASH_REC_B
  pub crash_b : ℕ
  pub overrun : Bool  -- a write past `buf` was made

-- `info` and `chipinfo` of the two images.
abbrev pub info : Image → List ℕ
info fielded =
    0x54 ∷ 0x57 ∷ 0x49 ∷ 0x42 ∷ 0x4f ∷ 0x4f ∷ 0x54 ∷ 0x20 ∷ 0x76 ∷ 0x33 ∷ 0x2e ∷ 0x32 ∷ 0 ∷ 0 ∷ 0
    ∷ 0 ∷ []
info lean =
    0x53 ∷ 0x46 ∷ 0x03 ∷ 0x0f ∷ 0xff ∷ 0xff ∷ 0xff ∷ 0xff ∷ 0xff ∷ 0xff ∷ 0xff ∷ 0xff ∷ 0xff ∷ 0xff
    ∷ 0xff ∷ 0xff ∷ []

abbrev pub chipinfo : Image → List ℕ
chipinfo fielded = 0x1e ∷ 0x95 ∷ 0x0f ∷ 128 ∷ 0x7c ∷ 0x00 ∷ 0x04 ∷ 0x00 ∷ []
chipinfo lean = 0x1e ∷ 0x95 ∷ 0x0f ∷ 128 ∷ 0x7c ∷ 0x00 ∷ 0x00 ∷ 0x00 ∷ []
