-- ===== src/Boot/Hardware.antt =====
-- What main.c uses of the chip: avr-libc's self-programming calls, program memory, the EEPROM and
-- the fuses. None of it is code of this repository: it is a parameter, with the datasheet's
-- behaviour as laws.
use split_flap.Common.{ℕ, ◌+◌, ◌*◌, ◌/◌, ◌%◌, ◌<◌, ◌≡◌, ◌≢◌, List, [], ◌∷◌, length, get_or, IsByte}

abbrev pub page_size : ℕ
page_size = 128

-- BOOTLOADER_START of the Makefile
abbrev pub bootloader_start : ℕ
bootloader_start = 0x7c00

-- `F` is the state of the flash and its page buffer, `E` that of the EEPROM.
pub record Hardware (F E : Type 0) : Type 0 where
  pub page_erase : ℕ → F → F
  pub page_fill : ℕ → ℕ → F → F
  pub page_write : ℕ → F → F
  pub rww_enable : F → F
  pub read_flash : F → ℕ → ℕ
  pub read_eeprom : E → ℕ → ℕ
  pub write_eeprom : ℕ → ℕ → E → E
  pub fuse_bits : ℕ → ℕ

-- The words of a buffer, low byte first, filled in from `addr` on.
unfoldable pub fill_words : {F E : Type 0} → Hardware F E → ℕ → List ℕ → F → F
fill_words hw addr [] f = f
fill_words hw addr (lo ∷ []) f = f
fill_words hw addr (lo ∷ hi ∷ rest) f =
    fill_words hw (addr + 2) rest (hw.page_fill addr (lo + hi * 256) f)

-- The self-programming of the datasheet. `outside`: filling the page buffer changes no flash, and
-- erase and write change their page only. `programmed`: erase, the 64 fills and the write of an
-- aligned page leave the bytes that were filled in.
pub record IsSpm {F E : Type 0} (hw : Hardware F E) : Type 0 where
  pub fill_outside :
      (addr word : ℕ) (f : F) (a : ℕ)
      → hw.read_flash (hw.page_fill addr word f) a ≡ hw.read_flash f a
  pub erase_outside :
      (page : ℕ) (f : F) (a : ℕ)
      → a / page_size ≢ page / page_size
      → hw.read_flash (hw.page_erase page f) a ≡ hw.read_flash f a
  pub write_outside :
      (page : ℕ) (f : F) (a : ℕ)
      → a / page_size ≢ page / page_size
      → hw.read_flash (hw.page_write page f) a ≡ hw.read_flash f a
  pub enable_keeps : (f : F) (a : ℕ) → hw.read_flash (hw.rww_enable f) a ≡ hw.read_flash f a
  pub programmed :
      (page : ℕ) (bytes : List ℕ) (f : F) (i : ℕ)
      → page % page_size ≡ 0
      → length bytes ≡ page_size
      → ((j : ℕ) → j < page_size → IsByte (get_or bytes j 0))
      → i < page_size
      → hw.read_flash
          (hw.page_write page (fill_words hw page bytes (hw.page_erase page f)))
          (page + i)
        ≡ get_or bytes i 0
