-- ===== src/Boot/Memory.antt =====
-- main.c: `write_flash_page`, the EEPROM writes, `TWI_data_write` and `TWI_data_read`.
use split_flap.Common.{
  ℕ, zero, suc, ◌+◌, ◌-◌, ◌*◌, ◌%◌, bit_and, Bool, true, false, ◌||◌, ◌==◌, ltb, leb, if◌then◌else◌,
  get_or, set, u8, u16,
}
use split_flap.Boot.Hardware.{page_size, bootloader_start, Hardware, fill_words}
use split_flap.Boot.State.{
  Image, fielded, lean, Cmd, wait, switch_application, access_memory, access_chipinfo, access_flash,
  access_eeprom, write_flash_page, write_eeprom_page, boot_application, boottype_application,
  pin_timeout, Boot, info, chipinfo,
}

module _ {F E : Type 0} (hw : Hardware F E) where
  -- `write_flash_page`: nothing is written at or above the bootloader. `addr` moves on by a page.
  unfoldable pub program_page : Boot F E → Boot F E
  program_page s =
      if ltb s.addr bootloader_start
      then record s {
        flash =
            hw.rww_enable
              (hw.page_write s.addr (fill_words hw s.addr s.buf (hw.page_erase s.addr s.flash)));
        addr = u16 (s.addr + page_size);
      }
      else s

  -- `write_eeprom_byte`
  unfoldable pub write_eeprom_byte : ℕ → Boot F E → Boot F E
  write_eeprom_byte val s = record s {
    eeprom = hw.write_eeprom s.addr val s.eeprom;
    addr = u16 (s.addr + 1);
  }

  -- `write_eeprom_buffer` from index `i` on, with `size` bytes to go.
  unfoldable pub write_eeprom_from : ℕ → ℕ → Boot F E → Boot F E
  unfolding write_eeprom_byte
  write_eeprom_from zero i s = s
  write_eeprom_from (suc size) i s =
      write_eeprom_from size (i + 1) (write_eeprom_byte (get_or s.buf i 0) s)

  -- The first byte of a write: the command. The Bool is the ACK for the next byte.
  unfoldable pub first_byte : Image → ℕ → Boot F E → Bool × Boot F E
  first_byte image data_byte s =
      let timeout : ℕ = elim image [ fielded ↦ 0 | lean ↦ pin_timeout ] in
      let held = record s { boot_timeout = timeout } in
      if data_byte == 0
      then (true, record held { cmd = wait })
      else if data_byte == 1
      then (true, record held { cmd = switch_application })
      else if data_byte == 2
      then (true, record held { cmd = access_memory })
      else (false, record s { cmd = boot_application })

  -- The second byte, by the command.
  unfoldable pub second_byte : Image → Cmd → ℕ → Boot F E → Bool × Boot F E
  second_byte image switch_application data_byte s =
      let crash : ℕ = elim image [ fielded ↦ s.crash_a | lean ↦ 0 ] in
      if data_byte == boottype_application
      then (false, record s { cmd = boot_application; crash_a = crash })
      else (false, s)
  second_byte fielded access_memory data_byte s =
      if data_byte == 0
      then (true, record s { cmd = access_chipinfo })
      else if data_byte == 1
      then (true, record s { cmd = access_flash })
      else if data_byte == 2
      then (true, record s { cmd = access_eeprom })
      else (false, s)
  second_byte lean access_memory data_byte s =
      if data_byte == 0
      then (true, record s { cmd = access_chipinfo })
      else if data_byte == 1
      then (true, record s { cmd = access_flash })
      else (false, s)
  second_byte image _ data_byte s = (false, s)

  -- `buf[pos] = data`
  unfoldable pub store : ℕ → ℕ → Boot F E → Boot F E
  store pos data_byte s = record s {
    buf = set s.buf pos data_byte;
    overrun = s.overrun || leb page_size pos;
  }

  -- A byte of a page or of the EEPROM, by the command.
  unfoldable pub later_byte : Image → Cmd → ℕ → ℕ → Boot F E → Bool × Boot F E
  unfolding store
  later_byte image access_flash pos data_byte s =
      let t = store pos data_byte s in
      if leb (page_size - 1) pos then (false, record t { cmd = write_flash_page }) else (true, t)
  later_byte fielded access_eeprom pos data_byte s =
      let t = record (store pos data_byte s) { cmd = write_eeprom_page } in
      if leb (page_size - 1) pos then (false, t) else (true, t)
  later_byte fielded write_eeprom_page pos data_byte s =
      let t = store pos data_byte s in if leb (page_size - 1) pos then (false, t) else (true, t)
  later_byte image _ pos data_byte s = (false, s)

  -- `TWI_data_write`; `pos = bcnt - 4` is a uint8_t.
  unfoldable pub data_write : Image → ℕ → ℕ → Boot F E → Bool × Boot F E
  unfolding first_byte second_byte later_byte
  data_write image bcnt data_byte s =
      if bcnt == 0
      then first_byte image data_byte s
      else if bcnt == 1
      then second_byte image s.cmd data_byte s
      else if bcnt == 2 || bcnt == 3
      then (true, record s { addr = u16 (s.addr * 256) + data_byte })
      else later_byte image s.cmd (u8 (bcnt + 256 - 4)) data_byte s

  -- The chip information of the lean image: 8 constants, 4 fuse bytes, the crash count.
  unfoldable pub lean_chipinfo : ℕ → Boot F E → ℕ
  lean_chipinfo i s =
      if ltb i 8
      then get_or (chipinfo lean) i 0
      else if ltb i 12
      then hw.fuse_bits (i - 8)
      else bit_and s.crash_a 0x0f

  -- `TWI_data_read`, by the command: the byte, and the state behind it.
  unfoldable pub data_read : Image → Cmd → ℕ → Boot F E → ℕ × Boot F E
  unfolding lean_chipinfo
  data_read image switch_application bcnt s = (get_or (info image) (bcnt % 16) 0, s)
  data_read fielded access_chipinfo bcnt s = (get_or (chipinfo fielded) (bcnt % 8) 0, s)
  data_read lean access_chipinfo bcnt s = (lean_chipinfo (bcnt % 13) s, s)
  data_read image access_flash bcnt s =
      (hw.read_flash s.flash s.addr, record s { addr = u16 (s.addr + 1) })
  data_read fielded access_eeprom bcnt s =
      (hw.read_eeprom s.eeprom s.addr, record s { addr = u16 (s.addr + 1) })
  data_read image _ bcnt s = (0xff, s)
