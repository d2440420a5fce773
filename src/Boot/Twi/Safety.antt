-- ===== src/Boot/Twi/Safety.antt =====
-- main.c: no traffic on the bus makes `TWI_vect` write the boot section, and in the lean image none
-- makes it write past `buf`.
use split_flap.Common.{
  ℕ, arith, zero, suc, ◌+◌, ◌-◌, ◌*◌, ◌/◌, ◌≤◌, ◌≡◌, ◌≢◌, refl, ◌∙◌, List, [], ◌∷◌, get_or, u8,
}
use split_flap.Boot.Hardware.{page_size, bootloader_start, Hardware, IsSpm, fill_words}
use split_flap.Boot.State.{
  Image, fielded, lean, Cmd, switch_application, access_memory, access_chipinfo, access_flash,
  access_eeprom, write_flash_page, write_eeprom_page, Boot,
}
use split_flap.Boot.Memory.{
  program_page, write_eeprom_byte, write_eeprom_from, first_byte, second_byte, store, later_byte,
  data_write, data_read,
}
use split_flap.Boot.Twi.{
  Event, slave_write, got_acked, got_nacked, stop, slave_read, sent_acked, sent_nacked, illegal,
  write_received, on_stop, on_send, twi_vect, serve,
}

-- The bytes of a transfer change no flash: only its end does.
module _ {F E : Type 0} (hw : Hardware F E) where
  first_byte-flash :
      (image : Image) (byte : ℕ) (s : Boot F E)
      → ((first_byte hw image byte s).1.flash ≡ s.flash)
        × ((first_byte hw image byte s).1.buf ≡ s.buf)
  unfolding first_byte
  first_byte-flash image byte s = ground arith

  second_byte-flash :
      (image : Image) (c : Cmd) (byte : ℕ) (s : Boot F E)
      → (second_byte hw image c byte s).1.flash ≡ s.flash
  unfolding second_byte
  second_byte-flash fielded switch_application byte s = ground arith
  second_byte-flash lean switch_application byte s = ground arith
  second_byte-flash fielded access_memory byte s = ground arith
  second_byte-flash lean access_memory byte s = ground arith
  second_byte-flash image _ byte s = refl

  later_byte-flash :
      (image : Image) (c : Cmd) (pos byte : ℕ) (s : Boot F E)
      → (later_byte hw image c pos byte s).1.flash ≡ s.flash
  unfolding later_byte store
  later_byte-flash fielded access_flash pos byte s = ground arith
  later_byte-flash lean access_flash pos byte s = ground arith
  later_byte-flash fielded access_eeprom pos byte s = ground arith
  later_byte-flash fielded write_eeprom_page pos byte s = ground arith
  later_byte-flash image _ pos byte s = refl

  pub data_write-flash :
      (image : Image) (bcnt byte : ℕ) (s : Boot F E)
      → (data_write hw image bcnt byte s).1.flash ≡ s.flash
  unfolding data_write
  data_write-flash image bcnt byte s = ground (
    arith,
    first_byte-flash image byte s,
    second_byte-flash image s.cmd byte s,
    later_byte-flash image s.cmd (u8 (bcnt + 256 - 4)) byte s,
  )

  data_read-flash :
      (image : Image) (c : Cmd) (bcnt : ℕ) (s : Boot F E)
      → (data_read hw image c bcnt s).1.flash ≡ s.flash
  unfolding data_read
  data_read-flash image switch_application bcnt s = refl
  data_read-flash fielded access_chipinfo bcnt s = refl
  data_read-flash lean access_chipinfo bcnt s = refl
  data_read-flash image access_flash bcnt s = refl
  data_read-flash fielded access_eeprom bcnt s = refl
  data_read-flash image _ bcnt s = refl

  write_eeprom_from-flash :
      (size i : ℕ) (s : Boot F E) → (write_eeprom_from hw size i s).flash ≡ s.flash
  unfolding write_eeprom_from write_eeprom_byte
  write_eeprom_from-flash zero i s = refl
  write_eeprom_from-flash (suc size) i s =
      write_eeprom_from-flash size (i + 1) (write_eeprom_byte hw (get_or s.buf i 0) s)

-- The bytes that the boot section reads as.
module _ {F E : Type 0} (hw : Hardware F E) (spm : IsSpm hw) where
  fill_words-keeps :
      (addr : ℕ) (bytes : List ℕ) (f : F) (a : ℕ)
      → hw.read_flash (fill_words hw addr bytes f) a ≡ hw.read_flash f a
  unfolding fill_words
  fill_words-keeps addr [] f a = refl
  fill_words-keeps addr (lo ∷ []) f a = refl
  fill_words-keeps addr (lo ∷ hi ∷ rest) f a =
      fill_words-keeps (addr + 2) rest (hw.page_fill addr (lo + hi * 256) f) a
      ∙ spm.fill_outside addr (lo + hi * 256) f a

  -- Erase, fill and write of the page at `page`, as `write_flash_page` makes them.
  pub programming-keeps :
      (page : ℕ) (bytes : List ℕ) (f : F) (a : ℕ)
      → a / page_size ≢ page / page_size
      → hw.read_flash
          (hw.rww_enable (hw.page_write page (fill_words hw page bytes (hw.page_erase page f))))
          a
        ≡ hw.read_flash f a
  programming-keeps page bytes f a h =
      spm.enable_keeps _ a
      ∙ spm.write_outside page _ a h
      ∙ fill_words-keeps page bytes _ a
      ∙ spm.erase_outside page f a h

  program_page-keeps :
      (s : Boot F E) (a : ℕ)
      → bootloader_start ≤ a
      → hw.read_flash (program_page hw s).flash a ≡ hw.read_flash s.flash a
  unfolding program_page
  program_page-keeps s a h = ground (arith, programming-keeps s.addr s.buf s.flash a)

  write_received-keeps :
      (image : Image) (c : Cmd) (s : Boot F E) (a : ℕ)
      → bootloader_start ≤ a
      → hw.read_flash (write_received hw image c s).flash a ≡ hw.read_flash s.flash a
  unfolding write_received
  write_received-keeps image write_flash_page s a h = program_page-keeps s a h
  write_received-keeps image write_eeprom_page s a h =
      rw (write_eeprom_from-flash hw (u8 (s.bcnt + 256 - 4)) 0 s)
  write_received-keeps image _ s a h = refl

  twi_vect-keeps :
      (image : Image) (e : Event) (s : Boot F E) (a : ℕ)
      → bootloader_start ≤ a
      → hw.read_flash (twi_vect hw image e s).flash a ≡ hw.read_flash s.flash a
  unfolding twi_vect on_stop on_send
  twi_vect-keeps image slave_write s a h = refl
  twi_vect-keeps image (got_acked byte) s a h = rw (data_write-flash hw image s.bcnt byte s)
  twi_vect-keeps image (got_nacked byte) s a h =
      let t : Boot F E = (data_write hw image s.bcnt byte s).1 in
      write_received-keeps image t.cmd (record t { bcnt = u8 (s.bcnt + 1) }) a h
      ∙ rw (data_write-flash hw image s.bcnt byte s)
  twi_vect-keeps image stop s a h = write_received-keeps image s.cmd s a h
  twi_vect-keeps image slave_read s a h =
      rw (data_read-flash hw image s.cmd 0 (record s { bcnt = 0 }))
  twi_vect-keeps image sent_acked s a h = rw (data_read-flash hw image s.cmd s.bcnt s)
  twi_vect-keeps image sent_nacked s a h = refl
  twi_vect-keeps image illegal s a h = refl

  -- On a chip with the laws of self-programming, whatever the bus brings, in either image, every
  -- byte of the flash from the bootloader's start on reads as before.
  pub boot_section_kept :
      (image : Image) (es : List Event) (s : Boot F E) (a : ℕ)
      → bootloader_start ≤ a
      → hw.read_flash (serve hw image es s).flash a ≡ hw.read_flash s.flash a
  unfolding serve
  boot_section_kept image [] s a h = refl
  boot_section_kept image (e ∷ es) s a h =
      boot_section_kept image es (twi_vect hw image e s) a h ∙ twi_vect-keeps image e s a h
