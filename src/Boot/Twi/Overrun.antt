-- ===== src/Boot/Twi/Overrun.antt =====
-- main.c, the lean image: what the order of the events on the bus means for `bcnt`, and with it for
-- the writes to `buf`.
use split_flap.Common.{
  ℕ, arith, zero, suc, ◌+◌, ◌-◌, ◌≤◌, ◌≡◌, ◌≢◌, refl, sym, ◌∙◌, get_or, List, [], ◌∷◌, Bool, true,
  false, not, ◌&&◌, u8,
}
use split_flap.Boot.Hardware.{Hardware}
use split_flap.Boot.State.{
  lean, Cmd, switch_application, access_chipinfo, access_flash, access_eeprom, write_flash_page,
  write_eeprom_page, Boot,
}
use split_flap.Boot.Memory.{
  program_page, write_eeprom_byte, first_byte, second_byte, store, later_byte, data_write,
  data_read, write_eeprom_from,
}
use split_flap.Boot.Twi.{
  Event, slave_write, got_acked, got_nacked, stop, slave_read, sent_acked, sent_nacked, illegal,
  write_received, on_stop, on_send, twi_vect, serve,
}

-- The events that the TWI unit reports in an order: it puts bytes out only behind SLA+R and takes
-- them in only behind SLA+W. The Bool is that SLA+R was the last address.
abbrev pub in_order : Bool → List Event → Bool
in_order sending [] = true
in_order sending (slave_write ∷ es) = in_order false es
in_order sending (slave_read ∷ es) = in_order true es
in_order sending (got_acked byte ∷ es) = not sending && in_order false es
in_order sending (got_nacked byte ∷ es) = not sending && in_order false es
in_order sending (sent_acked ∷ es) = sending && in_order true es
in_order sending (sent_nacked ∷ es) = sending && in_order true es
in_order sending (stop ∷ es) = in_order sending es
in_order sending (illegal ∷ es) = in_order sending es

module _ {F E : Type 0} (hw : Hardware F E) where
  -- Nothing was written past `buf`; while bytes come in for a page, at most 127 of them are there;
  -- and the commands of the EEPROM do not occur.
  pub record Sound (sending : Bool) (s : Boot F E) : Type 0 where
    pub kept : s.overrun ≡ false
    pub room : sending ≡ false → s.cmd ≡ access_flash → s.bcnt ≤ 131
    pub no_read : s.cmd ≢ access_eeprom
    pub no_write : s.cmd ≢ write_eeprom_page

  -- What a byte that comes in does to them, before `bcnt` moves on.
  Taken : ℕ → Boot F E → Type 0
  Taken bcnt t =
      (t.overrun ≡ false)
      × (t.cmd ≡ access_flash → bcnt ≤ 130)
      × (t.cmd ≢ access_eeprom)
      × (t.cmd ≢ write_eeprom_page)

  first_byte-Taken :
      (byte : ℕ) (s : Boot F E) → Sound false s → Taken 0 (first_byte hw lean byte s).1
  unfolding Taken first_byte
  first_byte-Taken byte s p = ground (arith, p.kept)

  second_byte-Taken :
      (byte : ℕ) (s : Boot F E) → Sound false s → Taken 1 (second_byte hw lean s.cmd byte s).1
  unfolding Taken second_byte
  second_byte-Taken byte s p = ground (arith, p.kept, p.no_read, p.no_write)

  later_byte-Taken :
      (byte : ℕ) (s : Boot F E)
      → Sound false s
      → 4 ≤ s.bcnt
      → Taken s.bcnt (later_byte hw lean s.cmd (u8 (s.bcnt + 256 - 4)) byte s).1
  unfolding Taken later_byte store
  later_byte-Taken byte s p h = ground (arith, p.kept, p.room, p.no_read, p.no_write)

  data_write-Taken :
      (byte : ℕ) (s : Boot F E) → Sound false s → Taken s.bcnt (data_write hw lean s.bcnt byte s).1
  unfolding data_write Taken
  data_write-Taken byte s p = ground (
    arith,
    p.kept,
    p.room,
    p.no_read,
    p.no_write,
    first_byte-Taken byte s p,
    second_byte-Taken byte s p,
    later_byte-Taken byte s p,
  )

  data_read-keeps :
      (c : Cmd) (bcnt : ℕ) (s : Boot F E)
      → ((data_read hw lean c bcnt s).1.overrun ≡ s.overrun)
        × ((data_read hw lean c bcnt s).1.cmd ≡ s.cmd)
  unfolding data_read
  data_read-keeps switch_application bcnt s = (refl, refl)
  data_read-keeps access_chipinfo bcnt s = (refl, refl)
  data_read-keeps access_flash bcnt s = (refl, refl)
  data_read-keeps _ bcnt s = (refl, refl)

  program_page-keeps :
      (s : Boot F E) → ((program_page hw s).overrun ≡ s.overrun) × ((program_page hw s).cmd ≡ s.cmd)
  unfolding program_page
  program_page-keeps s = ground arith

  write_eeprom_from-keeps :
      (size i : ℕ) (s : Boot F E)
      → ((write_eeprom_from hw size i s).overrun ≡ s.overrun)
        × ((write_eeprom_from hw size i s).cmd ≡ s.cmd)
  unfolding write_eeprom_from write_eeprom_byte
  write_eeprom_from-keeps zero i s = (refl, refl)
  write_eeprom_from-keeps (suc size) i s =
      write_eeprom_from-keeps size (i + 1) (write_eeprom_byte hw (get_or s.buf i 0) s)

  write_received-keeps :
      (c : Cmd) (s : Boot F E)
      → ((write_received hw lean c s).overrun ≡ s.overrun)
        × ((write_received hw lean c s).cmd ≡ s.cmd)
  unfolding write_received
  write_received-keeps write_flash_page s = program_page-keeps s
  write_received-keeps write_eeprom_page s = write_eeprom_from-keeps (u8 (s.bcnt + 256 - 4)) 0 s
  write_received-keeps _ s = (refl, refl)

  on_stop-Sound :
      (sending : Bool) (s : Boot F E)
      → s.overrun ≡ false
      → s.cmd ≢ access_eeprom
      → s.cmd ≢ write_eeprom_page
      → Sound sending (on_stop hw lean s)
  unfolding on_stop
  on_stop-Sound sending s k r w =
      let (same, same_cmd) = write_received-keeps s.cmd s in
      record {
        kept = same ∙ k;
        room = λ _ _. omega arith;
        no_read = λ e. r (sym same_cmd ∙ e);
        no_write = λ e. w (sym same_cmd ∙ e);
      }

  on_send-Sound :
      (s : Boot F E)
      → s.overrun ≡ false
      → s.cmd ≢ access_eeprom
      → s.cmd ≢ write_eeprom_page
      → Sound true (on_send hw lean s)
  unfolding on_send
  on_send-Sound s k r w =
      let (same, same_cmd) = data_read-keeps s.cmd s.bcnt s in
      record {
        kept = same ∙ k;
        room = λ e _. ground (arith, e);
        no_read = λ e. r (sym same_cmd ∙ e);
        no_write = λ e. w (sym same_cmd ∙ e);
      }

  got_acked-Sound :
      (byte : ℕ) (s : Boot F E) → Sound false s → Sound false (twi_vect hw lean (got_acked byte) s)
  unfolding twi_vect Taken
  got_acked-Sound byte s p =
      let (k, room, r, w) = data_write-Taken byte s p in
      record { kept = k; room = λ _ e. ground (arith, room e); no_read = r; no_write = w }

  got_nacked-Sound :
      (byte : ℕ) (s : Boot F E) → Sound false s → Sound false (twi_vect hw lean (got_nacked byte) s)
  unfolding twi_vect Taken
  got_nacked-Sound byte s p =
      let (k, room, r, w) = data_write-Taken byte s p in on_stop-Sound false _ k r w

  slave_write-Sound :
      (sending : Bool) (s : Boot F E)
      → Sound sending s
      → Sound false (twi_vect hw lean slave_write s)
  unfolding twi_vect
  slave_write-Sound sending s p = record {
    kept = p.kept;
    room = λ _ _. omega arith;
    no_read = p.no_read;
    no_write = p.no_write;
  }

  sent_nacked-Sound : (s : Boot F E) → Sound true s → Sound true (twi_vect hw lean sent_nacked s)
  unfolding twi_vect
  sent_nacked-Sound s p = record {
    kept = p.kept;
    room = p.room;
    no_read = p.no_read;
    no_write = p.no_write;
  }

  illegal-Sound :
      (sending : Bool) (s : Boot F E) → Sound sending s → Sound sending (twi_vect hw lean illegal s)
  unfolding twi_vect
  illegal-Sound sending s p = p

  -- Whatever comes over the bus in an order that the TWI unit reports, and whether or not the
  -- master heeds the missing ACK, the lean image never writes past the end of `buf`, from any sound
  -- state.
  pub no_overrun :
      (sending : Bool) (es : List Event) (s : Boot F E)
      → in_order sending es ≡ true
      → Sound sending s
      → (serve hw lean es s).overrun ≡ false
  unfolding serve twi_vect on_stop on_send
  no_overrun sending [] s h p = p.kept
  no_overrun sending (slave_write ∷ es) s h p =
      no_overrun false es _ h (slave_write-Sound sending s p)
  no_overrun sending (slave_read ∷ es) s h p =
      no_overrun true es _ h (on_send-Sound (record s { bcnt = 0 }) p.kept p.no_read p.no_write)
  no_overrun sending (stop ∷ es) s h p =
      no_overrun sending es _ h (on_stop-Sound sending s p.kept p.no_read p.no_write)
  no_overrun sending (illegal ∷ es) s h p = no_overrun sending es _ h (illegal-Sound sending s p)
  no_overrun false (got_acked byte ∷ es) s h p = no_overrun false es _ h (got_acked-Sound byte s p)
  no_overrun false (got_nacked byte ∷ es) s h p =
      no_overrun false es _ h (got_nacked-Sound byte s p)
  no_overrun true (got_acked byte ∷ es) s h p = ground arith
  no_overrun true (got_nacked byte ∷ es) s h p = ground arith
  no_overrun true (sent_acked ∷ es) s h p =
      no_overrun true es _ h (on_send-Sound s p.kept p.no_read p.no_write)
  no_overrun true (sent_nacked ∷ es) s h p = no_overrun true es _ h (sent_nacked-Sound s p)
  no_overrun false (sent_acked ∷ es) s h p = ground arith
  no_overrun false (sent_nacked ∷ es) s h p = ground arith
