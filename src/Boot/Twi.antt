-- ===== src/Boot/Twi.antt =====
-- main.c: `TWI_vect`, one interrupt of the TWI unit, and the traffic that it can meet.
pub mod Safety
pub mod Overrun
pub mod Page
pub mod ReadBack
use split_flap.Common.{
  ℕ, zero, suc, ◌+◌, ◌-◌, List, [], ◌∷◌, Bool, true, false, not, ◌&&◌, if◌then◌else◌, u8,
}
use split_flap.Boot.Hardware.{Hardware}
use split_flap.Boot.State.{Image, fielded, lean, Cmd, write_flash_page, write_eeprom_page, Boot}
use split_flap.Boot.Memory.{program_page, write_eeprom_from, data_write, data_read}

-- The states of TWSR that the handler tells apart, with the byte received.
pub data Event : Type 0 where
  slave_write : Event  -- 0x60
  got_acked : ℕ → Event  -- 0x80
  got_nacked : ℕ → Event  -- 0x88
  stop : Event  -- 0xA0
  slave_read : Event  -- 0xA8
  sent_acked : Event  -- 0xB8
  sent_nacked : Event  -- 0xC0
  illegal : Event

module _ {F E : Type 0} (hw : Hardware F E) (image : Image) where
  -- A page that was received whole is written when the transfer ends.
  unfoldable pub write_received : Cmd → Boot F E → Boot F E
  unfolding program_page write_eeprom_from
  write_received write_flash_page s = program_page hw s
  write_received write_eeprom_page s = write_eeprom_from hw (u8 (s.bcnt + 256 - 4)) 0 s
  write_received _ s = s

  -- The case of STOP, which 0x88 runs into.
  unfoldable pub on_stop : Boot F E → Boot F E
  unfolding write_received
  on_stop s = record (write_received s.cmd s) { bcnt = 0; acking = true }

  -- The case of a byte put out.
  unfoldable pub on_send : Boot F E → Boot F E
  unfolding data_read
  on_send s =
      let (byte, t) = data_read hw image s.cmd s.bcnt s in
      record t { twdr = byte; bcnt = u8 (s.bcnt + 1) }

  unfoldable pub twi_vect : Event → Boot F E → Boot F E
  unfolding on_stop on_send data_write
  twi_vect slave_write s = record s { bcnt = 0 }
  twi_vect (got_acked byte) s =
      let (ack, t) = data_write hw image s.bcnt byte s in
      record t { bcnt = u8 (s.bcnt + 1); acking = ack && s.acking }
  twi_vect (got_nacked byte) s =
      let (ack, t) = data_write hw image s.bcnt byte s in
      on_stop (record t { bcnt = u8 (s.bcnt + 1) })
  twi_vect stop s = on_stop s
  twi_vect slave_read s = on_send (record s { bcnt = 0 })
  twi_vect sent_acked s = on_send s
  twi_vect sent_nacked s = record s { acking = true }
  twi_vect illegal s = s

  unfoldable pub serve : List Event → Boot F E → Boot F E
  serve [] s = s
  serve (e ∷ es) s = serve es (twi_vect e s)
