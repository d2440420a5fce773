-- ===== src/Boot.antt =====
-- firmware/v2/UnitBootloader/main.c, the unit's I2C bootloader, for the ATmega328P and without
-- clock stretching (CFLAGS_TARGET of its Makefile): its memory, its TWI state machine, its boot
-- countdown and its crash record, in the fielded image and in the lean one (SF_NEW_TWIBOOT).
pub mod Hardware
pub mod State
pub mod Memory
pub mod Twi
pub mod Startup
pub mod Loop
pub mod Chip
mod Tests
