-- ===== src/Lib.antt =====
-- The split-flap firmware (firmware/v2): a wall of drum units on I2C buses, each bus driven by
-- a row master. This library models the parts of it that decide what happens to a unit: what
-- goes over the wire, what a unit keeps and does by itself, how a row master reflashes its row,
-- the bootloader that takes the pages, and the framing of the link between wall master and
-- rows.
--
-- The parts, and the files that model them:
-- - Wire: firmware/v2/shared. Wire/Contract is UnitWireContract.h, one function per encoder and
--   decoder; Wire/Replies is UnitProtocolHelpers.h with the encoders of UnitOdometer.h,
--   UnitDrift.h, UnitSelfTest.h and UnitVitals.h; Wire/BusRecord is UnitBusRecord.h; Wire/Cmd
--   the opcodes. A buffer is a list of bytes, an out parameter the value of an Option.
--   Wire/Checksum, Wire/Detect, Wire/Contract/Exact, Wire/Contract/Mutations and
--   Wire/Replies/RoundTrip hold the theorems.
-- - Unit: firmware/v2/Unit. Unit/Odometer is UnitOdometer.h with the loops of Unit.ino that
--   drive it (addSteps, bootScanSlot, the persist, the reset); the EEPROM ring is a list of 16
--   slots. Unit/Drift is UnitDrift.h, the drum's position by dead reckoning; its long and
--   int32_t are ℤ. Unit/BusSilence is UnitBusSilence.h: `tick` is busSilenceTick, its result
--   bits are a record. Unit/Heal is UnitTwiHeal.h with the passes of UnitI2CProtocol.ino that
--   apply it (twiHealTick, twiDeafTick). Unit/Update is BootUpdateAvr.h with the classifier of
--   BootSectionClassify.h: the unit's rewrite of its own bootloader, over the chip of
--   Boot/Hardware; each write of a page is logged with the flash that it found.
-- - Row: firmware/v2/shared/ReflashPlan.h, MotionBudget.h and UnitRescuePolicy.h. Row/Plan is
--   the choice of the targets and the parsers of the request, Row/Progress the progress object
--   and the grade, Row/Calls the hooks of the flash loop, a record of functions over the row
--   master's world with a log of the calls, Row/Enter the entry and the attempts of one unit,
--   Row/Reflash the loop. Row/UpdateJob is UnitUpdateJob.h, the sweep over the boot sections,
--   with the end of a job of Master/DisplayTask.cpp that runs it behind the loop. Row/Motion is
--   the tracker, the cap and the radio gate, with waitForMotionSlot of Master/UnitBus.cpp and
--   motionBudgetFold of Master/DisplayTask.cpp. Row/Lost is the rescue of lost units, with
--   rescueTick of Master/DisplayTask.cpp.
-- - Bus: the row master's side of the unit bus. Bus/Adapter is the bus adapter that the
--   templates take, Bus/Twiboot is TwibootFlash.h, Bus/Flash unitFlashImage and Bus/Rescue
--   unitRescueProbe and unitReadBootSection of UnitBusTwiboot.h, Bus/Sketch the queries and
--   writes of UnitBusCore.h. Bus/Flash/Trace puts a log in front of any adapter, and
--   Bus/Flash/Session is the protocol of a flash as a relation on logs. Bus/Wired is an adapter
--   over a world of one unit: the frames of the client become the events of TWI_vect, and the
--   time that a call takes reaches the bootloader's timer.
-- - Boot: firmware/v2/UnitBootloader/main.c. Boot/Hardware is what it uses of the chip,
--   Boot/State its variables, Boot/Memory write_flash_page, TWI_data_write and TWI_data_read,
--   Boot/Twi TWI_vect, Boot/Startup main's start and TIMER0_OVF_vect, Boot/Loop the DIP address
--   and the loop. Both images are modelled, the fielded one and the lean one (SF_NEW_TWIBOOT).
-- - Link: Link/Stream is the framing of WallLinkStream.h (feed, peek, pop) with the loops of
--   WallLinkCore::bytes of Master/WallLinkCore.h; Link/Framing and Link/Chunks hold its
--   theorems. Link/Document is its documents in pieces (wlUnitsPiece, WlDocAssembler),
--   Link/Pieces and Link/Transfer their theorems; a piece holds up to the 480 bytes of
--   wall_link.options.
-- - Common: lists with native indices, C's tests and casts, signed integers, and laws of XOR.
--
-- How they interact: a row master sends the frames of Wire to a unit and reads its replies
-- (Bus/Sketch); the flash loop of Row orders a unit into its bootloader and has it flashed
-- (Bus/Flash); Boot takes the pages. Bus/Wired puts the client of Bus/Flash and the bootloader
-- of Boot/Twi on one bus. Unit/Update replaces that bootloader itself.
--
-- Parameters: the row master's bus (Row.Calls.Hooks, Bus.Adapter.Bus) is any record of
-- functions over any world, with no law assumed; the chip (Boot.Hardware.Hardware) is any
-- record of functions, and theorems on the flash's contents assume the laws of self-programming
-- (IsSpm), which Boot/Chip shows to hold of a concrete flash, or less (IsLocal: writing a page
-- touches nothing else). In Bus/Wired, what a call costs, how long a page write takes and what
-- the unit's sketch answers are parameters (Setting). In Unit/Update the new image, its page 7
-- and its two checksums, which a build generates, are parameters; in Link the decoding and
-- handling of a message, which nanopb and the rest of the core do, is one function of its bytes
-- and of the caller's state. Counters of 8, 16 and 32 bits wrap or saturate as in the source.
-- Every loop is structural: over the targets of a plan, the attempts left (2 of 3 after the
-- first), the probes left (3 of 4 after the first), the rounds of a wait (ceil(wait / 200 ms)),
-- the slots of the ring. On fuel run twibootWaitReady, on its timeout in ms and one, which
-- Bus/Twiboot/Ready treats; waitForMotionSlot, on any, its theorem being one on safety; and the
-- two loops of WallLinkCore::bytes, the inner one on the length of the buffer, as a message
-- takes a byte at least, the outer one on the length of the data and one, as a round that goes
-- on has taken a byte; Link/Chunks shows that this is enough. Bus traffic and samples are lists
-- of events of any length.
--
-- Not modelled: motors, pins, LEDs, timers' registers, JSON, web, MQTT and Wi-Fi; of main.c
-- usi_statemachine and the virtual boot section, which are not compiled for this board; of
-- BootUpdateAvr.h the interrupt, TWI and EEPROM registers around the writes and the assembler
-- of stage 1, whose writes are modelled; waitRadioQuiet, which moves units once a radio has
-- held them for 35 s; what a job does before and between its two loops, the latter being a
-- parameter (`between`); the wall master's policies and, of its link, the messages themselves;
-- of UnitBusCore.h the folds of what was read into a unit's facts, the wait for a batch, and
-- the reads of lifetime and boot info.
mod Common
pub mod Wire
pub mod Unit
pub mod Row
pub mod Boot
pub mod Bus
pub mod Link
