-- ===== src/Bus/Rescue.antt =====
-- firmware/v2/shared/TwibootFlash.h and UnitBusTwiboot.h: what a bootloader says about itself, the
-- probe of a unit that stopped answering, and the read of a boot section.
pub mod Exits
pub mod Restarts
use split_flap.Common.{
  ℕ, zero, suc, ◌+◌, ◌*◌, ◌/◌, bit_and, Option, none, some, List, [], ◌∷◌, ◌++◌, Bool, true, false,
  not, ◌&&◌, ◌||◌, ◌==◌, ◌!=◌, ltb, leb, if◌then◌else◌, get_or, take,
}
use split_flap.Bus.Adapter.{Bus, UnitBusAct, probe, transmit}
use split_flap.Bus.Twiboot.{
  ok, is_ok, page_bytes, boot_section_start, chipinfo_command, flash_command, same_bytes, exit,
  await_bootloader, ask, is_bootloader, verify_chip, whole_reply, read_flash_page, or_again,
}
use split_flap.Bus.Sketch.{reboot_sketch}

-- `TwibootIdentity`
pub record TwibootIdentity : Type 0 where
  pub generation : ℕ
  pub caps : ℕ
  pub fuses_valid : Bool
  pub lfuse : ℕ
  pub lock : ℕ
  pub efuse : ℕ
  pub hfuse : ℕ
  pub crash_valid : Bool
  pub crash_count : ℕ

abbrev pub unread : TwibootIdentity
unread = record {
  generation = 0;
  caps = 0;
  fuses_valid = false;
  lfuse = 0;
  lock = 0;
  efuse = 0;
  hfuse = 0;
  crash_valid = false;
  crash_count = 0;
}

abbrev pub generation_unknown : ℕ
generation_unknown = 0xff

abbrev pub crash_hold_count : ℕ
crash_hold_count = 3

-- "TWIBOOT"
abbrev stock_name : List ℕ
stock_name = 0x54 ∷ 0x57 ∷ 0x49 ∷ 0x42 ∷ 0x4f ∷ 0x4f ∷ 0x54 ∷ []

unfoldable pub held_for_crashing : TwibootIdentity → Bool
held_for_crashing id = id.crash_valid && leb crash_hold_count id.crash_count

unfoldable pub parse_version : List ℕ → TwibootIdentity
unfolding same_bytes
parse_version info =
    let generation = get_or info 2 0 in
    if get_or info 0 0 == 0x53
      && get_or info 1 0 == 0x46
      && leb 2 generation
      && generation != generation_unknown
    then record unread { generation = generation; caps = get_or info 3 0 }
    else if same_bytes (take 7 info) stock_name
    then record unread { generation = 1 }
    else record unread { generation = generation_unknown }

-- `bootLockFuseReadFellThrough`
unfoldable pub lock_fuse_read_fell_through : ℕ → ℕ → ℕ → ℕ → List ℕ → Bool
lock_fuse_read_fell_through lock low high ext flash0to3 =
    low == get_or flash0to3 0 0
    && lock == get_or flash0to3 1 0
    && ext == get_or flash0to3 2 0
    && high == get_or flash0to3 3 0

abbrev pub wants_fuses : TwibootIdentity → Bool
wants_fuses id = bit_and id.caps 0x08 != 0

abbrev pub wants_crash : TwibootIdentity → Bool
wants_crash id = bit_and id.caps 0x04 != 0

-- The fuse bytes of a chip information, unless they are flash bytes 0 to 3.
unfoldable pub judge_fuses :
    {W : Type 0} → TwibootIdentity → List ℕ → Option (List ℕ) × W → TwibootIdentity × W
unfolding lock_fuse_read_fell_through
judge_fuses id b (none, w) = (id, w)
judge_fuses id b (some flash0to3, w) =
    let lfuse = get_or b 8 0 in
    let lock = get_or b 9 0 in
    let efuse = get_or b 10 0 in
    let hfuse = get_or b 11 0 in
    let read = record id {
      fuses_valid = true;
      lfuse = lfuse;
      lock = lock;
      efuse = efuse;
      hfuse = hfuse;
    } in
    (if lock_fuse_read_fell_through lock lfuse hfuse efuse flash0to3 then id else read, w)

module _ {W : Type 0} (bus : Bus W) (addr : ℕ) where
  -- `twibootReadIdentity` from the reply to the chip information on.
  unfoldable pub read_fuses : TwibootIdentity → Option (List ℕ) × W → TwibootIdentity × W
  unfolding judge_fuses ask whole_reply
  read_fuses id (none, w) = (id, w)
  read_fuses id (some b, w) =
      let crashed = record id { crash_count = get_or b 12 0; crash_valid = true } in
      let id2 = if wants_crash id then crashed else id in
      let flash = whole_reply bus addr 4 (ask bus addr (flash_command 0) 4 w) in
      if not (wants_fuses id) then (id2, w) else judge_fuses id2 b flash

  -- `twibootReadIdentity` from the reply to the version request on.
  unfoldable pub read_rest : Option (List ℕ) × W → Bool × TwibootIdentity × W
  unfolding parse_version read_fuses ask whole_reply
  read_rest (none, w) = (false, unread, w)
  read_rest (some info, w) =
      let id = parse_version info in
      let chip_len : ℕ = if wants_crash id then 13 else 12 in
      let reply = whole_reply bus addr chip_len (ask bus addr chipinfo_command chip_len w) in
      let (full, w1) = read_fuses id reply in
      if ltb id.generation 2 || id.generation == generation_unknown
      then (true, id, w)
      else if not (wants_fuses id) && not (wants_crash id)
      then (true, id, w)
      else (true, full, w1)

  unfoldable pub read_identity : W → Bool × TwibootIdentity × W
  unfolding read_rest ask whole_reply
  read_identity w = read_rest (whole_reply bus addr 16 (ask bus addr (1 ∷ []) 16 w))

-- `UnitRescueProbe`
pub data UnitRescueProbe : Type 0 where
  no_ack bootloader sketch_silent crash_held exit_refused : UnitRescueProbe

module _ {W : Type 0} (bus : Bus W) (addr : ℕ) where
  -- The identity, asked for a second time where the first read failed.
  unfoldable pub identity_twice : W → TwibootIdentity × W
  unfolding read_identity
  identity_twice w =
      let (read, id, w1) = read_identity bus addr w in
      let (read2, id2, w2) = read_identity bus addr w1 in if read then (id, w1) else (id2, w2)

  unfoldable pub rescue_probe : W → UnitRescueProbe × TwibootIdentity × W
  unfolding transmit is_bootloader identity_twice held_for_crashing exit
  rescue_probe w =
      let (status, w1) = transmit bus addr [] true (bus.mark probe addr w) in
      let (in_bootloader, w2) = is_bootloader bus addr w1 in
      let (id, w3) = identity_twice w2 in
      let (exited, w4) = exit bus addr w3 in
      if status != 0
      then (no_ack, unread, w1)
      else if not in_bootloader
      then (sketch_silent, unread, w2)
      else if held_for_crashing id
      then (crash_held, id, w3)
      else if exited != 0
      then (exit_refused, id, w4)
      else (bootloader, id, w4)

-- `UnitBootReadResult`
pub data UnitBootReadResult : Type 0 where
  read_ok silent chip_mismatch read_failed : UnitBootReadResult

-- The result by the chip's check and the bytes read.
unfoldable pub read_result : Bool → Option (List ℕ) → UnitBootReadResult
read_result false _ = chip_mismatch
read_result true none = read_failed
read_result true (some b) = read_ok

abbrev pub boot_section_pages : ℕ
boot_section_pages = 8

module _ {W : Type 0} (bus : Bus W) (keep_alive : W → W) (addr : ℕ) where
  -- A page, asked for a second time where the first read failed.
  unfoldable pub page_twice : ℕ → W → Option (List ℕ) × W
  unfolding read_flash_page or_again
  page_twice flash_addr w =
      let (first, w1) = read_flash_page bus addr flash_addr w in
      or_again bus addr first w1 (read_flash_page bus addr flash_addr w1)

  -- The rest of a read, where a page came.
  unfoldable pub and_then :
      Option (List ℕ) → W → (List ℕ → Option (List ℕ) × W) → Option (List ℕ) × W
  and_then none w rest = (none, w)
  and_then (some b) w rest = rest b

  -- The pages of the boot section from `page` on, `n` of them to go.
  unfoldable pub read_pages : ℕ → ℕ → List ℕ → W → Option (List ℕ) × W
  unfolding page_twice and_then
  read_pages zero page out w = (some out, w)
  read_pages (suc n) page out w =
      let (reply, w1) = page_twice (boot_section_start + page * page_bytes) (keep_alive w) in
      and_then reply w1 (λ b. read_pages n (page + 1) (out ++ b) w1)

  -- The exits, with `n` attempts left.
  unfoldable pub try_exit : ℕ → W → Bool × W
  unfolding exit
  try_exit zero w = (false, w)
  try_exit (suc n) w =
      let (status, w1) = exit bus addr w in
      let again = try_exit n (bus.sleep_ms 20 w1) in if status == 0 then (true, w1) else again

  -- The end of `unitReadBootSection`: whether the exit was ACKed and whether the unit answered.
  unfoldable pub restart_unit : W → Bool × Bool × W
  unfolding try_exit transmit reboot_sketch
  restart_unit w =
      let (exited, w1) = try_exit 3 w in
      let (status, w2) = transmit bus addr [] true (bus.sleep_ms 2000 (keep_alive w1)) in
      let (rebooted, w3) = reboot_sketch bus addr w2 in
      if not exited
      then (false, false, w1)
      else if status == 0
      then (true, true, w3)
      else (true, false, w2)

  -- `unitReadBootSection`: the result, the bytes, whether the exit was ACKed, whether the unit
  -- answered.
  unfoldable pub read_boot_section : W → UnitBootReadResult × Option (List ℕ) × Bool × Bool × W
  unfolding await_bootloader verify_chip read_pages restart_unit read_result
  read_boot_section w =
      let (live, w1) = await_bootloader bus addr w in
      let (chip, w2) = verify_chip bus addr w1 in
      let (bytes, w3) = read_pages boot_section_pages 0 [] w2 in
      let (exited, answered, w4) = restart_unit (if is_ok chip then w3 else w2) in
      if not live then (silent, none, false, false, w1) else (
        read_result (is_ok chip) bytes,
        if is_ok chip then bytes else none,
        exited,
        answered,
        w4,
      )
