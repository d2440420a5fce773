-- ===== src/Bus/Wired.antt =====
-- A bus with one unit on it that runs the bootloader of firmware/v2/UnitBootloader/main.c: the adapter
-- of TwibootFlash.h, its frames taken to `TWI_vect` event by event, with the time that they take, the
-- timer of the unit and the time in which a unit that writes a page does not answer.
pub mod Timer
pub mod Frames
pub mod Burst
pub mod Reads
pub mod Calls
pub mod Waits
pub mod Pages
pub mod Replies
pub mod Steps
pub mod Progress
pub mod Started
pub mod Install
mod Tests
use split_flap.Common.{
  ℕ, zero, suc, ◌+◌, ◌≤◌, List, [], ◌∷◌, ◌++◌, Bool, true, false, not, ◌&&◌, ◌||◌, ◌==◌, ltb,
  if◌then◌else◌, length, replicate, u32,
}
use split_flap.Boot.Hardware.{Hardware}
use split_flap.Boot.State.{Image, Cmd, write_flash_page, write_eeprom_page, Boot}
use split_flap.Boot.Startup.{ticks}
use split_flap.Boot.Loop.{left_loop}
use split_flap.Boot.Twi.{
  Event, slave_write, got_acked, got_nacked, stop, slave_read, sent_acked, sent_nacked, twi_vect,
  serve,
}
use split_flap.Boot.Twi.ReadBack.{put_out}
use split_flap.Bus.Adapter.{Bus}

-- `started`: the main loop of the bootloader has ended, the sketch has the unit. `free_at`: when the
-- last page write is over.
pub record World (F E : Type 0) : Type 0 where
  pub boot : Boot F E
  pub started : Bool
  pub clock : ℕ
  pub free_at : ℕ
  pub target : ℕ
  pub queued : List ℕ

-- What the wire and the unit are besides the bootloader: the milliseconds of a transaction and of a
-- page write, the overflows of the timer in a time, and the answers of the sketch.
pub record Setting : Type 0 where
  pub cost : ℕ
  pub busy : ℕ
  pub overflows : ℕ → ℕ → ℕ
  pub sketch_status : ℕ → List ℕ → ℕ
  pub sketch_bytes : ℕ → ℕ → List ℕ

-- The STOP of a transfer in this command writes a page.
abbrev pub is_writing : Cmd → Bool
is_writing write_flash_page = true
is_writing write_eeprom_page = true
is_writing _ = false

-- The events of a read of `qty` bytes.
abbrev pub reads : ℕ → List Event
reads zero = []
reads (suc n) = slave_read ∷ replicate n sent_acked ++ (sent_nacked ∷ [])

module _ {F E : Type 0} (image : Image) (set : Setting) where
  -- Time passes: the timer of the unit overflows, and may end the main loop.
  unfoldable pub elapse : ℕ → World F E → World F E
  elapse ms w =
      let b = if w.started then w.boot else ticks image (set.overflows w.clock ms) w.boot in
      record w { clock = w.clock + ms; boot = b; started = w.started || left_loop b.cmd }

module _ {F E : Type 0} (hw : Hardware F E) (image : Image) where
  -- The bytes of a frame, up to one that the unit does not ACK: 0, or 3.
  unfoldable pub deliver : List ℕ → Boot F E → ℕ × Boot F E
  deliver [] s = (0, s)
  deliver (b ∷ bs) s =
      let rest = deliver bs (twi_vect hw image (got_acked b) s) in
      let refused = twi_vect hw image (got_nacked b) s in
      if left_loop s.cmd then (3, s) else if s.acking then rest else (3, refused)

  -- STOP or repeated START behind a frame that was ACKed.
  unfoldable pub close : ℕ × Boot F E → ℕ × Boot F E
  close (status, s) =
      (status, if status == 0 && not (left_loop s.cmd) then twi_vect hw image stop s else s)

module _ {F E : Type 0} (hw : Hardware F E) (image : Image) (set : Setting) (addr : ℕ) where
  -- A unit that writes a page, or has TWEA clear, does not ACK its address: 2.
  unfoldable pub answers : World F E → Bool
  answers w = w.target == addr && not (ltb w.clock w.free_at) && w.boot.acking

  unfoldable pub frame : World F E → ℕ × World F E
  unfolding deliver close answers
  frame w =
      let (status, t) =
        close hw image (deliver hw image w.queued (twi_vect hw image slave_write w.boot)) in
      if w.started
      then ((if w.target == addr then set.sketch_status w.clock w.queued else 2), w)
      else if answers w
      then (
        status,
        record w {
          boot = t;
          started = left_loop t.cmd;
          free_at = if is_writing t.cmd then w.clock + set.busy else w.free_at;
        },
      )
      else (2, w)

  unfoldable pub take_in : ℕ → World F E → List ℕ × World F E
  unfolding answers
  take_in qty w =
      if w.started
      then ((if w.target == addr then set.sketch_bytes w.clock qty else []), w)
      else if answers w
      then (
        put_out hw image slave_read qty w.boot,
        record w { boot = serve hw image (reads qty) w.boot },
      )
      else ([], w)

  -- The driver's buffer takes a whole burst.
  abbrev pub wired : Bus (World F E)
  wired = record {
    queue = λ a bytes w. (length bytes, record w { target = a; queued = bytes });
    end_transmission = λ stop w. frame (elapse image set set.cost w);
    end_counted = λ w. frame (elapse image set set.cost w);
    receive = λ a qty w. take_in qty (elapse image set set.cost (record w { target = a }));
    now_ms = λ w. (u32 w.clock, w);
    sleep_ms = elapse image set;
    read_failed = λ w. w;
    note_read_error = λ w. w;
    mark = λ act a w. w;
  }
