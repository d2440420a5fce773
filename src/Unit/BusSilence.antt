-- ===== src/Unit/BusSilence.antt =====
-- firmware/v2/Unit/UnitBusSilence.h: what a unit does when its master stops addressing it. Times
-- are uint32_t milliseconds, and their differences wrap. The bits of a tick's result are the fields
-- of `Todo`.
pub mod Record
pub mod Restart
pub mod Wear
mod Tests
use split_flap.Common.{
  ℕ, ◌+◌, ◌*◌, ◌/◌, ◌%◌, bit_and, bit_or, Bool, true, false, not, ◌&&◌, ◌||◌, ◌==◌, ◌!=◌, ltb, leb,
  if◌then◌else◌, u16, sub16, sub32, bump8,
}
use split_flap.Wire.BusRecord.{BusRecord, flag_traffic, flag_line_low, flag_ended, flag_restarted}

abbrev pub after_ms : ℕ
after_ms = 180000

abbrev pub restart_ms : ℕ
restart_ms = 1200000

abbrev pub contact_frames_needed : ℕ
contact_frames_needed = 8

abbrev pub reinit_heard_ms : ℕ
reinit_heard_ms = 5000

abbrev pub traffic_own_ms : ℕ
traffic_own_ms = 1000

pub record BusSilence : Type 0 where
  pub last_frames : ℕ  -- uint16_t
  pub contact_frames : ℕ  -- uint16_t
  pub heard_ms : ℕ
  pub silent : Bool
  pub saved_minutes : ℕ  -- uint8_t, 0 = not written yet
  pub reinit_ms : ℕ
  pub reinit_open : Bool
  pub restarted : Bool
  pub traffic_open : Bool
  pub traffic_ms : ℕ

-- The state of a unit that has just started.
abbrev pub fresh : BusSilence
fresh = record {
  last_frames = 0;
  contact_frames = 0;
  heard_ms = 0;
  silent = false;
  saved_minutes = 0;
  reinit_ms = 0;
  reinit_open = false;
  restarted = false;
  traffic_open = false;
  traffic_ms = 0;
}

-- BUS_SILENCE_DO_*
pub record Todo : Type 0 where
  pub save : Bool
  pub reinit : Bool
  pub watch_traffic : Bool
  pub restart : Bool

abbrev pub nothing : Todo
nothing = record { save = false; reinit = false; watch_traffic = false; restart = false }

-- What a pass of loop() samples.
pub record Sample : Type 0 where
  pub frames : ℕ  -- uint16_t
  pub line_low : Bool
  pub traffic : Bool
  pub restart_allowed : Bool
  pub now_ms : ℕ

-- The two structures that a tick changes, and its result.
pub record Pass : Type 0 where
  pub s : BusSilence
  pub rec : BusRecord
  pub todo : Todo

unfoldable pub minutes_of : ℕ → ℕ
minutes_of ms = let minutes = ms / 60000 in if ltb 255 minutes then 255 else minutes

-- `m == 0 ? 1 : m`
abbrev pub at_least_one : ℕ → ℕ
at_least_one m = if m == 0 then 1 else m

-- `if (m > longest) longest = m;`
abbrev pub longer : ℕ → ℕ → ℕ
longer m longest = if ltb longest m then m else longest

unfoldable pub now_minutes : BusSilence → ℕ → ℕ
unfolding minutes_of
now_minutes s now_ms =
    if not s.silent then 0 else at_least_one (minutes_of (sub32 now_ms s.heard_ms))

-- `frames != s.lastFrames`: the unit was addressed.
heard : BusSilence → BusRecord → Sample → Pass
heard s rec x =
    let arrived = sub16 x.frames s.last_frames in
    let sum = u16 (s.contact_frames + arrived) in
    let contact = if ltb contact_frames_needed sum then contact_frames_needed else sum in
    let last = at_least_one (minutes_of (sub32 x.now_ms s.heard_ms)) in
    let after_reinit = s.reinit_open && leb (sub32 x.now_ms s.reinit_ms) reinit_heard_ms in
    let ended = record rec {
      last_minutes = last;
      longest_minutes = longer last rec.longest_minutes;
      flags = bit_or rec.flags flag_ended;
      reinits_heard = if after_reinit then bump8 rec.reinits_heard else rec.reinits_heard;
    } in
    record {
      s = record s {
        last_frames = x.frames;
        contact_frames = contact;
        heard_ms = x.now_ms;
        silent = false;
        reinit_open = false;
        restarted = false;
        traffic_open = false;
      };
      rec = if s.silent then ended else rec;
      todo = if s.silent then record nothing { save = s.saved_minutes != 0 } else nothing;
    }

-- The silence is noticed: `!s.silent` and the quiet has lasted `after_ms`.
notice : BusSilence → BusRecord → Sample → ℕ → Pass
notice s rec x quiet =
    let last = minutes_of quiet in
    record {
      s = record s {
        silent = true;
        saved_minutes = 0;
        reinit_open = false;
        restarted = false;
        traffic_open = false;
        reinit_ms = sub32 x.now_ms after_ms;
      };
      rec = record rec {
        silences = bump8 rec.silences;
        last_minutes = last;
        longest_minutes = longer last rec.longest_minutes;
        flags = if x.line_low then flag_line_low else 0;
      };
      todo = record nothing { watch_traffic = true };
    }

has_traffic : BusRecord → Bool
has_traffic rec = bit_and rec.flags flag_traffic != 0

-- The two tests on the traffic of the lines.
watch : Sample → Pass → Pass
unfolding has_traffic
watch x p =
    let opens = x.traffic && not p.s.traffic_open && not (has_traffic p.rec) in
    let open' = if opens then true else p.s.traffic_open in
    let since = if opens then x.now_ms else p.s.traffic_ms in
    let foreign = open' && leb traffic_own_ms (sub32 x.now_ms since) in
    record p {
      s = record p.s { traffic_open = if foreign then false else open'; traffic_ms = since };
      rec = record p.rec {
        flags = if foreign then bit_or p.rec.flags flag_traffic else p.rec.flags;
      };
    }

-- The restart of the bus hardware.
reinit : Sample → Pass → Pass
reinit x p =
    let due = not x.line_low && leb after_ms (sub32 x.now_ms p.s.reinit_ms) in
    if due
    then record {
      s = record p.s { reinit_ms = x.now_ms; reinit_open = true };
      rec = record p.rec { reinits = bump8 p.rec.reinits };
      todo = record p.todo { reinit = true };
    }
    else p

-- The length at which the silence is written next.
unfoldable pub mark : ℕ → ℕ
unfolding minutes_of
mark saved =
    if saved == 0 then minutes_of (2 * after_ms) else if ltb saved 0x80 then saved * 2 else 0xff

save_mark : ℕ → Pass → Pass
save_mark quiet p =
    let minutes = minutes_of quiet in
    if leb (mark p.s.saved_minutes) minutes && ltb p.s.saved_minutes minutes
    then record {
      s = record p.s { saved_minutes = minutes };
      rec = record p.rec {
        last_minutes = minutes;
        longest_minutes = longer minutes p.rec.longest_minutes;
      };
      todo = record p.todo { save = true };
    }
    else p

-- The restart of the whole unit.
restart : Sample → ℕ → Pass → Pass
restart x quiet p =
    let minutes = minutes_of quiet in
    if x.restart_allowed && not p.s.restarted && leb restart_ms quiet
    then record {
      s = record p.s { restarted = true; saved_minutes = at_least_one minutes };
      rec = record p.rec {
        last_minutes = minutes;
        longest_minutes = longer minutes p.rec.longest_minutes;
        flags = bit_or p.rec.flags flag_restarted;
        self_restarts = bump8 p.rec.self_restarts;
      };
      todo = record p.todo { save = true; restart = true };
    }
    else p

-- The tests of a silence, in their order.
silence_steps : Sample → ℕ → Pass → Pass
unfolding watch reinit save_mark restart
silence_steps x quiet p = restart x quiet (save_mark quiet (reinit x (watch x p)))

-- A tick with no frame and with contact before.
quiet_pass : BusSilence → BusRecord → Sample → Pass
unfolding notice silence_steps
quiet_pass s rec x =
    let quiet = sub32 x.now_ms s.heard_ms in
    let start =
      if s.silent then record { s = s; rec = rec; todo = nothing } else notice s rec x quiet in
    if not s.silent && ltb quiet after_ms
    then record { s = s; rec = rec; todo = nothing }
    else silence_steps x quiet start

unfoldable pub tick : BusSilence → BusRecord → Sample → Pass
unfolding heard quiet_pass
tick s rec x =
    if x.frames != s.last_frames
    then heard s rec x
    else if ltb s.contact_frames contact_frames_needed
    then record { s = record s { heard_ms = x.now_ms }; rec = rec; todo = nothing }
    else quiet_pass s rec x
