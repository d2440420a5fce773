-- ===== src/Unit/Heal.antt =====
-- firmware/v2/Unit/UnitTwiHeal.h: the reset of a bus that a line holds down and of a unit that its
-- bus hardware made deaf, and the passes of UnitI2CProtocol.ino that apply them.
pub mod Held
pub mod Deaf
mod Tests
use split_flap.Common.{
  ℕ, ◌+◌, ◌*◌, bit_and, bit_or, List, [], ◌∷◌, Bool, true, false, not, ◌&&◌, ◌||◌, ◌==◌, ltb, leb,
  if◌then◌else◌, bump8, sub32, u8, u32,
}

abbrev pub hold_ms : ℕ
hold_ms = 50

abbrev pub cooldown_ms : ℕ
cooldown_ms = 1000

abbrev pub max_sample_gap_ms : ℕ
max_sample_gap_ms = 10

-- `TwiHealState`
pub record TwiHeal : Type 0 where
  pub low_seen : Bool
  pub low_since : ℕ
  pub ever_reset : Bool
  pub last_reset : ℕ
  pub self_resets : ℕ  -- uint8_t

abbrev pub at_rest : TwiHeal
at_rest = record {
  low_seen = false;
  low_since = 0;
  ever_reset = false;
  last_reset = 0;
  self_resets = 0;
}

-- The cooldown after a reset.
unfoldable pub rested : Bool → ℕ → ℕ → Bool
rested ever last now = not ever || leb cooldown_ms (sub32 now last)

unfoldable pub heal_should_reset : TwiHeal → Bool → ℕ → Bool × TwiHeal
unfolding rested
heal_should_reset s held now =
    let t = if s.low_seen then s else record s { low_seen = true; low_since = now } in
    if not held
    then (false, record s { low_seen = false })
    else if ltb (sub32 now t.low_since) hold_ms
    then (false, t)
    else (rested t.ever_reset t.last_reset now, t)

unfoldable pub heal_note_reset : TwiHeal → ℕ → Bool → TwiHeal
heal_note_reset s now released = record s {
  ever_reset = true;
  last_reset = now;
  self_resets = if released then bump8 s.self_resets else s.self_resets;
}

-- What a pass of `twiHealTick` meets: the milliseconds since boot, whether a line is held low, and
-- whether a reset lets go of it.
pub record Sample : Type 0 where
  pub at : ℕ
  pub held : Bool
  pub released : Bool

-- `twiHealTick`: whether it reset the bus hardware, and the state behind it.
unfoldable pub heal_tick : Sample → TwiHeal → Bool × TwiHeal
unfolding heal_should_reset heal_note_reset
heal_tick x s =
    let (reset, t) = heal_should_reset s x.held (u32 x.at) in
    (reset, if reset then heal_note_reset t (u32 x.at) x.released else t)

-- The passes of `loop()`, and when they reset the bus hardware.
unfoldable pub heal_resets : List Sample → TwiHeal → List ℕ
unfolding heal_tick
heal_resets [] s = []
heal_resets (x ∷ xs) s =
    let (reset, t) = heal_tick x s in
    let rest = heal_resets xs t in if reset then x.at ∷ rest else rest

-- `twiListenConfigIntact`
unfoldable pub listen_config_intact : ℕ → ℕ → ℕ → Bool
listen_config_intact twcr twar address =
    bit_and twcr 0x45 == 0x45 && twar == bit_or (u8 (address * 2)) 0x01

-- `TwiDeafState`
pub record TwiDeaf : Type 0 where
  pub bad_seen : Bool
  pub bad_since : ℕ
  pub last_sample : ℕ
  pub ever_reset : Bool
  pub last_reset : ℕ
  pub resets : ℕ  -- uint8_t

unfoldable pub deaf_should_reset : TwiDeaf → Bool → Bool → ℕ → Bool × TwiDeaf
unfolding rested
deaf_should_reset s intact lines_free now =
    let fresh = not s.bad_seen || ltb max_sample_gap_ms (sub32 now s.last_sample) in
    let t = if fresh then record s { bad_seen = true; bad_since = now } else s in
    let u = record t { last_sample = now } in
    if intact
    then (false, record s { bad_seen = false })
    else if ltb (sub32 now u.bad_since) hold_ms
    then (false, u)
    else if not lines_free
    then (false, u)
    else (rested u.ever_reset u.last_reset now, u)

unfoldable pub deaf_note_reset : TwiDeaf → ℕ → TwiDeaf
deaf_note_reset s now = record s {
  ever_reset = true;
  last_reset = now;
  bad_seen = false;
  resets = bump8 s.resets;
}

-- What a pass of `twiDeafTick` meets: the milliseconds since boot, and the two samples.
pub record DeafSample : Type 0 where
  pub at : ℕ
  pub intact : Bool
  pub lines_free : Bool

unfoldable pub deaf_tick : DeafSample → TwiDeaf → Bool × TwiDeaf
unfolding deaf_should_reset deaf_note_reset
deaf_tick x s =
    let (reset, t) = deaf_should_reset s x.intact x.lines_free (u32 x.at) in
    (reset, if reset then deaf_note_reset t (u32 x.at) else t)

unfoldable pub deaf_resets : List DeafSample → TwiDeaf → List ℕ
unfolding deaf_tick
deaf_resets [] s = []
deaf_resets (x ∷ xs) s =
    let (reset, t) = deaf_tick x s in
    let rest = deaf_resets xs t in if reset then x.at ∷ rest else rest
