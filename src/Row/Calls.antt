-- ===== src/Row/Calls.antt =====
-- The interface of firmware/v2/shared/ReflashPlan.h to a row master's bus: the hooks of its flash
-- loop. Every call of a hook is kept in a log, newest first.
use split_flap.Common.{ℕ, List, ◌∷◌, Bool, true, false}
use split_flap.Row.Progress.{Progress}

pub data Outcome : Type 0 where
  flashed failed stopped not_entered : Outcome

abbrev pub is_flashed : Outcome → Bool
is_flashed flashed = true
is_flashed _ = false

-- The calls that a row master's bus file serves, over the state `W` of its world.
pub record Hooks (W : Type 0) : Type 0 where
  pub stop_requested : W → Bool × W
  pub image_fits : W → Bool × W
  pub in_bootloader : ℕ → W → Bool × W
  pub enter_bootloader : ℕ → W → ℕ × W
  pub pause : ℕ → W → W
  pub unit_not_entered : ℕ → W → W
  pub waiting_for_reset : ℕ → W → W
  pub unit_retried : ℕ → ℕ → W → W
  pub flash_unit : ℕ → W → Outcome × W
  pub unit_flashed : ℕ → W → W
  pub progress_changed : Progress → W → W
  pub settle_batch : List ℕ → W → W
  pub run_halted : ℕ → ℕ → W → W

-- A call that was made, with its answer where it has one.
pub data Call : Type 0 where
  stop : Bool → Call
  fits : Bool → Call
  asked : ℕ → Bool → Call
  ordered : ℕ → ℕ → Call
  paused : ℕ → Call
  missed : ℕ → Call
  waiting : ℕ → Call
  retried : ℕ → ℕ → Call
  flash : ℕ → Outcome → Call
  restored : ℕ → Call
  published : Progress → Call
  settled : List ℕ → Call
  halt : ℕ → ℕ → Call

-- The world and the calls made so far.
pub record Ctx (W : Type 0) : Type 0 where
  pub world : W
  pub log : List Call

-- One call: the world after it and its log entry. `tell` is for calls with no answer.
unfoldable pub tell : {W : Type 0} → Call → (W → W) → Ctx W → Ctx W
tell call f c = record { world = f c.world; log = call ∷ c.log }

module _ {W : Type 0} (h : Hooks W) where
  unfoldable pub ask_stop : Ctx W → Bool × Ctx W
  ask_stop c =
      let (b, w) = h.stop_requested c.world in (b, record { world = w; log = stop b ∷ c.log })

  unfoldable pub ask_fits : Ctx W → Bool × Ctx W
  ask_fits c = let (b, w) = h.image_fits c.world in (b, record { world = w; log = fits b ∷ c.log })

  unfoldable pub ask_in_bootloader : ℕ → Ctx W → Bool × Ctx W
  ask_in_bootloader addr c =
      let (b, w) = h.in_bootloader addr c.world in
      (b, record { world = w; log = asked addr b ∷ c.log })

  unfoldable pub order_bootloader : ℕ → Ctx W → ℕ × Ctx W
  order_bootloader addr c =
      let (n, w) = h.enter_bootloader addr c.world in
      (n, record { world = w; log = ordered addr n ∷ c.log })

  unfoldable pub call_flash : ℕ → Ctx W → Outcome × Ctx W
  call_flash addr c =
      let (o, w) = h.flash_unit addr c.world in
      (o, record { world = w; log = flash addr o ∷ c.log })
