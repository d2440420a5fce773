-- ===== src/Bus/Rescue/Exits.antt =====
-- firmware/v2/shared/UnitBusTwiboot.h: when the probe of a lost unit tells it to start.
use split_flap.Common.{ℕ, ◌≡◌, List, Bool, true, false, if◌then◌else◌}
use split_flap.Bus.Adapter.{Bus}
use split_flap.Bus.Twiboot.{same_bytes}
use split_flap.Bus.Flash.Trace.{Event, is_exit, exits, Traced}
use split_flap.Bus.Flash.Quiet.{IsQuiet}
use split_flap.Bus.Rescue.{
  TwibootIdentity, held_for_crashing, UnitRescueProbe, bootloader, exit_refused,
}

-- The results of a probe that told the unit to start its sketch.
abbrev pub told_to_start : UnitRescueProbe → Bool
told_to_start bootloader = true
told_to_start exit_refused = true
told_to_start _ = false

module _ {W : Type 0} (bus : Bus W) (addr : ℕ) where
  unfoldable pub Exits : ℕ → List Event → Type 0
  Exits n l = exits l ≡ n

  pub Exits-IsQuiet : (n : ℕ) → IsQuiet bus addr (Exits n)
  unfolding Exits exits is_exit same_bytes
  Exits-IsQuiet n = record {
    polls = λ status l s. s;
    asks = λ kind hi lo status l s. s;
    answers = λ command bytes l s. s;
  }

  -- What a probe comes to: the exits sent, and that a held unit gets none.
  abbrev Probed : UnitRescueProbe × TwibootIdentity × Traced W → Type 0
  Probed (p, id, t) =
      (exits t.log ≡ (if told_to_start p then 1 else 0))
      × (told_to_start p ≡ true → held_for_crashing id ≡ false)
