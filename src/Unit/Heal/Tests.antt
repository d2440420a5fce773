-- ===== src/Unit/Heal/Tests.antt =====
-- Witnesses for firmware/v2/Unit/UnitTwiHeal.h.
use split_flap.Common.{ℕ, ◌≢◌, refl, List, [], ◌∷◌, ◌++◌, true, false, arith}
use split_flap.Unit.Heal.{at_rest, rested, Sample, heal_resets, TwiDeaf, DeafSample, deaf_resets}
use split_flap.Unit.Heal.Held.{IsSpaced, held_line-reset, heal_resets-IsSpaced}
use split_flap.Unit.Heal.Deaf.{deaf_unit-reset}

abbrev held_at : ℕ → Sample
held_at t = record { at = t; held = true; released = false }

-- A line held over the wrap of the clock.
held_line-reset_example :
    heal_resets (held_at 4294967280 ∷ held_at 4294967300 ∷ held_at 4294967340 ∷ []) at_rest ≢ []
unfolding rested
held_line-reset_example =
    held_line-reset (held_at 4294967280) (held_at 4294967300 ∷ []) (held_at 4294967340) at_rest refl
      (refl, (refl, tt)) refl (omega arith) (omega arith) refl

heal_resets-IsSpaced_example :
    IsSpaced (heal_resets (held_at 10 ∷ held_at 60 ∷ held_at 500 ∷ held_at 1060 ∷ []) at_rest)
heal_resets-IsSpaced_example =
    heal_resets-IsSpaced 0 (held_at 10 ∷ held_at 60 ∷ held_at 500 ∷ held_at 1060 ∷ []) at_rest
      (omega arith, (omega arith, (omega arith, (omega arith, tt)))) refl

abbrev listening : TwiDeaf
listening = record {
  bad_seen = false;
  bad_since = 0;
  last_sample = 0;
  ever_reset = false;
  last_reset = 0;
  resets = 0;
}

abbrev wrong_at : ℕ → DeafSample
wrong_at t = record { at = t; intact = false; lines_free = true }

abbrev wrong_samples : List DeafSample
wrong_samples = wrong_at 110 ∷ wrong_at 120 ∷ wrong_at 130 ∷ wrong_at 140 ∷ []

deaf_unit-reset_example :
    deaf_resets (wrong_at 100 ∷ wrong_samples ++ wrong_at 150 ∷ []) listening ≢ []
unfolding rested
deaf_unit-reset_example =
    deaf_unit-reset (wrong_at 100) wrong_samples (wrong_at 150) listening refl
      (
        omega arith,
        omega arith,
        refl,
        refl,
        (
          omega arith,
          omega arith,
          refl,
          refl,
          (
            omega arith,
            omega arith,
            refl,
            refl,
            (
              omega arith,
              omega arith,
              refl,
              refl,
              (omega arith, omega arith, refl, refl, (omega arith, omega arith, refl, refl, tt)),
            ),
          ),
        ),
      )
      (omega arith) (omega arith) refl
