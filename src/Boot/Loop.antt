-- ===== src/Boot/Loop.antt =====
-- main.c: the address that `main` takes from the DIP switches, and its loop.
use split_flap.Common.{
  ℕ, ◌+◌, ◌-◌, ◌/◌, ◌%◌, ◌≡◌, refl, List, [], ◌∷◌, Bool, true, false, ◌==◌, if◌then◌else◌, bit_and,
  ==_iff, IsByte, Option, none, some, All, ap, ◌∙◌, if_both, if_false,
}
use split_flap.Common.Table.{table_256, at_byte}
use split_flap.Boot.Hardware.{Hardware}
use split_flap.Boot.State.{Image, fielded, lean, Cmd, boot_application, Boot}
use split_flap.Boot.Twi.{Event, twi_vect}
use split_flap.Boot.Startup.{timer0_ovf}

-- The DIP value of PIND; PD3 to PD6, active low.
unfoldable pub dip : ℕ → ℕ
dip pind =
    (if bit_and pind 8 == 0 then 1 else 0)
    + (if bit_and pind 16 == 0 then 2 else 0)
    + (if bit_and pind 32 == 0 then 4 else 0)
    + (if bit_and pind 64 == 0 then 8 else 0)

-- The address of I2C_ADDRESS_BASE=1, without the shift of TWAR.
unfoldable pub own_address : ℕ → ℕ
unfolding dip
own_address pind = 1 + dip pind

address_table : table_256 (λ pind. own_address pind == 16 - pind / 8 % 16) ≡ true
unfolding table_256 own_address dip
address_table = refl

-- The bootloader's address is 16 less the number that PD3 to PD6 read, whatever the other pins.
own_address_lem : (pind : ℕ) → IsByte pind → own_address pind ≡ 16 - pind / 8 % 16
own_address_lem pind h = (==_iff _ _).0 (at_byte _ address_table pind h)

-- What a pass of `main`'s loop finds: an event of the TWI unit, and the timer's overflow.
pub record Wake : Type 0 where
  pub event : Option Event
  pub overflow : Bool

abbrev pub left_loop : Cmd → Bool
left_loop boot_application = true
left_loop _ = false

timer0_ovf-blank :
    {F E : Type 0} (image : Image) (s : Boot F E) → s.app_installed ≡ false → timer0_ovf image s ≡ s
unfolding timer0_ovf
timer0_ovf-blank fielded s b = if_false s.app_installed _ s b
timer0_ovf-blank lean s b = if_false s.app_installed _ s b

module _ {F E : Type 0} (hw : Hardware F E) (image : Image) where
  unfoldable pub take_event : Option Event → Boot F E → Boot F E
  take_event none s = s
  take_event (some e) s = twi_vect hw image e s

  unfoldable pub loop_pass : Wake → Boot F E → Boot F E
  unfolding take_event
  loop_pass x s = let t = take_event x.event s in if x.overflow then timer0_ovf image t else t

  -- The loop over the passes that come, until `cmd` says to boot.
  unfoldable pub main_loop : List Wake → Boot F E → Boot F E
  unfolding loop_pass
  main_loop [] s = s
  main_loop (x ∷ xs) s =
      let rest = main_loop xs (loop_pass x s) in if left_loop s.cmd then s else rest

  -- No event of the bus.
  abbrev pub Quiet : Wake → Type 0
  Quiet x = x.event ≡ none

  loop_pass-Quiet :
      (x : Wake) (s : Boot F E) → Quiet x → s.app_installed ≡ false → loop_pass x s ≡ s
  unfolding loop_pass
  loop_pass-Quiet x s q b =
      ap (λ o. let t = take_event o s in if x.overflow then timer0_ovf image t else t) q
      ∙ if_both (λ t. t ≡ s) x.overflow (timer0_ovf image s) s (timer0_ovf-blank image s b) refl

  -- With no application installed, the loop changes nothing while the bus is quiet, however long.
  pub blank_waits :
      (xs : List Wake) (s : Boot F E) → All Quiet xs → s.app_installed ≡ false → main_loop xs s ≡ s
  unfolding main_loop
  blank_waits [] s q b = refl
  blank_waits (x ∷ xs) s q b =
      if_both (λ t. t ≡ s) (left_loop s.cmd) s (main_loop xs (loop_pass x s)) refl
        (ap (λ t. main_loop xs t) (loop_pass-Quiet x s q.0 b) ∙ blank_waits xs s q.1 b)
