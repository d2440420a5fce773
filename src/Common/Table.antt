-- ===== src/Common/Table.antt =====
-- A fact about every byte, checked by evaluating it at each.
use Prim.Native.Nat.{ℕ, zero, suc, ◌<◌}
use mathlib.Core.Path.{◌≡◌}
use mathlib.Core.Bool.{Bool, true, ◌&&◌}
use native.Mathlib.Omega.{arith}

pub holds_below : ℕ → (ℕ → Bool) → Bool
holds_below zero test = true
holds_below (suc n) test = holds_below n test && test n

unfoldable pub table_256 : (ℕ → Bool) → Bool
unfolding holds_below
table_256 test = holds_below 256 test

below_of_table :
    (n : ℕ) (test : ℕ → Bool) (x : ℕ) → holds_below n test ≡ true → x < n → test x ≡ true
unfolding holds_below
below_of_table zero test x all h = elim h [ ]
below_of_table (suc n) test x all h = ground (arith, below_of_table n test x)

pub at_byte : (test : ℕ → Bool) → table_256 test ≡ true → (x : ℕ) → x < 256 → test x ≡ true
unfolding table_256
at_byte test all x h = below_of_table 256 test x all h
