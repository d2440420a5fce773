-- ===== src/Unit/Odometer/Count.antt =====
-- No step is lost between moves: revolutions and remainder together count the steps of all moves.
use split_flap.Common.{ℕ, ◌+◌, ◌*◌, ◌/◌, ◌≤◌, ◌<◌, ◌≡◌, List, [], ◌∷◌, arith, u32, All}
use split_flap.Common.Int.{ℤ, abs}
use split_flap.Unit.Odometer.{OdometerState, add_steps}
use native.Mathlib.Nat.{div-add-mod', mod-lt, lt_of_mul-lt-mul_right, add-mul}

-- `odometerAddSteps` over the moves of a unit, in order.
pub add_moves : OdometerState → List ℤ → ℕ → OdometerState
add_moves s [] spr = s
add_moves s (m ∷ ms) spr = add_moves (add_steps s m spr) ms spr

abbrev pub travelled : List ℤ → ℕ
travelled [] = 0
travelled (m ∷ ms) = abs m + travelled ms

-- The steps that a state stands for.
abbrev pub steps_of : OdometerState → ℕ → ℕ
steps_of s spr = s.revolutions * spr + s.step_accumulator

-- A move of the motor fits an int16_t many times over.
abbrev pub IsMove : ℤ → Type 0
IsMove m = abs m < 2147483648

revolutions_fit :
    (revs total spr : ℕ) → revs * spr + total < 4294967296 * spr → revs + total / spr < 4294967296
revolutions_fit revs total spr h =
    lt_of_mul-lt-mul_right spr
      (omega (arith, add-mul revs (total / spr) spr, div-add-mod' total spr, h))

add_steps_lem :
    (s : OdometerState) (m : ℤ) (spr : ℕ)
    → 0 < spr
    → spr ≤ 65536
    → s.step_accumulator < spr
    → IsMove m
    → steps_of s spr + abs m < 4294967296 * spr
    → (steps_of (add_steps s m spr) spr ≡ steps_of s spr + abs m)
      × ((add_steps s m spr).step_accumulator < spr)
unfolding add_steps
add_steps_lem s m spr pos fits acc move bound =
    let total = s.step_accumulator + abs m in
    let no_wrap : u32 (s.step_accumulator + u32 (abs m)) ≡ total = omega arith in
    let low = mod-lt total pos in
    let revs = revolutions_fit s.revolutions total spr (omega arith) in
    let exact : u32 (s.revolutions + total / spr) ≡ s.revolutions + total / spr =
      omega (arith, revs) in
    rw (no_wrap, exact)
      (
        omega (arith, add-mul s.revolutions (total / spr) spr, div-add-mod' total spr, low, revs),
        omega (arith, low),
      )

-- Whatever moves a unit makes, in either direction, its revolutions times the steps of a revolution
-- plus its remainder grow by exactly the sum of the moves' lengths, as long as the revolutions stay
-- below 2 ^ 32; and the remainder stays below one revolution.
pub add_moves_counts :
    (s : OdometerState) (ms : List ℤ) (spr : ℕ)
    → 0 < spr
    → spr ≤ 65536
    → s.step_accumulator < spr
    → All IsMove ms
    → steps_of s spr + travelled ms < 4294967296 * spr
    → (steps_of (add_moves s ms spr) spr ≡ steps_of s spr + travelled ms)
      × ((add_moves s ms spr).step_accumulator < spr)
unfolding add_moves
add_moves_counts s [] spr pos fits acc moves bound = (omega arith, acc)
add_moves_counts s (m ∷ ms) spr pos fits acc moves bound =
    let one = add_steps_lem s m spr pos fits acc moves.0 (omega arith) in
    let rest =
      add_moves_counts (add_steps s m spr) ms spr pos fits one.1 moves.1 (omega (arith, one.0)) in
    (omega (arith, one.0, rest.0), rest.1)
