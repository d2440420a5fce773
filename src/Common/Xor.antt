-- ===== src/Common/Xor.antt =====
-- Laws of `^` at every width, from the recursion on binary digits that the operation stands for.
use Prim.Native.Nat.{
  ℕ, zero, suc, ◌+◌, ◌*◌, ◌/◌, ◌%◌, ◌^◌, ◌≤◌, ◌<◌, bit_xor, bit_xor-bitwise, digits, bitwise,
  differ,
}
use mathlib.Core.Path.{◌≡◌, refl, sym, ap, ◌∙◌}
use native.Mathlib.Nat.{le_refl, pow-suc}
use native.Mathlib.Omega.{arith}

-- The recursion that `^` stands for, with its fuel.
abbrev xor_digits : ℕ → ℕ → ℕ → ℕ
xor_digits fuel x y = digits (λ d. d) differ fuel x y

-- Fuel beyond the first operand changes nothing.
same_digits : (x y fuel more : ℕ) → x ≤ more → x ≤ fuel → xor_digits fuel x y ≡ xor_digits more x y
same_digits (suc x) y fuel zero h l = absurd (omega arith)
same_digits (suc x) y zero (suc more) h l = absurd (omega arith)
same_digits zero y (suc fuel) (suc more) h l = refl
same_digits zero y (suc fuel) zero h l = refl
same_digits zero y zero (suc more) h l = refl
same_digits zero y zero zero h l = refl
same_digits (suc x) y (suc fuel) (suc more) h l =
    let halves = same_digits (suc x / 2) (y / 2) fuel more (omega arith) (omega arith) in rw halves

xor_digits-suc :
    (x y : ℕ)
    → bitwise (λ d. d) differ (suc x) y
      ≡ bitwise (λ d. d) differ (suc x / 2) (y / 2) * 2 + differ (suc x % 2) (y % 2)
xor_digits-suc x y =
    let h : suc x / 2 ≤ x = omega arith in
    omega (arith, same_digits (suc x / 2) (y / 2) x (suc x / 2) (omega arith) h)

-- The lowest digit, written with `+` and `%`, which `omega` reads.
differ-lem : (x y : ℕ) → x < 2 → y < 2 → differ x y ≡ (x + y) % 2
differ-lem zero zero p q = refl
differ-lem zero (suc zero) p q = refl
differ-lem (suc zero) zero p q = refl
differ-lem (suc zero) (suc zero) p q = refl
differ-lem zero (suc (suc y)) p q = absurd (omega arith)
differ-lem (suc zero) (suc (suc y)) p q = absurd (omega arith)
differ-lem (suc (suc x)) y p q = absurd (omega arith)

pub zero-xor : (b : ℕ) → bit_xor 0 b ≡ b
zero-xor b = bit_xor-bitwise 0 b

step_differ : (a b : ℕ) → bit_xor a b ≡ bit_xor (a / 2) (b / 2) * 2 + differ (a % 2) (b % 2)
step_differ zero b = simp bit_xor-bitwise (omega arith)
step_differ (suc a) b = simp bit_xor-bitwise (xor_digits-suc a b)

pub xor_step : (a b : ℕ) → bit_xor a b ≡ bit_xor (a / 2) (b / 2) * 2 + (a % 2 + b % 2) % 2
xor_step a b =
    omega (arith, step_differ a b, differ-lem (a % 2) (b % 2) (omega arith) (omega arith))

-- A number is settled by its half and its lowest digit.
eq_of_digits : (a b : ℕ) → a / 2 ≡ b / 2 → a % 2 ≡ b % 2 → a ≡ b
eq_of_digits a b h l = omega arith

half_xor : (a b : ℕ) → bit_xor a b / 2 ≡ bit_xor (a / 2) (b / 2)
half_xor a b = omega (arith, xor_step a b)

low_xor : (a b : ℕ) → bit_xor a b % 2 ≡ (a % 2 + b % 2) % 2
low_xor a b = omega (arith, xor_step a b)

-- Below, `k` counts the digits that remain: `a < 2 ^ k` is replaced by recursion on a bound.
comm_fuel : (k a b : ℕ) → a + b ≤ k → bit_xor a b ≡ bit_xor b a
comm_fuel zero a b h = let ea : a ≡ 0 = omega arith in let eb : b ≡ 0 = omega arith in rw (ea, eb)
comm_fuel (suc k) zero zero h = refl
comm_fuel (suc k) zero (suc b) h =
    omega (arith, xor_step 0 (suc b), xor_step (suc b) 0, comm_fuel k 0 (suc b / 2) (omega arith))
comm_fuel (suc k) (suc a) b h =
    omega
      (arith, xor_step (suc a) b, xor_step b (suc a), comm_fuel k (suc a / 2) (b / 2) (omega arith))

pub xor_comm : (a b : ℕ) → bit_xor a b ≡ bit_xor b a
xor_comm a b = comm_fuel (a + b) a b (le_refl _)

assoc_fuel : (k a b c : ℕ) → a ≤ k → bit_xor (bit_xor a b) c ≡ bit_xor a (bit_xor b c)
assoc_fuel k zero b c h = rw (zero-xor b, zero-xor (bit_xor b c))
assoc_fuel zero (suc a) b c h = absurd (omega arith)
assoc_fuel (suc k) (suc a) b c h =
    eq_of_digits _ _
      (half_xor (bit_xor (suc a) b) c
        ∙ ap (λ t. bit_xor t (c / 2)) (half_xor (suc a) b)
        ∙ assoc_fuel k (suc a / 2) (b / 2) (c / 2) (omega arith)
        ∙ sym (ap (λ t. bit_xor (suc a / 2) t) (half_xor b c))
        ∙ sym (half_xor (suc a) (bit_xor b c)))
      (omega (
        arith,
        low_xor (bit_xor (suc a) b) c,
        low_xor (suc a) b,
        low_xor (suc a) (bit_xor b c),
        low_xor b c,
      ))

pub xor_assoc : (a b c : ℕ) → bit_xor (bit_xor a b) c ≡ bit_xor a (bit_xor b c)
xor_assoc a b c = assoc_fuel a a b c (le_refl _)

self_fuel : (k a : ℕ) → a ≤ k → bit_xor a a ≡ 0
self_fuel k zero h = refl
self_fuel zero (suc a) h = absurd (omega arith)
self_fuel (suc k) (suc a) h =
    omega (arith, xor_step (suc a) (suc a), self_fuel k (suc a / 2) (omega arith))

pub xor_self : (a : ℕ) → bit_xor a a ≡ 0
xor_self a = self_fuel a a (le_refl _)

-- An operand is recovered by a second `^`.
pub xor_cancel : (a b : ℕ) → bit_xor a (bit_xor a b) ≡ b
xor_cancel a b = sym (xor_assoc a a b) ∙ ap (λ t. bit_xor t b) (xor_self a) ∙ zero-xor b

pub xor_left_injective : (a b c : ℕ) → bit_xor a b ≡ bit_xor a c → b ≡ c
xor_left_injective a b c h = sym (xor_cancel a b) ∙ ap (λ t. bit_xor a t) h ∙ xor_cancel a c

pub xor_right_injective : (a b c : ℕ) → bit_xor b a ≡ bit_xor c a → b ≡ c
xor_right_injective a b c h = xor_left_injective a b c (xor_comm a b ∙ h ∙ xor_comm c a)

pub xor-lt-pow : (k a b : ℕ) → a < 2 ^ k → b < 2 ^ k → bit_xor a b < 2 ^ k
xor-lt-pow zero a b p q =
    let ea : a ≡ 0 = omega arith in let eb : b ≡ 0 = omega arith in rw (ea, eb) (omega arith)
xor-lt-pow (suc k) a b p q = omega (
  arith,
  xor_step a b,
  pow-suc 2 k,
  xor-lt-pow k (a / 2) (b / 2) (omega (arith, pow-suc 2 k)) (omega (arith, pow-suc 2 k)),
)

-- `^` of two bytes is a byte.
pub xor-lt : (a b : ℕ) → a < 256 → b < 256 → bit_xor a b < 256
xor-lt a b p q = xor-lt-pow 8 a b p q
