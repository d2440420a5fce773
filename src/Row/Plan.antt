-- ===== src/Row/Plan.antt =====
-- firmware/v2/shared/ReflashPlan.h: which units a reflash job is for, and the two values of its
-- request. The facts of a row are a list, the first one at the address `base`; a C string is the
-- list of its characters, and a null pointer `none`.
use split_flap.Common.{
  ℕ, ◌+◌, ◌-◌, ◌*◌, ◌/◌, ◌%◌, ◌≤◌, ◌<◌, ◌≡◌, ◌↔◌, Option, none, some, List, [], ◌∷◌, Bool, true,
  false, not, ◌&&◌, ◌||◌, ◌==◌, ◌!=◌, ltb, leb, if◌then◌else◌, u8, arith, length, if_both,
}
use split_flap.Wire.Contract.{protocol_supported}

-- The fields of UnitFacts that a plan reads.
pub record UnitFacts : Type 0 where
  pub state : ℕ
  pub fw_status : ℕ
  pub protocol_known : Bool
  pub protocol_version : ℕ

unfoldable pub protocol_mismatch : UnitFacts → Bool
protocol_mismatch u = u.protocol_known && not (protocol_supported u.protocol_version)

unfoldable pub needs_reboot : UnitFacts → Bool
unfolding protocol_mismatch
needs_reboot u = u.state == 1 && (u.fw_status != 0 || protocol_mismatch u)

-- `facts[i].state == 1 && (facts[i].fwStatus == 1 || …)`
unfoldable pub is_outdated : UnitFacts → Bool
unfolding protocol_mismatch
is_outdated u = u.state == 1 && (u.fw_status == 1 || protocol_mismatch u)

-- The loops of the collectors: the addresses at which `test` holds, from the address `at` on.
unfoldable pub collect : (ℕ → UnitFacts → Bool) → ℕ → List UnitFacts → List ℕ
collect test at [] = []
collect test at (u ∷ facts) =
    let rest = collect test (at + 1) facts in if test (u8 at) u then u8 at ∷ rest else rest

unfoldable pub collect_reboot_targets : List UnitFacts → ℕ → List ℕ
unfolding collect needs_reboot
collect_reboot_targets facts base = collect (λ addr u. needs_reboot u) base facts

unfoldable pub collect_outdated_targets : List UnitFacts → ℕ → List ℕ
unfolding collect is_outdated
collect_outdated_targets facts base = collect (λ addr u. is_outdated u) base facts

unfoldable pub collect_flash_targets : List UnitFacts → ℕ → List ℕ
unfolding collect
collect_flash_targets facts base = collect (λ addr u. u.state == 2) base facts

-- Whether `addr` is among the addresses.
unfoldable pub among : List ℕ → ℕ → Bool
among [] addr = false
among (x ∷ addrs) addr = x == addr || among addrs addr

unfoldable pub plan_targets : List UnitFacts → ℕ → List ℕ → List ℕ
unfolding collect among
plan_targets facts base sweep = collect (λ addr u. u.state == 2 || among sweep addr) base facts

unfoldable pub filter_to_address : List ℕ → ℕ → List ℕ
unfolding among
filter_to_address addrs only =
    if only == 0 then addrs else if among addrs only then only ∷ [] else []

unfoldable pub collect_forced_target : ℕ → ℕ → ℕ → List ℕ
collect_forced_target max_units base only =
    if ltb only base || leb (base + max_units) only then [] else only ∷ []

-- `strcmp(a, b) == 0`
unfoldable pub same_string : List ℕ → List ℕ → Bool
same_string [] [] = true
same_string (x ∷ xs) (y ∷ ys) = x == y && same_string xs ys
same_string _ _ = false

-- "1", "true", "0" and "false"
unfoldable pub parse_force : Option (List ℕ) → Option Bool
unfolding same_string
parse_force none = none
parse_force (some raw) =
    if same_string raw (0x31 ∷ []) || same_string raw (0x74 ∷ 0x72 ∷ 0x75 ∷ 0x65 ∷ [])
    then some true
    else if same_string raw (0x30 ∷ []) || same_string raw (0x66 ∷ 0x61 ∷ 0x6c ∷ 0x73 ∷ 0x65 ∷ [])
    then some false
    else none

unfoldable pub address_in_range : ℕ → ℕ → ℕ → Bool
address_in_range addr base max_units = leb base addr && ltb addr (base + max_units)

-- The loop over the characters, from the `n`-th on.
unfoldable pub parse_digits : ℕ → ℕ → List ℕ → Option ℕ
parse_digits n v [] = some v
parse_digits n v (c ∷ raw) =
    let rest = parse_digits (n + 1) (v * 10 + (c - 0x30)) raw in
    if ltb c 0x30 || ltb 0x39 c || leb 3 n then none else rest

unfoldable pub parse_address : Option (List ℕ) → Option ℕ
unfolding parse_digits
parse_address none = none
parse_address (some []) = none
parse_address (some (c ∷ [])) = parse_digits 0 0 (c ∷ [])
parse_address (some (c ∷ d ∷ raw)) =
    let v = parse_digits 0 0 (c ∷ d ∷ raw) in if c == 0x30 then none else v

-- A number below 1000 in decimal.
abbrev pub decimal : ℕ → List ℕ
decimal v =
    if ltb v 10
    then (v + 0x30) ∷ []
    else if ltb v 100
    then (v / 10 + 0x30) ∷ (v % 10 + 0x30) ∷ []
    else (v / 100 + 0x30) ∷ (v / 10 % 10 + 0x30) ∷ (v % 10 + 0x30) ∷ []

-- A string is read as the address `v` exactly when it is `v`, below 1000, in decimal: no sign, no
-- leading zero, nothing behind it.
pub parse_address_iff :
    (raw : List ℕ) (v : ℕ) → (parse_address (some raw) ≡ some v) ↔ ((v < 1000) × (raw ≡ decimal v))
unfolding parse_address parse_digits
parse_address_iff [] v = ground arith
parse_address_iff (a ∷ []) v = ground arith
parse_address_iff (a ∷ b ∷ []) v = ground arith
parse_address_iff (a ∷ b ∷ c ∷ []) v = ground arith
parse_address_iff (a ∷ b ∷ c ∷ d ∷ raw) v = ground arith

-- Strictly ascending addresses from `lo` up to below `hi`.
abbrev pub Ascending : ℕ → ℕ → List ℕ → Type 0
Ascending lo hi [] = Unit
Ascending lo hi (x ∷ xs) = (lo ≤ x) × (x < hi) × Ascending (x + 1) hi xs

Ascending-from : (lo at hi : ℕ) (xs : List ℕ) → lo ≤ at → Ascending at hi xs → Ascending lo hi xs
Ascending-from lo at hi [] h p = tt
Ascending-from lo at hi (x ∷ xs) h p = (omega (arith, p.0), p.1, p.2)

collect-Ascending :
    (test : ℕ → UnitFacts → Bool) (at hi : ℕ) (facts : List UnitFacts)
    → at + length facts ≤ hi
    → hi ≤ 256
    → Ascending at hi (collect test at facts)
unfolding collect
collect-Ascending test at hi [] h w = tt
collect-Ascending test at hi (u ∷ facts) h w =
    let rest = collect test (at + 1) facts in
    let behind = collect-Ascending test (at + 1) hi facts (omega arith) w in
    let e : u8 at ≡ at = omega arith in
    if_both (Ascending at hi) (test (u8 at) u) (u8 at ∷ rest) rest
      (rw e (omega arith, omega arith, behind))
      (Ascending-from at (at + 1) hi rest (omega arith) behind)

-- The plan of a job over a row whose addresses fit a byte is in strictly ascending order of
-- address, so that no unit is in it twice, and within the row.
plan_targets-Ascending :
    (facts : List UnitFacts) (base : ℕ) (sweep : List ℕ)
    → base + length facts ≤ 256
    → Ascending base (base + length facts) (plan_targets facts base sweep)
unfolding plan_targets
plan_targets-Ascending facts base sweep h =
    collect-Ascending (λ addr u. u.state == 2 || among sweep addr) base (base + length facts) facts
      (omega arith) h
