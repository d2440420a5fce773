-- ===== src/Unit/Drift/Reckoning.antt =====
-- The dead reckoning of UnitDrift.h: what `driftAdvance` makes of any sequence of moves.
use split_flap.Common.{
  ℕ, zero, suc, ◌+◌, ◌-◌, ◌*◌, ◌/◌, ◌%◌, ◌≤◌, ◌<◌, ◌≡◌, ◌⊎◌, inl, inr, refl, sym, ap, ◌∙◌, List, [],
  ◌∷◌, ltb, leb, if◌then◌else◌, Bool-cases, u16, arith,
}
use split_flap.Common.Int.{ℤ, pos, negsuc, pos_part, neg_part, sub_ℕ, ◌+ℤ◌}
use split_flap.Unit.Drift.{DriftState, lift, wrap, advance}
use native.Mathlib.Nat.{mod-lt, mod-add-mod, div-add-mod', add-mul-mod_self_right, add-mod_right}

-- What the lift of a negative remainder is.
lifted :
    (r spr : ℕ)
    → r < spr
    → let w = lift (if ltb 0 r then negsuc (r - 1) else pos 0) spr in
      (w < spr) × ((r ≡ 0) × (w ≡ 0) ⊎ (w + r ≡ spr))
unfolding lift
lifted zero spr h = (h, inl (refl, refl))
lifted (suc r) spr h = ground arith

-- A negative position comes to lie in a revolution, a whole number of them higher.
wrap_negative :
    (n x spr : ℕ)
    → 0 < spr
    → (wrap (negsuc n) spr < spr) × ((wrap (negsuc n) spr + (x + suc n)) % spr ≡ x % spr)
unfolding wrap
wrap_negative n x spr h =
    let w = lift (if ltb 0 (suc n % spr) then negsuc (suc n % spr - 1) else pos 0) spr in
    let k = suc n / spr * spr in
    let (small, cases) = lifted (suc n % spr) spr (mod-lt (suc n) h) in
    let whole : (x + k) % spr ≡ x % spr = add-mul-mod_self_right x (suc n / spr) spr in
    (
      small,
      elim cases [
        | inl (r, z) ↦
            let e : w + (x + suc n) ≡ x + k = omega (arith, div-add-mod' (suc n) spr, r, z) in
            rw e whole
        | inr up ↦
            let e : w + (x + suc n) ≡ x + k + spr = omega (arith, div-add-mod' (suc n) spr, up) in
            rw e (add-mod_right (x + k) spr ∙ whole)
      ],
    )

-- `wrap` of a difference.
wrap_sub :
    (x y spr : ℕ)
    → 0 < spr
    → (wrap (sub_ℕ x y) spr < spr) × ((wrap (sub_ℕ x y) spr + y) % spr ≡ x % spr)
wrap_sub x y spr h = elim (Bool-cases (leb y x)) [
  | inl le ↦
      let e : sub_ℕ x y ≡ pos (x - y) =
        ap (λ b. if b then pos (x - y) else negsuc (y - x - 1)) le in
      let s : x - y + y ≡ x = ground arith in
      rw e (
        (unfold wrap lift in mod-lt (x - y) h),
        (unfold wrap lift in mod-add-mod (x - y) spr y ∙ ap (λ t. t % spr) s),
      )
  | inr gt ↦
      let e : sub_ℕ x y ≡ negsuc (y - x - 1) =
        ap (λ b. if b then pos (x - y) else negsuc (y - x - 1)) gt in
      let d : x + suc (y - x - 1) ≡ y = ground arith in
      let (small, same) = wrap_negative (y - x - 1) x spr h in rw e (small, (rw d at same))
]

-- `driftAdvance` over the moves of a unit, in order.
unfoldable pub advance_moves : DriftState → List ℤ → ℕ → DriftState
advance_moves s [] spr = s
advance_moves s (m ∷ ms) spr = advance_moves (advance s m spr) ms spr

-- The steps ahead and the steps back.
abbrev pub ahead : List ℤ → ℕ
ahead [] = 0
ahead (m ∷ ms) = pos_part m + ahead ms

abbrev pub back : List ℤ → ℕ
back [] = 0
back (m ∷ ms) = neg_part m + back ms

-- One move.
advance_lem :
    (s : DriftState) (m : ℤ) (spr : ℕ)
    → 0 < spr
    → spr ≤ 65536
    → ((advance s m spr).drum_position < spr)
      × (((advance s m spr).drum_position + neg_part m) % spr
          ≡ (s.drum_position + pos_part m) % spr)
unfolding advance ◌+ℤ◌
advance_lem s m spr h fits =
    let (small, same) = wrap_sub (s.drum_position + pos_part m) (0 + neg_part m) spr h in
    let w : ℕ = wrap (sub_ℕ (s.drum_position + pos_part m) (0 + neg_part m)) spr in
    let e : u16 w ≡ w = omega (arith, small) in
    let z : 0 + neg_part m ≡ neg_part m = omega arith in
    rw e (small, ap (λ n. (w + n) % spr) (sym z) ∙ same)

-- A sum that goes on under `%`.
add-mod_cong : (a b c spr : ℕ) → a % spr ≡ b % spr → (a + c) % spr ≡ (b + c) % spr
add-mod_cong a b c spr e =
    sym (mod-add-mod a spr c) ∙ ap (λ t. (t + c) % spr) e ∙ mod-add-mod b spr c

-- Whatever moves a drum makes, in either direction and over any number of revolutions, its tracked
-- position stays within a revolution and differs from the start by the steps ahead less the steps
-- back, modulo a revolution.
pub advance_moves_lem :
    (s : DriftState) (ms : List ℤ) (spr : ℕ)
    → 0 < spr
    → spr ≤ 65536
    → s.drum_position < spr
    → let t = advance_moves s ms spr in
      (t.drum_position < spr)
      × ((t.drum_position + back ms) % spr ≡ (s.drum_position + ahead ms) % spr)
unfolding advance_moves
advance_moves_lem s [] spr h fits low = (low, refl)
advance_moves_lem s (m ∷ ms) spr h fits low =
    let s1 = advance s m spr in
    let (low1, one) = advance_lem s m spr h fits in
    let (small, rest) = advance_moves_lem s1 ms spr h fits low1 in
    let t = (advance_moves s1 ms spr).drum_position in
    let e1 : t + (neg_part m + back ms) ≡ t + back ms + neg_part m = omega arith in
    let e2 : s1.drum_position + ahead ms + neg_part m ≡ s1.drum_position + neg_part m + ahead ms =
      omega arith in
    let e3 : s.drum_position + pos_part m + ahead ms ≡ s.drum_position + (pos_part m + ahead ms) =
      omega arith in
    (
      small,
      ap (λ n. n % spr) e1
          ∙ add-mod_cong (t + back ms) (s1.drum_position + ahead ms) (neg_part m) spr rest
          ∙ ap (λ n. n % spr) e2
          ∙ add-mod_cong (s1.drum_position + neg_part m) (s.drum_position + pos_part m) (ahead ms)
              spr one
          ∙ ap (λ n. n % spr) e3,
    )
