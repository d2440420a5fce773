-- ===== src/Row/Motion/Cap.antt =====
-- firmware/v2/shared/MotionBudget.h: the cap between its bounds, and the radio's quiet.
use split_flap.Common.{
  ℕ, ◌+◌, ◌<◌, ◌≤◌, ◌≡◌, refl, sym, ap, ◌∙◌, List, [], ◌∷◌, ◌++◌, Bool, true, false, not, ◌&&◌,
  ◌||◌, if◌then◌else◌, if_both, Bool-cases, inl, inr, ◌⊎◌, length, length-set, u32, arith,
}
use split_flap.Row.Motion.{
  budget_max, budget_min, units_max, restore_ms, radio_settle_ms, Budget, observe_vmin, budget_tick,
  budget_fold, RadioGate, radio_observe, radio_quiet,
}

pub record IsBudget (b : Budget) : Type 0 where
  pub at_least : budget_min ≤ b.cap
  pub at_most : b.cap ≤ budget_max
  pub counted : b.sag_events < 65536
  pub whole : length b.last_vmin ≡ units_max

observe_vmin-IsBudget :
    (b : Budget) (unit_index vmin now : ℕ)
    → IsBudget b
    → IsBudget (observe_vmin b unit_index vmin now).1
unfolding observe_vmin
observe_vmin-IsBudget b unit_index vmin now p =
    let l = length-set b.last_vmin unit_index vmin in
    record {
      at_least = ground (arith, p.at_least);
      at_most = ground (arith, p.at_most);
      counted = ground (arith, p.counted);
      whole = ground (arith, p.whole, l);
    }

budget_tick-IsBudget : (b : Budget) (now : ℕ) → IsBudget b → IsBudget (budget_tick b now).1
unfolding budget_tick
budget_tick-IsBudget b now p = record {
  at_least = ground (arith, p.at_least);
  at_most = ground (arith, p.at_most);
  counted = ground (arith, p.counted);
  whole = ground (arith, p.whole);
}

-- What a fold of a unit's facts meets, at the milliseconds since boot.
pub record Fold : Type 0 where
  pub at : ℕ
  pub unit_index : ℕ
  pub vitals_valid : Bool
  pub vmin : ℕ

abbrev pub fold_all : List Fold → Budget → Budget
fold_all [] b = b
fold_all (f ∷ fs) b = fold_all fs (budget_fold b f.unit_index f.vitals_valid f.vmin (u32 f.at)).1

budget_fold-IsBudget :
    (b : Budget) (unit_index : ℕ) (valid : Bool) (vmin now : ℕ)
    → IsBudget b
    → IsBudget (budget_fold b unit_index valid vmin now).1
unfolding budget_fold
budget_fold-IsBudget b unit_index valid vmin now p =
    let c = observe_vmin b unit_index vmin now in
    let q = observe_vmin-IsBudget b unit_index vmin now p in
    let d = if valid then c.1 else b in
    let d_ok = if_both IsBudget valid c.1 b q p in
    if_both (λ (r : Bool × Budget). IsBudget r.1) (valid && c.0) (true, d) (budget_tick d now) d_ok
      (budget_tick-IsBudget d now d_ok)

-- Whatever the units report and however the clock runs, the cap stays between 1 and 4.
fold_all-IsBudget : (fs : List Fold) (b : Budget) → IsBudget b → IsBudget (fold_all fs b)
fold_all-IsBudget [] b p = p
fold_all-IsBudget (f ∷ fs) b p =
    fold_all-IsBudget fs _ (budget_fold-IsBudget b f.unit_index f.vitals_valid f.vmin (u32 f.at) p)

-- Folds from `t` on, in the order of time, before `end`.
abbrev pub Within : ℕ → ℕ → List Fold → Type 0
Within t end [] = Unit
Within t end (f ∷ fs) = (t ≤ f.at) × (f.at < end) × Within f.at end fs

-- The cap and the time of its last change.
record Changed (t : ℕ) (cap : ℕ) (b : Budget) : Type 0 where
  pub changed : b.last_change ≡ u32 t
  pub below : b.cap ≤ cap

budget_fold-Changed :
    (t : ℕ) (f : Fold) (b : Budget)
    → t ≤ f.at
    → f.at < t + restore_ms
    → b.last_change ≡ u32 t
    → IsBudget b
    → let c = (budget_fold b f.unit_index f.vitals_valid f.vmin (u32 f.at)).1 in
      (c.cap ≤ b.cap) × ((c.last_change ≡ u32 t) ⊎ (c.last_change ≡ u32 f.at))
unfolding budget_fold observe_vmin budget_tick
budget_fold-Changed t f b l m e p = (ground (arith, e, p.at_least), ground (arith, e))

sooner-Within : (s t end : ℕ) (fs : List Fold) → s ≤ t → Within t end fs → Within s end fs
sooner-Within s t end [] h w = tt
sooner-Within s t end (f ∷ fs) h (l, m, w) = (omega arith, m, w)

no_rise :
    (t end : ℕ) (fs : List Fold) (b : Budget)
    → IsBudget b
    → b.last_change ≡ u32 t
    → end ≤ t + restore_ms
    → Within t end fs
    → (fold_all fs b).cap ≤ b.cap
no_rise t end [] b p e h w = omega arith
no_rise t end (f ∷ fs) b p e h (l, m, w) =
    let c = (budget_fold b f.unit_index f.vitals_valid f.vmin (u32 f.at)).1 in
    let q = budget_fold-IsBudget b f.unit_index f.vitals_valid f.vmin (u32 f.at) p in
    let (lower, change) = budget_fold-Changed t f b l (omega arith) e p in
    let rest : (fold_all fs c).cap ≤ c.cap = elim change [
      | inl same ↦ no_rise t end fs c q same h (sooner-Within t f.at end fs l w)
      | inr now ↦ no_rise f.at end fs c q now (omega arith) w
    ] in
    omega (arith, lower, rest)

-- From a change of the cap on, no fold of the next ten minutes raises it, whatever the units
-- report.
fold_all-no_rise :
    (t : ℕ) (fs : List Fold) (b : Budget)
    → IsBudget b
    → b.last_change ≡ u32 t
    → Within t (t + restore_ms) fs
    → (fold_all fs b).cap ≤ b.cap
fold_all-no_rise t fs b p e w = no_rise t (t + restore_ms) fs b p e (omega arith) w

-- What the gate is told of the radio, at the milliseconds since boot.
pub record RadioSample : Type 0 where
  pub at : ℕ
  pub radio_busy : Bool

abbrev pub observe_all : List RadioSample → RadioGate → RadioGate
observe_all [] g = g
observe_all (x ∷ xs) g = observe_all xs (radio_observe g x.radio_busy (u32 x.at))

-- Samples from `t` to `end` in the order of time.
abbrev pub Between : ℕ → ℕ → List RadioSample → Type 0
Between t end [] = t ≤ end
Between t end (x ∷ xs) = (t ≤ x.at) × Between x.at end xs

-- The gate is held, or the radio went quiet at a time from `from` to `t`.
HeldSince : ℕ → ℕ → RadioGate → Type 0
HeldSince from t g =
    (g.busy ≡ false
      → (g.resolved ≡ true)
      → (since : ℕ) × (from ≤ since) × (since ≤ t) × (g.quiet_since ≡ u32 since))

radio_observe-HeldSince :
    (from t : ℕ) (x : RadioSample) (g : RadioGate)
    → from ≤ t
    → t ≤ x.at
    → HeldSince from t g
    → HeldSince from x.at (radio_observe g x.radio_busy (u32 x.at))
unfolding HeldSince radio_observe
radio_observe-HeldSince from t x g h l p quiet known =
    elim (Bool-cases (g.busy || not g.resolved)) [
      | inl e ↦ (x.at, omega arith, omega arith, ground (arith, e))
      | inr e ↦
          let (since, a, b, q) = p (ground (arith, e)) (ground (arith, e)) in
          (since, a, omega arith, ground (arith, q, e))
    ]

observe_all-HeldSince :
    (from t end : ℕ) (xs : List RadioSample) (g : RadioGate)
    → from ≤ t
    → Between t end xs
    → HeldSince from t g
    → HeldSince from end (observe_all xs g)
unfolding HeldSince
observe_all-HeldSince from t end [] g h b p quiet known =
    let (since, a, c, q) = p quiet known in (since, a, omega arith, q)
observe_all-HeldSince from t end (x ∷ xs) g h (l, b) p quiet known =
    observe_all-HeldSince from x.at end xs _ (omega arith) b
      (radio_observe-HeldSince from t x g h l p) quiet known

observe_all-append :
    (xs ys : List RadioSample) (g : RadioGate)
    → observe_all (xs ++ ys) g ≡ observe_all ys (observe_all xs g)
observe_all-append [] ys g = refl
observe_all-append (x ∷ xs) ys g = observe_all-append xs ys _

-- A gate that is told of a busy radio at `t`, whatever it was told before, does not read as quiet
-- before `t + 2000`, whatever it is told from then on, those samples being in the order of time and
-- the wrap of the clock included.
pub radio_quiet-settled :
    (before after : List RadioSample) (t end : ℕ) (g : RadioGate)
    → Between t end after
    → radio_quiet (observe_all (before ++ record { at = t; radio_busy = true } ∷ after) g) (u32 end)
      ≡ true
    → t + radio_settle_ms ≤ end
unfolding HeldSince radio_quiet radio_observe
radio_quiet-settled before after t end g b open_ =
    let seen : RadioSample = record { at = t; radio_busy = true } in
    let held = radio_observe (observe_all before g) true (u32 t) in
    let u = observe_all after held in
    let open' : radio_quiet u (u32 end) ≡ true =
      ap (λ v. radio_quiet v (u32 end)) (sym (observe_all-append before (seen ∷ after) g))
      ∙ open_ in
    let p =
      observe_all-HeldSince t t end after held (omega arith) b
        (λ quiet known. absurd (ground (arith, quiet))) in
    let (since, a, c, q) = p (ground (arith, open')) (ground (arith, open')) in
    ground (arith, q, open')
