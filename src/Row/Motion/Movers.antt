-- ===== src/Row/Motion/Movers.antt =====
-- firmware/v2/shared/MotionBudget.h: the tracker as the list of the units that move, and its bound.
use split_flap.Common.{
  ℕ, zero, suc, ◌+◌, ◌-◌, ◌<◌, ◌≤◌, ◌≡◌, refl, ap, ◌∙◌, List, [], ◌∷◌, ◌++◌, Bool, true, false,
  ◌&&◌, ltb, leb, if◌then◌else◌, if_both, if_known, Bool-cases, inl, inr, length, length-set,
  get_or, set, take, arith, sub32,
}
use split_flap.Row.Motion.{
  budget_max, Slot, no_slot, Tracker, tracker_full, tracker_add, shift_down, tracker_remove,
  is_moving, Reply, tracker_observe, Poll,
}

-- The slots in use.
abbrev pub movers : Tracker → List Slot
movers t = take t.count t.slots

unfoldable pub delete : ℕ → List Slot → List Slot
delete k [] = []
delete zero (x ∷ xs) = xs
delete (suc k) (x ∷ xs) = x ∷ delete k xs

front_both :
    (b : Bool) (x : Slot) (xs ys zs : List Slot)
    → ys ≡ x ∷ zs
    → (if b then ys else x ∷ xs) ≡ x ∷ (if b then zs else xs)
front_both true x xs ys zs e = e
front_both false x xs ys zs e = refl

-- The loop on a list with one more slot in front.
shift_down-front :
    (fuel j c : ℕ) (x : Slot) (xs : List Slot)
    → shift_down fuel (suc j) (suc c) (x ∷ xs) ≡ x ∷ shift_down fuel j c xs
unfolding shift_down
shift_down-front zero j c x xs = refl
shift_down-front (suc fuel) j c x xs =
    let test : ltb (suc (suc j)) (suc c) ≡ ltb (suc j) c = ground arith in
    let ys = set xs j (get_or xs (suc j) no_slot) in
    rw test (
      front_both (ltb (suc j) c) x xs _ (shift_down fuel (suc j) c ys)
        (shift_down-front fuel (suc j) c x ys))

-- The loop from slot 0 on.
shift_down-take :
    (fuel c : ℕ) (x : Slot) (xs : List Slot)
    → c ≤ fuel
    → c ≤ length xs
    → take c (shift_down fuel 0 (suc c) (x ∷ xs)) ≡ take c xs
unfolding shift_down
shift_down-take fuel zero x xs h l = refl
shift_down-take zero (suc c) x xs h l = absurd (omega arith)
shift_down-take (suc fuel) (suc c) x [] h l = absurd (omega arith)
shift_down-take (suc fuel) (suc c) x (y ∷ ys) h l =
    let test : ltb 1 (suc (suc c)) ≡ true = ground arith in
    rw test (
      ap (take (suc c)) (shift_down-front fuel 0 (suc c) y (y ∷ ys))
      ∙ ap (λ zs. y ∷ zs) (shift_down-take fuel c y ys (omega arith) (omega arith)))

remove_lem :
    (fuel k c : ℕ) (xs : List Slot)
    → k < c
    → c ≤ fuel + 1
    → c ≤ length xs
    → take (c - 1) (shift_down fuel k c xs) ≡ delete k (take c xs)
unfolding delete
remove_lem fuel k zero xs h f l = absurd (omega arith)
remove_lem fuel k (suc c) [] h f l = absurd (omega arith)
remove_lem fuel zero (suc c) (x ∷ xs) h f l =
    let e : suc c - 1 ≡ c = omega arith in
    rw e (shift_down-take fuel c x xs (omega arith) (omega arith))
remove_lem fuel (suc k) (suc zero) (x ∷ xs) h f l = absurd (omega arith)
remove_lem fuel (suc k) (suc (suc c)) (x ∷ xs) h f l =
    let e : suc (suc c) - 1 ≡ suc (suc c - 1) = omega arith in
    rw e (
      ap (take (suc (suc c - 1))) (shift_down-front fuel k (suc c) x xs)
      ∙ ap (λ zs. x ∷ zs) (remove_lem fuel k (suc c) xs (omega arith) (omega arith) (omega arith)))

length-shift_down : (fuel j c : ℕ) (xs : List Slot) → length (shift_down fuel j c xs) ≡ length xs
unfolding shift_down
length-shift_down zero j c xs = refl
length-shift_down (suc fuel) j c xs =
    let ys = set xs j (get_or xs (suc j) no_slot) in
    if_both (λ (zs : List Slot). length zs ≡ length xs) (ltb (suc j) c) _ xs
      (length-shift_down fuel (suc j) c ys ∙ length-set xs j _) refl

-- A tracker that fits its arrays.
pub record IsTracker (t : Tracker) : Type 0 where
  pub whole : length t.slots ≡ budget_max
  pub bounded : t.count ≤ budget_max

tracker_remove-IsTracker :
    (t : Tracker) (k : ℕ) → k < t.count → IsTracker t → IsTracker (tracker_remove t k)
unfolding tracker_remove
tracker_remove-IsTracker t k h p = record {
  whole = length-shift_down t.count k t.count t.slots ∙ p.whole;
  bounded = omega (arith, p.bounded);
}

movers-remove :
    (t : Tracker) (k : ℕ)
    → k < t.count
    → IsTracker t
    → movers (tracker_remove t k) ≡ delete k (movers t)
unfolding tracker_remove
movers-remove t k h p =
    remove_lem t.count k t.count t.slots h (omega arith) (omega (arith, p.whole, p.bounded))

remove-count : (t : Tracker) (k : ℕ) → (tracker_remove t k).count ≤ t.count
unfolding tracker_remove
remove-count t k = omega arith

-- What an observation does to the list of the units that move.
Observed : Tracker → ℕ → Bool × Tracker → Type 0
Observed t k (retired, u) =
    IsTracker u
    × (movers u ≡ (if retired then delete k (movers t) else movers t))
    × (u.count ≤ t.count)

-- `motionTrackerObserve` keeps the tracker within its arrays, and of the list of the units that
-- move it takes out the `k`-th where it answers that the slot was retired, and nothing where not.
pub tracker_observe-movers :
    (t : Tracker) (k : ℕ) (reply : Reply) (now : ℕ)
    → IsTracker t
    → let (retired, u) = tracker_observe t k reply now in
      IsTracker u
      × (movers u ≡ (if retired then delete k (movers t) else movers t))
      × (u.count ≤ t.count)
unfolding tracker_observe Observed
tracker_observe-movers t k reply now p =
    let stays : Observed t k (false, t) = (p, refl, omega arith) in
    let P = Observed t k in
    if_known P (leb t.count k) (false, t) _ (λ e. stays)
      (λ e.
        let h : k < t.count = ground arith in
        if_both P (ltb (sub32 now (get_or t.slots k no_slot).start) 150) (false, t) _ stays
          (if_both P (is_moving reply && ltb (sub32 now (get_or t.slots k no_slot).start) 20000)
            (false, t) (true, tracker_remove t k) stays
            (tracker_remove-IsTracker t k h p, movers-remove t k h p, remove-count t k)))

take-set :
    (k : ℕ) (xs : List Slot) (x : Slot)
    → k < length xs
    → take (k + 1) (set xs k x) ≡ take k xs ++ x ∷ []
take-set k [] x h = absurd (omega arith)
take-set zero (y ∷ ys) x h = refl
take-set (suc k) (y ∷ ys) x h =
    let e : suc k + 1 ≡ suc (k + 1) = omega arith in
    rw e (ap (λ zs. y ∷ zs) (take-set k ys x (omega arith)))

-- `motionTrackerAdd` keeps the tracker within its arrays, and puts the unit behind the units that
-- move, or where four do changes nothing.
pub tracker_add-movers :
    (t : Tracker) (unit_index now : ℕ)
    → IsTracker t
    → let u = tracker_add t unit_index now in
      IsTracker u
      × (movers u ≡ (
          if leb budget_max t.count
          then movers t
          else movers t ++ record { unit = unit_index; start = now } ∷ []))
unfolding tracker_add
tracker_add-movers t unit_index now p =
    let slot : Slot = record { unit = unit_index; start = now } in
    let added : Tracker = record { slots = set t.slots t.count slot; count = t.count + 1 } in
    elim (Bool-cases (leb budget_max t.count)) [
      | inl e ↦ rw e (p, refl)
      | inr e ↦
          let h : t.count < budget_max = ground (arith, e) in
          let q : IsTracker added = record {
            whole = length-set t.slots t.count slot ∙ p.whole;
            bounded = omega (arith, h);
          } in
          rw e (q, take-set t.count t.slots slot (omega (arith, p.whole, h)))
    ]

module _ {W : Type 0} (poll : Poll W) where
  -- What a wait leaves: a tracker that fits, and where it went through one that is not full.
  Waited : ℕ → Bool × Tracker × W → Type 0
  Waited cap (free, t, w) = IsTracker t × (free ≡ true → tracker_full t cap ≡ false)

  Admitted : ℕ → Bool × Tracker × W → Type 0
  Admitted cap (admitted, u, w) =
      IsTracker u × (admitted ≡ true → u.count ≤ (if ltb cap 1 then 1 else cap))
