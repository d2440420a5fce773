-- ===== src/Unit/Heal/Held.antt =====
-- firmware/v2/Unit/UnitTwiHeal.h: a line that stays held gets its reset, and resets keep their
-- distance.
use split_flap.Common.{
  ℕ, ◌+◌, ◌<◌, ◌≤◌, ◌≡◌, ◌≢◌, ◌∙◌, inl, inr, List, [], ◌∷◌, ◌++◌, Bool, true, false, if◌then◌else◌,
  if_known, Bool-cases, All, arith, u32,
}
use split_flap.Unit.Heal.{
  hold_ms, cooldown_ms, TwiHeal, rested, heal_should_reset, heal_note_reset, Sample, heal_tick,
  heal_resets,
}

-- A held line is known since `since`, and the last reset was made at `r`, on a clock without its
-- wrap.
record Holding (since : ℕ) (s : TwiHeal) : Type 0 where
  pub seen : s.low_seen ≡ true
  pub start : s.low_since ≡ u32 since

-- One pass over a held line.
heal_tick-Holding :
    (since : ℕ) (x : Sample) (s : TwiHeal)
    → x.held ≡ true
    → Holding since s
    → Holding since (heal_tick x s).1
unfolding heal_tick heal_should_reset heal_note_reset
heal_tick-Holding since x s h p = ground (arith, p.seen, p.start)

-- Such a pass resets the bus hardware once the hold and the cooldown are over.
heal_tick-held :
    (since : ℕ) (x : Sample) (s : TwiHeal)
    → x.held ≡ true
    → Holding since s
    → since + hold_ms ≤ x.at
    → x.at < since + 4294967296
    → (heal_tick x s).0 ≡ rested s.ever_reset s.last_reset (u32 x.at)
unfolding heal_tick heal_should_reset
heal_tick-held since x s h p l m = ground (arith, p.seen, p.start)

-- What a pass leaves of the last reset.
heal_tick-reset :
    (x : Sample) (s : TwiHeal)
    → (heal_tick x s).0 ≡ true
    → ((heal_tick x s).1.ever_reset ≡ true)
      × ((heal_tick x s).1.last_reset ≡ u32 x.at)
      × (rested s.ever_reset s.last_reset (u32 x.at) ≡ true)
      × (x.held ≡ true)
unfolding heal_tick heal_should_reset heal_note_reset
heal_tick-reset x s h = ground arith

heal_tick-none :
    (x : Sample) (s : TwiHeal)
    → (heal_tick x s).0 ≡ false
    → ((heal_tick x s).1.ever_reset ≡ s.ever_reset) × ((heal_tick x s).1.last_reset ≡ s.last_reset)
unfolding heal_tick heal_should_reset heal_note_reset
heal_tick-none x s h = ground arith

pub some_reset : (t : ℕ) (ts : List ℕ) (b : Bool) → b ≡ true → (if b then t ∷ ts else ts) ≢ []
some_reset t ts b h = ground arith

pub later_reset : (t : ℕ) (ts : List ℕ) (b : Bool) → ts ≢ [] → (if b then t ∷ ts else ts) ≢ []
later_reset t ts true h = ground arith
later_reset t ts false h = h

first_tick :
    (x : Sample) (s : TwiHeal)
    → s.low_seen ≡ false
    → x.held ≡ true
    → ((heal_tick x s).0 ≡ false) × Holding x.at (heal_tick x s).1
unfolding heal_tick heal_should_reset heal_note_reset
first_tick x s fresh h = (
  ground (arith, fresh, h),
  record { seen = ground (arith, fresh, h); start = ground (arith, fresh, h) },
)

held_on :
    (since : ℕ) (xs : List Sample) (x : Sample) (s : TwiHeal)
    → Holding since s
    → All (λ (y : Sample). y.held ≡ true) xs
    → x.held ≡ true
    → since + hold_ms ≤ x.at
    → x.at < since + 4294967296
    → rested s.ever_reset s.last_reset (u32 x.at) ≡ true
    → heal_resets (xs ++ x ∷ []) s ≢ []
unfolding heal_resets
held_on since [] x s p all h l m r =
    some_reset x.at [] (heal_tick x s).0 (heal_tick-held since x s h p l m ∙ r)
held_on since (y ∷ xs) x s p all h l m r =
    let t = heal_tick y s in
    elim (Bool-cases t.0) [
      | inl e ↦ some_reset y.at (heal_resets (xs ++ x ∷ []) t.1) t.0 e
      | inr e ↦
          let (ever, last) = heal_tick-none y s e in
          let r' : rested t.1.ever_reset t.1.last_reset (u32 x.at) ≡ true = rw ever (rw last r) in
          later_reset y.at _ t.0
            (held_on since xs x t.1 (heal_tick-Holding since y s all.0 p) all.1 h l m r')
    ]

-- A line that every pass from `x` to `z` finds held, `z` coming 50 ms or more after `x` and within
-- 2 ^ 32 ms of it, gets the bus hardware reset by one of them, where the cooldown is over at `z`.
pub held_line-reset :
    (x : Sample) (ys : List Sample) (z : Sample) (s : TwiHeal)
    → s.low_seen ≡ false
    → All (λ (y : Sample). y.held ≡ true) (x ∷ ys)
    → z.held ≡ true
    → x.at + hold_ms ≤ z.at
    → z.at < x.at + 4294967296
    → rested s.ever_reset s.last_reset (u32 z.at) ≡ true
    → heal_resets (x ∷ ys ++ z ∷ []) s ≢ []
unfolding heal_resets
held_line-reset x ys z s fresh all h l m r =
    let t = heal_tick x s in
    let (none_yet, p) = first_tick x s fresh all.0 in
    let (ever, last) = heal_tick-none x s none_yet in
    let r' : rested t.1.ever_reset t.1.last_reset (u32 z.at) ≡ true = rw ever (rw last r) in
    later_reset x.at _ t.0 (held_on x.at ys z t.1 p all.1 h l m r')

-- The times of passes, from `t` on.
abbrev pub Ordered : ℕ → List Sample → Type 0
Ordered t [] = Unit
Ordered t (x ∷ xs) = t ≤ x.at × Ordered x.at xs

-- Resets that come a cooldown or more after `t`, and after each other.
abbrev pub Apart : ℕ → List ℕ → Type 0
Apart t [] = Unit
Apart t (r ∷ rs) = t + cooldown_ms ≤ r × Apart r rs

rested_lem : (r now : ℕ) → r ≤ now → rested true (u32 r) (u32 now) ≡ true → r + cooldown_ms ≤ now
unfolding rested
rested_lem r now h e = ground arith

Apart-heal_resets :
    (r t : ℕ) (xs : List Sample) (s : TwiHeal)
    → r ≤ t
    → Ordered t xs
    → s.ever_reset ≡ true
    → s.last_reset ≡ u32 r
    → Apart r (heal_resets xs s)
unfolding heal_resets
Apart-heal_resets r t [] s h o e l = tt
Apart-heal_resets r t (x ∷ xs) s h o e l =
    let u = heal_tick x s in
    if_known (Apart r) u.0 (x.at ∷ heal_resets xs u.1) (heal_resets xs u.1)
      (λ made.
        let (ever, last, cool, held) = heal_tick-reset x s made in
        let cool' : rested true (u32 r) (u32 x.at) ≡ true = rw e at (rw l at cool) in
        (
          rested_lem r x.at (omega (arith, o.0)) cool',
          Apart-heal_resets x.at x.at xs u.1 (omega arith) o.1 ever last,
        ))
      (λ none.
        let (ever, last) = heal_tick-none x s none in
        Apart-heal_resets r x.at xs u.1 (omega (arith, o.0)) o.1 (ever ∙ e) (last ∙ l))

-- Resets with a cooldown or more between one and the next.
abbrev pub IsSpaced : List ℕ → Type 0
IsSpaced [] = Unit
IsSpaced (r ∷ rs) = Apart r rs

-- However the lines behave, the resets that passes in the order of time make from a start at rest
-- lie 1000 ms or more apart, over any length of run, the wrap of the clock included.
pub heal_resets-IsSpaced :
    (t : ℕ) (xs : List Sample) (s : TwiHeal)
    → Ordered t xs
    → s.ever_reset ≡ false
    → IsSpaced (heal_resets xs s)
unfolding heal_resets
heal_resets-IsSpaced t [] s o e = tt
heal_resets-IsSpaced t (x ∷ xs) s o e =
    let u = heal_tick x s in
    if_known IsSpaced u.0 (x.at ∷ heal_resets xs u.1) (heal_resets xs u.1)
      (λ made.
        let (ever, last, cool, held) = heal_tick-reset x s made in
        Apart-heal_resets x.at x.at xs u.1 (omega arith) o.1 ever last)
      (λ none. heal_resets-IsSpaced x.at xs u.1 o.1 ((heal_tick-none x s none).0 ∙ e))
