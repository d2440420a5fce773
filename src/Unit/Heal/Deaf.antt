-- ===== src/Unit/Heal/Deaf.antt =====
-- firmware/v2/Unit/UnitTwiHeal.h: which samples of a wrong configuration count as a deaf unit.
use split_flap.Common.{
  ℕ, ◌+◌, ◌<◌, ◌≤◌, ◌≡◌, ◌≢◌, refl, ap, ◌∙◌, inl, inr, List, [], ◌∷◌, ◌++◌, true, false,
  if◌then◌else◌, Bool-cases, arith, u32,
}
use split_flap.Unit.Heal.{
  hold_ms, max_sample_gap_ms, TwiDeaf, rested, deaf_should_reset, deaf_note_reset, DeafSample,
  deaf_tick, deaf_resets,
}
use split_flap.Unit.Heal.Held.{some_reset, later_reset}

-- Passes from `t` on that come more than 10 ms, and less than 2 ^ 32 ms, after each other.
abbrev pub Sparse : ℕ → List DeafSample → Type 0
Sparse t [] = Unit
Sparse t (x ∷ xs) = (t + max_sample_gap_ms < x.at) × (x.at < t + 4294967296) × Sparse x.at xs

-- Passes from `t` on that find a wrong configuration, both lines free, and come 10 ms or less after
-- each other.
abbrev pub Dense : ℕ → List DeafSample → Type 0
Dense t [] = Unit
Dense t (x ∷ xs) =
    (t ≤ x.at)
    × (x.at ≤ t + max_sample_gap_ms)
    × (x.intact ≡ false)
    × (x.lines_free ≡ true)
    × Dense x.at xs

abbrev Sampled : ℕ → TwiDeaf → Type 0
Sampled t s = s.bad_seen ≡ true → s.last_sample ≡ u32 t

deaf_tick-sparse :
    (t : ℕ) (x : DeafSample) (s : TwiDeaf)
    → t + max_sample_gap_ms < x.at
    → x.at < t + 4294967296
    → Sampled t s
    → ((deaf_tick x s).0 ≡ false) × Sampled x.at (deaf_tick x s).1
unfolding deaf_tick deaf_should_reset deaf_note_reset
deaf_tick-sparse t x s l m p = (ground (arith, p), λ h. ground (arith, p, h))

-- Samples that are more than 10 ms apart never reset the bus hardware, whatever they find, where
-- none is 2 ^ 32 ms apart from the last.
deaf_resets-Sparse :
    (t : ℕ) (xs : List DeafSample) (s : TwiDeaf)
    → Sparse t xs
    → (s.bad_seen ≡ true → s.last_sample ≡ u32 t)
    → deaf_resets xs s ≡ []
unfolding deaf_resets
deaf_resets-Sparse t [] s g p = refl
deaf_resets-Sparse t (x ∷ xs) s g p =
    let u = deaf_tick x s in
    let (none, q) = deaf_tick-sparse t x s g.0 g.1 p in
    ap (λ b. if b then x.at ∷ deaf_resets xs u.1 else deaf_resets xs u.1) none
    ∙ deaf_resets-Sparse x.at xs u.1 g.2 q

-- A configuration that is known wrong since `since`, sampled last at `t`.
record Wrong (since t : ℕ) (s : TwiDeaf) : Type 0 where
  pub seen : s.bad_seen ≡ true
  pub start : s.bad_since ≡ u32 since
  pub sampled : s.last_sample ≡ u32 t

deaf_tick-Wrong :
    (since t : ℕ) (x : DeafSample) (s : TwiDeaf)
    → t ≤ x.at
    → x.at ≤ t + max_sample_gap_ms
    → x.intact ≡ false
    → x.lines_free ≡ true
    → Wrong since t s
    → (deaf_tick x s).0 ≡ false
    → Wrong since x.at (deaf_tick x s).1
      × ((deaf_tick x s).1.ever_reset ≡ s.ever_reset)
      × ((deaf_tick x s).1.last_reset ≡ s.last_reset)
unfolding deaf_tick deaf_should_reset deaf_note_reset
deaf_tick-Wrong since t x s l m i f p none = (
  record {
    seen = ground (arith, p.seen, p.start, p.sampled, none, i, f);
    start = ground (arith, p.seen, p.start, p.sampled, none, i, f);
    sampled = ground (arith, p.seen, p.start, p.sampled, none, i, f);
  },
  ground (arith, p.seen, p.start, p.sampled, none, i, f),
  ground (arith, p.seen, p.start, p.sampled, none, i, f),
)

deaf_tick-over :
    (since t : ℕ) (x : DeafSample) (s : TwiDeaf)
    → t ≤ x.at
    → x.at ≤ t + max_sample_gap_ms
    → x.intact ≡ false
    → x.lines_free ≡ true
    → Wrong since t s
    → since + hold_ms ≤ x.at
    → x.at < since + 4294967296
    → (deaf_tick x s).0 ≡ rested s.ever_reset s.last_reset (u32 x.at)
unfolding deaf_tick deaf_should_reset
deaf_tick-over since t x s l m i f p h n = ground (arith, p.seen, p.start, p.sampled, i, f)

deaf_tick-first :
    (x : DeafSample) (s : TwiDeaf)
    → s.bad_seen ≡ false
    → x.intact ≡ false
    → ((deaf_tick x s).0 ≡ false)
      × Wrong x.at x.at (deaf_tick x s).1
      × ((deaf_tick x s).1.ever_reset ≡ s.ever_reset)
      × ((deaf_tick x s).1.last_reset ≡ s.last_reset)
unfolding deaf_tick deaf_should_reset deaf_note_reset
deaf_tick-first x s fresh i = (
  ground (arith, fresh, i),
  record {
    seen = ground (arith, fresh, i);
    start = ground (arith, fresh, i);
    sampled = ground (arith, fresh, i);
  },
  ground (arith, fresh, i),
  ground (arith, fresh, i),
)

deaf_resets-Wrong :
    (since t : ℕ) (xs : List DeafSample) (z : DeafSample) (s : TwiDeaf)
    → Wrong since t s
    → Dense t (xs ++ z ∷ [])
    → since + hold_ms ≤ z.at
    → z.at < since + 4294967296
    → rested s.ever_reset s.last_reset (u32 z.at) ≡ true
    → deaf_resets (xs ++ z ∷ []) s ≢ []
unfolding deaf_resets
deaf_resets-Wrong since t [] z s p (l, m, i, f, rest) h n r =
    some_reset z.at [] (deaf_tick z s).0 (deaf_tick-over since t z s l m i f p h n ∙ r)
deaf_resets-Wrong since t (y ∷ xs) z s p (l, m, i, f, rest) h n r =
    let u = deaf_tick y s in
    elim (Bool-cases u.0) [
      | inl e ↦ some_reset y.at (deaf_resets (xs ++ z ∷ []) u.1) u.0 e
      | inr e ↦
          let (q, ever, last) = deaf_tick-Wrong since t y s l m i f p e in
          let r' : rested u.1.ever_reset u.1.last_reset (u32 z.at) ≡ true = rw ever (rw last r) in
          later_reset y.at (deaf_resets (xs ++ z ∷ []) u.1) u.0
            (deaf_resets-Wrong since y.at xs z u.1 q rest h n r')
    ]

-- A wrong configuration that passes 10 ms or less apart find from `x` to `z`, with both lines free,
-- gets the bus hardware reset by one of them, where `z` comes 50 ms or more after `x` and within 2
-- ^ 32 ms of it, and the cooldown is over at `z`.
pub deaf_unit-reset :
    (x : DeafSample) (ys : List DeafSample) (z : DeafSample) (s : TwiDeaf)
    → s.bad_seen ≡ false
    → Dense x.at (x ∷ ys ++ z ∷ [])
    → x.at + hold_ms ≤ z.at
    → z.at < x.at + 4294967296
    → rested s.ever_reset s.last_reset (u32 z.at) ≡ true
    → deaf_resets (x ∷ ys ++ z ∷ []) s ≢ []
unfolding deaf_resets
deaf_unit-reset x ys z s fresh (l, m, i, f, rest) h n r =
    let u = deaf_tick x s in
    let (none, q, ever, last) = deaf_tick-first x s fresh i in
    let r' : rested u.1.ever_reset u.1.last_reset (u32 z.at) ≡ true = rw ever (rw last r) in
    later_reset x.at (deaf_resets (ys ++ z ∷ []) u.1) u.0
      (deaf_resets-Wrong x.at x.at ys z u.1 q rest h n r')
