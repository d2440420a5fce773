-- ===== src/Link/Framing.antt =====
-- firmware/v2/link/WallLinkStream.h: what `parse` makes of the bytes of a message.
use split_flap.Common.{
  ℕ, ◌+◌, ◌-◌, ◌*◌, ◌%◌, ◌<◌, ◌≤◌, ◌≡◌, refl, ap, ◌∙◌, inl, inr, List, [], ◌∷◌, ◌++◌, true, false,
  ltb, if_true, if_false, length, length-append, arith,
}
use split_flap.Common.Drop.{append_split}
use split_flap.Link.Stream.{prefix_max, need_more, message, unfinished, prefixed, parse_in, parse}

-- The varints of one to three bytes that say `n`.
abbrev pub IsPrefix : List ℕ → ℕ → Type 0
IsPrefix (a ∷ []) n = (a < 128) × (n ≡ a)
IsPrefix (b ∷ a ∷ []) n = (128 ≤ b) × (b < 256) × (a < 128) × (n ≡ b % 128 + a * 128)
IsPrefix (c ∷ b ∷ a ∷ []) n =
    (128 ≤ c)
    × (c < 256)
    × (128 ≤ b)
    × (b < 256)
    × (a < 128)
    × (n ≡ c % 128 + b % 128 * 128 + a * 16384)
IsPrefix _ n = ⊥

-- A message as it goes over the stream.
pub record Frame : Type 0 where
  pub prefix : List ℕ
  pub body : List ℕ

pub record IsFrame (max_body : ℕ) (f : Frame) : Type 0 where
  pub says : IsPrefix f.prefix (length f.body)
  pub small : length f.body ≤ max_body

low : (b : ℕ) → b < 128 → ltb b 128 ≡ true
low b h = ground arith

high : (b : ℕ) → 128 ≤ b → ltb b 128 ≡ false
high b h = ground arith

-- The loop, behind a whole prefix.
parse_in-prefix :
    (max_body have : ℕ) (p : List ℕ) (n : ℕ) (rest : List ℕ)
    → IsPrefix p n
    → parse_in max_body have 3 0 0 (p ++ rest) ≡ prefixed max_body have (length p - 1) n
unfolding parse_in
parse_in-prefix max_body have [] n rest h = absurd h
parse_in-prefix max_body have (a ∷ []) n rest (l, e) =
    if_true _ _ _ (low a l) ∙ ap (prefixed max_body have 0) (omega (arith, e))
parse_in-prefix max_body have (b ∷ a ∷ []) n rest (h, m, l, e) =
    if_false _ _ _ (high b h)
    ∙ if_true _ _ _ (low a l)
    ∙ ap (prefixed max_body have 1) (omega (arith, e))
parse_in-prefix max_body have (c ∷ b ∷ a ∷ []) n rest (g, k, h, m, l, e) =
    if_false _ _ _ (high c g)
    ∙ if_false _ _ _ (high b h)
    ∙ if_true _ _ _ (low a l)
    ∙ ap (prefixed max_body have 2) (omega (arith, e))
parse_in-prefix max_body have (d ∷ c ∷ b ∷ a ∷ p) n rest h = absurd h

-- A part of a prefix.
parse-part :
    (max_body : ℕ) (buf : List ℕ) (z : ℕ) (zs : List ℕ) (n : ℕ)
    → IsPrefix (buf ++ z ∷ zs) n
    → parse max_body buf ≡ need_more
unfolding parse parse_in unfinished
parse-part max_body [] z zs n h = refl
parse-part max_body (c ∷ []) z [] n h = if_false _ _ _ (high c h.0)
parse-part max_body (c ∷ []) z (a ∷ []) n h = if_false _ _ _ (high c h.0)
parse-part max_body (c ∷ []) z (b ∷ a ∷ zs) n h = absurd h
parse-part max_body (c ∷ b ∷ []) z [] n h =
    if_false _ _ _ (high c h.0) ∙ if_false _ _ _ (high b h.2)
parse-part max_body (c ∷ b ∷ []) z (a ∷ zs) n h = absurd h
parse-part max_body (d ∷ c ∷ b ∷ []) z zs n h = absurd h
parse-part max_body (d ∷ c ∷ b ∷ a ∷ buf) z zs n h = absurd h

pub IsPrefix-length : (p : List ℕ) (n : ℕ) → IsPrefix p n → (0 < length p) × (length p ≤ prefix_max)
IsPrefix-length [] n h = absurd h
IsPrefix-length (a ∷ []) n h = (omega arith, omega arith)
IsPrefix-length (b ∷ a ∷ []) n h = (omega arith, omega arith)
IsPrefix-length (c ∷ b ∷ a ∷ []) n h = (omega arith, omega arith)
IsPrefix-length (d ∷ c ∷ b ∷ a ∷ p) n h = absurd h

prefixed_whole :
    (max_body have i n : ℕ)
    → n ≤ max_body
    → i + 1 + n ≤ have
    → prefixed max_body have i n ≡ message (i + 1) n
unfolding prefixed
prefixed_whole max_body have i n m h = ground arith

prefixed_part :
    (max_body have i n : ℕ)
    → n ≤ max_body
    → have < i + 1 + n
    → prefixed max_body have i n ≡ need_more
unfolding prefixed
prefixed_part max_body have i n m h = ground arith

module _ (max_body : ℕ) (f : Frame) (ok : IsFrame max_body f) where
  -- A whole message is found, whatever follows it.
  pub parse-whole :
      (rest : List ℕ)
      → parse max_body (f.prefix ++ (f.body ++ rest)) ≡ message (length f.prefix) (length f.body)
  unfolding parse
  parse-whole rest =
      let buf = f.prefix ++ (f.body ++ rest) in
      let n = length-append f.prefix (f.body ++ rest) in
      let m = length-append f.body rest in
      let (pos, few) = IsPrefix-length f.prefix (length f.body) ok.says in
      let e : length f.prefix - 1 + 1 ≡ length f.prefix = omega (arith, pos) in
      parse_in-prefix max_body (length buf) f.prefix (length f.body) (f.body ++ rest) ok.says
      ∙ prefixed_whole max_body (length buf) (length f.prefix - 1) (length f.body) ok.small
          (omega (arith, n, m, pos))
      ∙ ap (λ k. message k (length f.body)) e

  -- A part of a message is waited for.
  pub parse-partial :
      (buf : List ℕ) (z : ℕ) (zs : List ℕ)
      → buf ++ z ∷ zs ≡ f.prefix ++ f.body
      → parse max_body buf ≡ need_more
  unfolding parse
  parse-partial buf z zs e = elim (append_split buf (z ∷ zs) f.prefix f.body e) [
    | inl (us, p, q) ↦ within us p q
    | inr (w, ws, p, q) ↦ parse-part max_body buf w ws (length f.body) (rw p at ok.says)
  ]
    where
      within :
          (us : List ℕ)
          → buf ≡ f.prefix ++ us
          → f.body ≡ us ++ z ∷ zs
          → parse max_body buf ≡ need_more
      within us p q =
          let n = ap length p ∙ length-append f.prefix us in
          let m = ap length q ∙ length-append us (z ∷ zs) in
          let (pos, few) = IsPrefix-length f.prefix (length f.body) ok.says in
          ap (λ b. parse_in max_body (length buf) prefix_max 0 0 b) p
          ∙ parse_in-prefix max_body (length buf) f.prefix (length f.body) us ok.says
          ∙ prefixed_part max_body (length buf) (length f.prefix - 1) (length f.body) ok.small
              (omega (arith, n, m, pos))
