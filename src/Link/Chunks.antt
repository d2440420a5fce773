-- ===== src/Link/Chunks.antt =====
-- firmware/v2/link/WallLinkStream.h, Master/WallLinkCore.h: the messages that a connection handles do
-- not depend on how their bytes are cut into chunks.
use split_flap.Common.{
  ℕ, zero, suc, ◌+◌, ◌-◌, ◌<◌, ◌≤◌, ◌≡◌, ◌⊎◌, inl, inr, refl, sym, ap, ◌∙◌, List, [], ◌∷◌, ◌++◌,
  Bool, true, false, not, ◌==◌, if◌then◌else◌, if_true, if_false, if_known, length, length-append,
  take, All, arith,
}
use mathlib.Core.List.{append_assoc, append-nil}
use split_flap.Common.Drop.{
  drop, take-length, drop-length, drop-add, take-drop, length-drop, append_split,
}
use split_flap.Link.Stream.{
  prefix_max, need_more, message, unfinished, parse_in, parse, Conn, take_message, round, drain,
  is_bad, bytes_in, bytes, all_bytes,
}
use split_flap.Link.Framing.{Frame, IsFrame, IsPrefix-length, parse-whole, parse-partial}

-- The bytes of messages, one behind the other.
abbrev pub stream : List Frame → List ℕ
stream [] = []
stream (f ∷ fs) = f.prefix ++ (f.body ++ stream fs)

abbrev pub flat : List (List ℕ) → List ℕ
flat [] = []
flat (chunk ∷ chunks) = chunk ++ flat chunks

front_nil : (xs ys : List ℕ) → xs ++ ys ≡ [] → xs ≡ []
front_nil [] ys e = refl
front_nil (x ∷ xs) ys e = absurd (ground (arith, e))

length_zero : (xs : List ℕ) → length xs ≡ 0 → xs ≡ []
length_zero [] e = refl
length_zero (x ∷ xs) e = absurd (omega (arith, e))

module _ {S : Type 0} (max_body : ℕ) (handle : List ℕ → S → Bool × S) (dropped : S → S) where
  -- Each body is handled in turn, until one closes the connection.
  abbrev pub handle_all : List Frame → S → Bool × S
  handle_all [] s = (true, s)
  handle_all (f ∷ fs) s =
      let (stays, t) = handle f.body s in
      let rest = handle_all fs t in if stays then rest else (false, t)

  module _ (goal : Bool × S) where
    -- An open connection that has `fs` before it, part of it in its reader.
    record Live (fut : List ℕ) (c : Conn S) : Type 0 where
      pub is_open : c.open_ ≡ true
      pub frames : List Frame
      pub valid : All (IsFrame max_body) frames
      pub octets : c.buf ++ fut ≡ stream frames
      pub same : handle_all frames c.caller ≡ goal

    record Waits (c : Conn S) : Type 0 where
      pub partial : parse max_body c.buf ≡ need_more
      pub room : length c.buf < prefix_max + max_body

    abbrev Good : List ℕ → Conn S → Type 0
    Good fut c = ((c.open_ ≡ false) × (goal ≡ (false, c.caller))) ⊎ (Live fut c × Waits c)

    drain_waits :
        (n : ℕ) (c : Conn S)
        → parse max_body c.buf ≡ need_more
        → drain max_body handle dropped n c ≡ c
    unfolding drain round
    drain_waits zero c e = refl
    drain_waits (suc n) c e =
        ap (λ p. round max_body handle dropped p (drain max_body handle dropped n) c) e

    -- A reader that holds no whole message is left as it is.
    waiting-Good :
        (n : ℕ) (fut : List ℕ) (c : Conn S)
        → Live fut c
        → Waits c
        → Good fut (drain max_body handle dropped n c)
    waiting-Good n fut c live waits = rw (drain_waits n c waits.partial) (inr (live, waits))

    -- What a whole message in front of the reader leads to.
    message_round :
        (n : ℕ) (c : Conn S) (f : Frame) (zs : List ℕ)
        → IsFrame max_body f
        → c.buf ≡ f.prefix ++ (f.body ++ zs)
        → let r = handle f.body c.caller in
          let d : Conn S = record { open_ = r.0; buf = zs; caller = r.1 } in
          drain max_body handle dropped (suc n) c
          ≡ (if r.0 then drain max_body handle dropped n d else d)
    unfolding drain round take_message
    message_round n c f zs v e =
        let p = length f.prefix in
        let k = length f.body in
        let found : parse max_body c.buf ≡ message p k =
          ap (parse max_body) e ∙ parse-whole max_body f v zs in
        let behind : drop p c.buf ≡ f.body ++ zs =
          ap (drop p) e ∙ drop-length f.prefix (f.body ++ zs) in
        let body : take k (drop p c.buf) ≡ f.body = ap (take k) behind ∙ take-length f.body zs in
        let rest : drop (p + k) c.buf ≡ zs =
          drop-add p k c.buf ∙ ap (drop k) behind ∙ drop-length f.body zs in
        let next = λ (b buf : List ℕ).
          let r = handle b c.caller in
          let d : Conn S = record { open_ = r.0; buf = buf; caller = r.1 } in
          if d.open_ then drain max_body handle dropped n d else d in
        ap (λ x. round max_body handle dropped x (drain max_body handle dropped n) c) found
        ∙ ap (λ b. next b (drop (p + k) c.buf)) body
        ∙ ap (next f.body) rest

    -- A whole message is handled, and the reader goes on behind it unless that closed the connection.
    whole-Good :
        (n : ℕ) (fut : List ℕ) (c : Conn S) (f : Frame) (zs : List ℕ)
        → length c.buf ≤ n
        → IsFrame max_body f
        → c.buf ≡ f.prefix ++ (f.body ++ zs)
        → let r = handle f.body c.caller in
          let d : Conn S = record { open_ = r.0; buf = zs; caller = r.1 } in
          ((k : ℕ) → length zs ≤ k → r.0 ≡ true → Good fut (drain max_body handle dropped k d))
          → (r.0 ≡ false → goal ≡ (false, r.1))
          → Good fut (drain max_body handle dropped n c)
    whole-Good n fut c f zs l v e again closed =
        let size = ap length e ∙ length-append f.prefix (f.body ++ zs) in
        let body = length-append f.body zs in
        let (pos, few) = IsPrefix-length f.prefix (length f.body) v.says in rounds n l size body pos
      where
        rounds :
            (n : ℕ)
            → length c.buf ≤ n
            → length c.buf ≡ length f.prefix + length (f.body ++ zs)
            → length (f.body ++ zs) ≡ length f.body + length zs
            → 0 < length f.prefix
            → Good fut (drain max_body handle dropped n c)
        rounds zero l size body pos = absurd (omega arith)
        rounds (suc n) l size body pos = rw (message_round n c f zs v e) (
            if_known (Good fut) (handle f.body c.caller).0 _ _ (λ t. again n (omega arith) t)
              (λ t. inl (t, closed t)))

    part_room :
        (f : Frame) (buf : List ℕ) (z : ℕ) (zs : List ℕ)
        → IsFrame max_body f
        → f.prefix ++ f.body ≡ buf ++ z ∷ zs
        → length buf < prefix_max + max_body
    part_room f buf z zs v p =
        let (pos, few) = IsPrefix-length f.prefix (length f.body) v.says in
        omega (
          arith,
          ap length p,
          length-append f.prefix f.body,
          length-append buf (z ∷ zs),
          few,
          v.small,
        )

    drain-Good :
        (n : ℕ) (fut : List ℕ) (c : Conn S) (fs : List Frame)
        → length c.buf ≤ n
        → c.open_ ≡ true
        → All (IsFrame max_body) fs
        → c.buf ++ fut ≡ stream fs
        → handle_all fs c.caller ≡ goal
        → Good fut (drain max_body handle dropped n c)
    unfolding parse parse_in unfinished
    drain-Good n fut c [] l o v e g =
        let empty = front_nil c.buf fut e in
        waiting-Good n fut c (record { is_open = o; frames = []; valid = v; octets = e; same = g })
          (record { partial = ap (parse max_body) empty; room = omega (arith, ap length empty) })
    drain-Good n fut c (f ∷ fs) l o v e g =
        let r = handle f.body c.caller in
        let d =
          λ (zs : List ℕ). let x : Conn S = record { open_ = r.0; buf = zs; caller = r.1 } in x in
        let rest = handle_all fs r.1 in
        let e' : c.buf ++ fut ≡ f.prefix ++ f.body ++ stream fs =
          e ∙ sym (append_assoc f.prefix f.body (stream fs)) in
        elim (append_split c.buf fut (f.prefix ++ f.body) (stream fs) e') [
          | inl (zs, p, q) ↦
              whole-Good n fut c f zs l v.0 (p ∙ append_assoc f.prefix f.body zs)
                (λ k h t.
                  drain-Good k fut (d zs) fs h t v.1 (sym q)
                    (sym (if_true r.0 rest (false, r.1) t) ∙ g))
                (λ t. sym g ∙ if_false r.0 rest (false, r.1) t)
          | inr (z, zs, p, q) ↦
              waiting-Good n fut c
                (record { is_open = o; frames = f ∷ fs; valid = v; octets = e; same = g })
                (record {
                  partial = parse-partial max_body f v.0 c.buf z zs (sym p);
                  room = part_room f c.buf z zs v.0 p;
                })
        ]

    -- The end of a round of the outer loop.
    settle-Good :
        (fut left : List ℕ) (d rest : Conn S)
        → Good (left ++ fut) d
        → (0 < length left → Live (left ++ fut) d → Waits d → Good fut rest)
        → Good fut (
            if not d.open_
            then d
            else if is_bad (parse max_body d.buf)
            then record d { open_ = false; caller = dropped d.caller }
            else if length left == 0
            then d
            else rest)
    settle-Good fut left d rest (inl (e, g)) again =
        if_known (Good fut) (not d.open_) _ _ (λ t. inl (e, g)) (λ t. absurd (ground (arith, t, e)))
    settle-Good fut left d rest (inr (live, waits)) again =
        if_known (Good fut) (not d.open_) _ _ (λ t. absurd (ground (arith, t, live.is_open)))
          (λ t.
            if_known (Good fut) (is_bad (parse max_body d.buf)) _ _
              (λ t. absurd (ground (arith, sym t ∙ ap is_bad waits.partial)))
              (λ t.
                if_known (Good fut) (length left == 0) _ _ (λ t. inr (ended t live, waits))
                  (λ t. again (ground (arith, t)) live waits)))
      where
        ended : (length left == 0) ≡ true → Live (left ++ fut) d → Live fut d
        ended t live =
            let none_left : left ≡ [] = length_zero left (ground (arith, t)) in
            record {
              is_open = live.is_open;
              frames = live.frames;
              valid = live.valid;
              octets = ap (λ bs. d.buf ++ (bs ++ fut)) (sym none_left) ∙ live.octets;
              same = live.same;
            }

    bytes_in-Good :
        (n : ℕ) (data_in fut : List ℕ) (c : Conn S)
        → length data_in < n
        → Live (data_in ++ fut) c
        → Waits c
        → Good fut (bytes_in max_body handle dropped n data_in c)
    unfolding bytes_in
    bytes_in-Good zero data_in fut c l live waits = absurd (omega arith)
    bytes_in-Good (suc n) data_in fut c l live waits =
        let room = prefix_max + max_body - length c.buf in
        let buf = c.buf ++ take room data_in in
        let left = drop room data_in in
        let d = drain max_body handle dropped (length buf) (record c { buf = buf }) in
        let octets : buf ++ (left ++ fut) ≡ stream live.frames =
          append_assoc c.buf (take room data_in) (left ++ fut)
          ∙ ap (λ bs. c.buf ++ bs)
              (sym (append_assoc (take room data_in) left fut)
                ∙ ap (λ bs. bs ++ fut) (take-drop room data_in))
          ∙ live.octets in
        if_known (Good fut) (not c.open_) _ _ (λ t. absurd (ground (arith, t, live.is_open)))
          (λ t.
            settle-Good fut left d _
              (drain-Good (length buf) (left ++ fut) (record c { buf = buf }) live.frames
                (omega arith) live.is_open live.valid octets live.same)
              (λ more live' waits'.
                bytes_in-Good n left fut d (omega (arith, length-drop room data_in, waits.room))
                  live' waits'))

    -- A closed connection takes nothing more.
    chunk-Good :
        (n : ℕ) (data_in fut : List ℕ) (c : Conn S)
        → length data_in < n
        → Good (data_in ++ fut) c
        → Good fut (bytes_in max_body handle dropped n data_in c)
    unfolding bytes_in
    chunk-Good zero data_in fut c l good = absurd (omega arith)
    chunk-Good (suc n) data_in fut c l (inl (e, g)) =
        if_known (Good fut) (not c.open_) _ _ (λ t. inl (e, g)) (λ t. absurd (ground (arith, t, e)))
    chunk-Good (suc n) data_in fut c l (inr (live, waits)) =
        bytes_in-Good (suc n) data_in fut c l live waits

    all_bytes-Good :
        (chunks : List (List ℕ)) (c : Conn S)
        → Good (flat chunks) c
        → Good [] (all_bytes max_body handle dropped chunks c)
    unfolding all_bytes bytes
    all_bytes-Good [] c good = good
    all_bytes-Good (chunk ∷ chunks) c good =
        all_bytes-Good chunks _
          (chunk-Good (length chunk + 1) chunk (flat chunks) c (omega arith) good)

    -- With no byte to come, all is handled.
    Good-ends : (c : Conn S) → Good [] c → (c.open_ ≡ goal.0) × (c.caller ≡ goal.1)
    Good-ends c (inl (e, g)) = (e ∙ ap (λ r. r.0) (sym g), ap (λ r. r.1) (sym g))
    Good-ends c (inr (live, waits)) =
        ends live.frames live.valid (sym (append-nil c.buf) ∙ live.octets) live.same
      where
        ends :
            (fs : List Frame)
            → All (IsFrame max_body) fs
            → c.buf ≡ stream fs
            → handle_all fs c.caller ≡ goal
            → (c.open_ ≡ goal.0) × (c.caller ≡ goal.1)
        ends [] v e g = (live.is_open ∙ ap (λ r. r.0) g, ap (λ r. r.1) g)
        ends (f ∷ fs) v e g = absurd (
            ground (
              arith,
              sym (ap (parse max_body) e ∙ parse-whole max_body f v.0 (stream fs)) ∙ waits.partial,
            ))

  -- Messages handled off a stream that any chunks bring are those that were sent, in order, each once,
  -- up to one that closes the connection: it is open, and its caller is in the state, as after
  -- `handle_all`. The messages are whole, their prefixes varints of up to three bytes and their bodies
  -- within the limit, and the connection is open with an empty reader at first.
  pub all_bytes-handle_all :
      (fs : List Frame) (chunks : List (List ℕ)) (s : S)
      → All (IsFrame max_body) fs
      → flat chunks ≡ stream fs
      → let c =
          all_bytes max_body handle dropped chunks
            (record { open_ = true; buf = []; caller = s }) in
        (c.open_ ≡ (handle_all fs s).0) × (c.caller ≡ (handle_all fs s).1)
  unfolding parse parse_in unfinished
  all_bytes-handle_all fs chunks s v e =
      let start : Conn S = record { open_ = true; buf = []; caller = s } in
      Good-ends (handle_all fs s) (all_bytes max_body handle dropped chunks start) (
        all_bytes-Good (handle_all fs s) chunks start (
          inr (
            record { is_open = refl; frames = fs; valid = v; octets = e; same = refl },
            record { partial = refl; room = omega arith },
          )))
