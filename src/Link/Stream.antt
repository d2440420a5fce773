-- ===== src/Link/Stream.antt =====
-- firmware/v2/link/WallLinkStream.h: messages taken off a byte stream, with the loops of
-- Master/WallLinkCore.h (`bytes`) that feed it, and a document in pieces. A reader is the list of the
-- `have` bytes of its buffer. Encoding and decoding of a message are nanopb's: what a caller does with
-- a body is a parameter.
use split_flap.Common.{
  ℕ, zero, suc, ◌+◌, ◌-◌, ◌*◌, ◌%◌, ◌^◌, List, [], ◌∷◌, ◌++◌, Bool, true, false, not, ◌==◌, ltb,
  leb, if◌then◌else◌, length, take,
}
use split_flap.Common.Drop.{drop}

abbrev pub prefix_max : ℕ
prefix_max = 3

-- `WlFeed`, a message with the lengths of its prefix and its body.
pub data Parsed : Type 0 where
  need_more bad : Parsed
  message : ℕ → ℕ → Parsed

-- The end of `parse`'s loop.
unfoldable pub unfinished : ℕ → Parsed
unfinished have = if leb prefix_max have then bad else need_more

-- A prefix of `i + 1` bytes for a body of `len`.
unfoldable pub prefixed : ℕ → ℕ → ℕ → ℕ → Parsed
prefixed max_body have i len =
    if ltb max_body len
    then bad
    else if leb (i + 1 + len) have
    then message (i + 1) len
    else need_more

-- The loop of `parse` with `n` rounds left. The bits of `len` lie below those that are put in, so `|`
-- is `+`.
unfoldable pub parse_in : ℕ → ℕ → ℕ → ℕ → ℕ → List ℕ → Parsed
unfolding unfinished prefixed
parse_in max_body have zero i len bytes = unfinished have
parse_in max_body have (suc n) i len [] = unfinished have
parse_in max_body have (suc n) i len (b ∷ bytes) =
    let len' = len + b % 128 * 128 ^ i in
    let rest = parse_in max_body have n (i + 1) len' bytes in
    if ltb b 128 then prefixed max_body have i len' else rest

unfoldable pub parse : ℕ → List ℕ → Parsed
unfolding parse_in
parse max_body buf = parse_in max_body (length buf) prefix_max 0 0 buf

-- `feed`: what the buffer has room for, and what is left of the bytes.
unfoldable pub feed : ℕ → List ℕ → List ℕ → List ℕ × List ℕ
feed max_body buf bytes =
    let room = prefix_max + max_body - length buf in (buf ++ take room bytes, drop room bytes)

abbrev pub is_bad : Parsed → Bool
is_bad bad = true
is_bad _ = false

-- A connection: whether it is open, its reader, and the caller's state.
pub record Conn (S : Type 0) : Type 0 where
  pub open_ : Bool
  pub buf : List ℕ
  pub caller : S

-- `handle` is what a message does, and `dropped` what `drop` does to the caller's state.
module _ {S : Type 0} (max_body : ℕ) (handle : List ℕ → S → Bool × S) (dropped : S → S) where
  -- A message is handled, and popped.
  unfoldable pub take_message : ℕ → ℕ → Conn S → Conn S
  take_message prefix body c =
      let (stays, s) = handle (take body (drop prefix c.buf)) c.caller in
      record { open_ = stays; buf = drop (prefix + body) c.buf; caller = s }

  -- What `peek` says, and the next round.
  unfoldable pub round : Parsed → (Conn S → Conn S) → Conn S → Conn S
  unfolding take_message
  round (message prefix body) again c =
      let d = take_message prefix body c in if d.open_ then again d else d
  round _ again c = c

  -- The inner loop of `bytes`: the messages that the reader holds, with `n` rounds left.
  unfoldable pub drain : ℕ → Conn S → Conn S
  unfolding round
  drain zero c = c
  drain (suc n) c = round (parse max_body c.buf) (drain n) c

  -- `bytes`, with `n` rounds left.
  unfoldable pub bytes_in : ℕ → List ℕ → Conn S → Conn S
  unfolding feed drain
  bytes_in zero data_in c = c
  bytes_in (suc n) data_in c =
      let (buf, left) = feed max_body c.buf data_in in
      let d = drain (length buf) (record c { buf = buf }) in
      let rest = bytes_in n left d in
      if not c.open_
      then c
      else if not d.open_
      then d
      else if is_bad (parse max_body d.buf)
      then record d { open_ = false; caller = dropped d.caller }
      else if length left == 0
      then d
      else rest

  unfoldable pub bytes : List ℕ → Conn S → Conn S
  unfolding bytes_in
  bytes data_in c = bytes_in (length data_in + 1) data_in c

  -- The chunks that a socket brings.
  unfoldable pub all_bytes : List (List ℕ) → Conn S → Conn S
  unfolding bytes
  all_bytes [] c = c
  all_bytes (chunk ∷ chunks) c = all_bytes chunks (bytes chunk c)
