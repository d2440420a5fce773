-- ===== src/Wire/Contract/Exact.antt =====
-- Each decoder of UnitWireContract.h accepts the encodings of its encoder, and nothing else.
use split_flap.Common.{
  ℕ, zero, suc, ◌≡◌, ◌↔◌, refl, sym, ap, ◌∙◌, some, List, [], ◌∷◌, ◌++◌, arith, length, take,
  get_or, IsByte,
}
use split_flap.Common.Int.{ℤ, IsInt16, of_u16-to_u16, to_u16-of_u16, to_u16-lt}
use split_flap.Wire.Checksum.{masked_xor-take}
use split_flap.Wire.Contract.{
  le16, status_checksum, status_encode_reply, status_readback_valid, offset_encode_reply,
  offset_readback_valid, set_offset_encode, set_offset_decode, set_address_encode,
  set_address_decode, set_gates_encode, set_gates_decode,
}

-- SET_OFFSET: the unit takes the value `v` from four bytes exactly when they are the encoding of
-- `v`, for every int16_t `v`.
set_offset_decode_iff :
    (a b c d : ℕ) (v : ℤ)
    → IsByte a
    → IsByte b
    → IsByte c
    → IsByte d
    → IsInt16 v
    → let buf = a ∷ b ∷ c ∷ d ∷ [] in
      (set_offset_decode buf 4 ≡ some v) ↔ (buf ≡ set_offset_encode v)
unfolding set_offset_decode set_offset_encode
set_offset_decode_iff a b c d v ha hb hc hd hv =
    ground (arith, of_u16-to_u16 v hv, to_u16-of_u16 (le16 a b) (omega arith), to_u16-lt v)

-- SET_I2C_ADDRESS: two bytes are taken as the address `x` exactly when they are its encoding.
pub set_address_decode_iff :
    (a b x : ℕ)
    → IsByte a
    → IsByte b
    → let buf = a ∷ b ∷ [] in (set_address_decode buf 2 ≡ some x) ↔ (buf ≡ set_address_encode x)
unfolding set_address_decode set_address_encode
set_address_decode_iff a b x ha hb = ground arith

-- SET_GATES: two bytes are taken as the gates `x` exactly when they are their encoding.
pub set_gates_decode_iff :
    (a b x : ℕ)
    → IsByte a
    → IsByte b
    → let buf = a ∷ b ∷ [] in (set_gates_decode buf 2 ≡ some x) ↔ (buf ≡ set_gates_encode x)
unfolding set_gates_decode set_gates_encode
set_gates_decode_iff a b x ha hb = ground arith

-- GET_OFFSET: three bytes are read as the int16_t `v` exactly when they are the unit's encoding of
-- it.
pub offset_readback_valid_iff :
    (a b c : ℕ) (v : ℤ)
    → IsByte a
    → IsByte b
    → IsByte c
    → IsInt16 v
    → let buf = a ∷ b ∷ c ∷ [] in
      (offset_readback_valid buf 3 ≡ some v) ↔ (buf ≡ offset_encode_reply v)
unfolding offset_readback_valid offset_encode_reply
offset_readback_valid_iff a b c v ha hb hc hv =
    ground (arith, of_u16-to_u16 v hv, to_u16-of_u16 (le16 a b) (omega arith), to_u16-lt v)

take-append : (p : List ℕ) (n x : ℕ) → length p ≡ n → take n (p ++ x ∷ []) ≡ p
take-append [] zero x h = refl
take-append [] (suc n) x h = absurd (omega arith)
take-append (y ∷ p) zero x h = absurd (omega arith)
take-append (y ∷ p) (suc n) x h = ap (λ t. y ∷ t) (take-append p n x (omega arith))

take_all : (p : List ℕ) (n : ℕ) → length p ≡ n → take n p ≡ p
take_all [] zero h = refl
take_all [] (suc n) h = absurd (omega arith)
take_all (y ∷ p) zero h = absurd (omega arith)
take_all (y ∷ p) (suc n) h = ap (λ t. y ∷ t) (take_all p n (omega arith))

get_or-append : (p : List ℕ) (n x : ℕ) → length p ≡ n → get_or (p ++ x ∷ []) n 0 ≡ x
get_or-append [] zero x h = refl
get_or-append [] (suc n) x h = absurd (omega arith)
get_or-append (y ∷ p) zero x h = absurd (omega arith)
get_or-append (y ∷ p) (suc n) x h = get_or-append p n x (omega arith)

take-get_or : (buf : List ℕ) (n : ℕ) → length buf ≡ suc n → buf ≡ take n buf ++ get_or buf n 0 ∷ []
take-get_or [] n h = absurd (omega arith)
take-get_or (y ∷ []) zero h = refl
take-get_or (y ∷ z ∷ buf) zero h = absurd (omega arith)
take-get_or (y ∷ buf) (suc n) h = ap (λ t. y ∷ t) (take-get_or buf n (omega arith))

status_checksum-take : (buf : List ℕ) → status_checksum (take 8 buf) ≡ status_checksum buf
unfolding status_checksum
status_checksum-take buf = masked_xor-take 8 0x7e buf

-- What an accepted status is.
status_accepted :
    (buf p : List ℕ)
    → status_readback_valid buf 9 ≡ some p
    → (take 8 buf ≡ p) × (get_or buf 8 0 ≡ status_checksum buf)
unfolding status_readback_valid
status_accepted buf p h = ground arith

status_readback_valid_of :
    (buf p : List ℕ)
    → take 8 buf ≡ p
    → get_or buf 8 0 ≡ status_checksum buf
    → status_readback_valid buf 9 ≡ some p
unfolding status_readback_valid
status_readback_valid_of buf p e c = ground arith

status_decode_encode :
    (p : List ℕ) → length p ≡ 8 → status_readback_valid (status_encode_reply p) 9 ≡ some p
unfolding status_encode_reply
status_decode_encode p eight =
    let c = status_checksum p in
    let whole = take_all p 8 eight in
    let taken : take 8 (p ++ c ∷ []) ≡ p = take-append p 8 c eight in
    rw whole (
      status_readback_valid_of (p ++ c ∷ []) p taken (
        get_or-append p 8 c eight
        ∙ ap (λ t. status_checksum t) (sym taken)
        ∙ status_checksum-take (p ++ c ∷ [])))

-- GET_STATUS: nine bytes give the payload `p` exactly when they are the encoding of `p`.
pub status_readback_valid_iff :
    (buf p : List ℕ)
    → length buf ≡ 9
    → length p ≡ 8
    → (status_readback_valid buf 9 ≡ some p) ↔ (buf ≡ status_encode_reply p)
status_readback_valid_iff buf p nine eight = (there, back)
  where
    there : status_readback_valid buf 9 ≡ some p → buf ≡ status_encode_reply p
    there h =
        let (e, c) = status_accepted buf p h in
        unfold status_encode_reply in
        take-get_or buf 8 nine
        ∙ ap (λ t. take 8 buf ++ t ∷ []) (c ∙ sym (status_checksum-take buf))
        ∙ ap (λ t. t ++ status_checksum t ∷ []) e
        ∙ ap (λ t. t ++ status_checksum p ∷ []) (sym (take_all p 8 eight))

    back : buf ≡ status_encode_reply p → status_readback_valid buf 9 ≡ some p
    back e = rw e (status_decode_encode p eight)
