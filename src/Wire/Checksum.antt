-- ===== src/Wire/Checksum.antt =====
-- The masked XOR that closes the unit's replies: the loop `x ^= buf[i]` of the *Checksum functions
-- under firmware/v2/shared, and the byte errors that it detects.
use split_flap.Common.{
  ℕ, zero, suc, ◌<◌, bit_xor, ◌≡◌, refl, ap, ◌∙◌, sym, List, [], ◌∷◌, arith, u8, IsByte, All,
  length, take, get_or, set, get_or-set_self, get_or-set_ne,
}
use native.Mathlib.Decide.{dec_lt}
use split_flap.Common.Xor.{xor_left_injective, xor_right_injective, xor-lt}

-- `for (i = 0; i < n; i++) x ^= buf[i];`
unfoldable pub xor_bytes : ℕ → ℕ → List ℕ → ℕ
xor_bytes x zero buf = x
xor_bytes x (suc n) [] = x
xor_bytes x (suc n) (b ∷ buf) = xor_bytes (bit_xor x b) n buf

-- XOR of the first `n` bytes, masked.
unfoldable pub masked_xor : ℕ → ℕ → List ℕ → ℕ
masked_xor n mask buf = u8 (bit_xor (xor_bytes 0 n buf) mask)

pub xor_bytes-lt : (x n : ℕ) (buf : List ℕ) → IsByte x → All IsByte buf → xor_bytes x n buf < 256
unfolding xor_bytes
xor_bytes-lt x zero buf h hs = h
xor_bytes-lt x (suc n) [] h hs = h
xor_bytes-lt x (suc n) (b ∷ buf) h hs = xor_bytes-lt (bit_xor x b) n buf (xor-lt x b h hs.0) hs.1

-- The start value is recovered from the result.
xor_bytes_injective : (x y n : ℕ) (buf : List ℕ) → xor_bytes x n buf ≡ xor_bytes y n buf → x ≡ y
unfolding xor_bytes
xor_bytes_injective x y zero buf h = h
xor_bytes_injective x y (suc n) [] h = h
xor_bytes_injective x y (suc n) (b ∷ buf) h =
    xor_right_injective b x y (xor_bytes_injective (bit_xor x b) (bit_xor y b) n buf h)

-- One changed byte among those covered changes the result.
xor_bytes-set_injective :
    (x n i v : ℕ) (buf : List ℕ)
    → i < n
    → i < length buf
    → xor_bytes x n (set buf i v) ≡ xor_bytes x n buf
    → v ≡ get_or buf i 0
unfolding xor_bytes
xor_bytes-set_injective x zero i v buf p q h = absurd (omega arith)
xor_bytes-set_injective x (suc n) i v [] p q h = absurd (omega arith)
xor_bytes-set_injective x (suc n) zero v (b ∷ buf) p q h =
    xor_left_injective x v b (xor_bytes_injective (bit_xor x v) (bit_xor x b) n buf h)
xor_bytes-set_injective x (suc n) (suc i) v (b ∷ buf) p q h =
    xor_bytes-set_injective (bit_xor x b) n i v buf (omega arith) (omega arith) h

-- A byte past those covered does not matter.
xor_bytes-set_past :
    (x n i v : ℕ) (buf : List ℕ) → n < suc i → xor_bytes x n (set buf i v) ≡ xor_bytes x n buf
unfolding xor_bytes
xor_bytes-set_past x zero i v buf h = refl
xor_bytes-set_past x (suc n) i v [] h = refl
xor_bytes-set_past x (suc n) zero v (b ∷ buf) h = absurd (omega arith)
xor_bytes-set_past x (suc n) (suc i) v (b ∷ buf) h =
    xor_bytes-set_past (bit_xor x b) n i v buf (omega arith)

All-set : (buf : List ℕ) (i v : ℕ) → IsByte v → All IsByte buf → All IsByte (set buf i v)
All-set [] i v h hs = hs
All-set (b ∷ buf) zero v h hs = (h, hs.1)
All-set (b ∷ buf) (suc i) v h hs = (hs.0, All-set buf i v h hs.1)

-- `u8` cuts nothing off.
pub masked_xor_bytes :
    (n mask : ℕ) (buf : List ℕ)
    → IsByte mask
    → All IsByte buf
    → masked_xor n mask buf ≡ bit_xor (xor_bytes 0 n buf) mask
unfolding masked_xor
masked_xor_bytes n mask buf hm hs =
    omega (arith, xor-lt _ _ (xor_bytes-lt 0 n buf (omega arith) hs) hm)

-- A frame of `n` bytes and their checksum is in order.
abbrev pub IsFrame : ℕ → ℕ → List ℕ → Type 0
IsFrame n mask buf = get_or buf n 0 ≡ masked_xor n mask buf

-- A frame in order is no longer so when one of its bytes is replaced by another byte.
pub IsFrame-set :
    (n mask i v : ℕ) (buf : List ℕ)
    → IsByte mask
    → All IsByte buf
    → IsByte v
    → i < suc n
    → n < length buf
    → IsFrame n mask buf
    → IsFrame n mask (set buf i v)
    → v ≡ get_or buf i 0
IsFrame-set n mask i v buf hm hs hv p q good again = go (dec_lt i n)
  where
    sealed : get_or buf n 0 ≡ bit_xor (xor_bytes 0 n buf) mask
    sealed = good ∙ masked_xor_bytes n mask buf hm hs

    resealed : get_or (set buf i v) n 0 ≡ bit_xor (xor_bytes 0 n (set buf i v)) mask
    resealed = again ∙ masked_xor_bytes n mask (set buf i v) hm (All-set buf i v hv hs)

    go : Dec (i < n) → v ≡ get_or buf i 0
    go (yes lt) = xor_bytes-set_injective 0 n i v buf lt (omega arith) (
        xor_right_injective mask _ _
          (sym resealed ∙ get_or-set_ne buf i n v 0 (omega arith) ∙ sealed))
    go (no ge) =
        let e : i ≡ n = omega arith in
        sym (get_or-set_self buf i v 0 (omega arith))
        ∙ ap (λ k. get_or (set buf i v) k 0) e
        ∙ resealed
        ∙ ap (λ t. bit_xor t mask) (xor_bytes-set_past 0 n i v buf (omega arith))
        ∙ sym sealed
        ∙ sym (ap (λ k. get_or buf k 0) e)

xor_bytes-take : (x n : ℕ) (buf : List ℕ) → xor_bytes x n (take n buf) ≡ xor_bytes x n buf
unfolding xor_bytes
xor_bytes-take x zero buf = refl
xor_bytes-take x (suc n) [] = refl
xor_bytes-take x (suc n) (b ∷ buf) = xor_bytes-take (bit_xor x b) n buf

-- The checksum reads its `n` bytes only.
pub masked_xor-take :
    (n mask : ℕ) (buf : List ℕ) → masked_xor n mask (take n buf) ≡ masked_xor n mask buf
unfolding masked_xor
masked_xor-take n mask buf = rw xor_bytes-take
