-- ===== src/Wire/Detect.antt =====
-- What the readers of firmware/v2/shared reject: each reply of a unit with a checksum, read by its
-- own decoder.
use split_flap.Common.{
  ℕ, suc, ◌<◌, bit_xor, ◌≡◌, ◌≢◌, sym, ◌∙◌, Option, none, some, List, [], ◌∷◌, Bool, true, false,
  arith, length, replicate, get_or, set, All, IsByte, Bool-cases, inl, inr, length-set,
  length-replicate, u8,
}
use split_flap.Common.Xor.{zero-xor, xor_self, xor_comm, xor_left_injective, xor-lt}
use split_flap.Wire.Checksum.{xor_bytes, masked_xor, IsFrame, IsFrame-set}
use split_flap.Wire.Contract.{
  version_readback_valid, status_readback_valid, offset_readback_valid, version_checksum,
  status_checksum, offset_checksum,
}
use split_flap.Wire.BusRecord.{bus_record_readback_valid, bus_record_checksum}
use split_flap.Wire.Replies.{
  odometer_sum, odometer_readback_valid, diag_sum, diag_readback_valid, self_test_readback_valid,
  vitals_readback_valid, vitals_checksum,
}

pub data Reply : Type 0 where
  version status offset odometer diag self_test vitals bus_record : Reply

-- The bytes in front of the checksum, and its mask.
abbrev pub payload_len : Reply → ℕ
payload_len version = 9
payload_len status = 8
payload_len offset = 2
payload_len odometer = 4
payload_len diag = 5
payload_len self_test = 8
payload_len vitals = 7
payload_len bus_record = 8

abbrev pub mask : Reply → ℕ
mask version = 0x4b
mask status = 0x7e
mask offset = 0x1d
mask odometer = 0xa5
mask diag = 0xb7
mask self_test = 0x5c
mask vitals = 0x3c
mask bus_record = 0xd4

abbrev is_some {ℓ} : {A : Type ℓ} → Option A → Bool
is_some none = false
is_some (some _) = true

-- Whether the reply's decoder takes `buf`, on a row of 45 flaps.
unfoldable pub accepts : Reply → List ℕ → Bool
unfolding version_readback_valid status_readback_valid offset_readback_valid
accepts version buf = is_some (version_readback_valid buf (length buf))
accepts status buf = is_some (status_readback_valid buf (length buf))
accepts offset buf = is_some (offset_readback_valid buf (length buf))
accepts odometer buf = is_some (odometer_readback_valid buf)
accepts diag buf = is_some (diag_readback_valid buf 45)
accepts self_test buf = is_some (self_test_readback_valid buf)
accepts vitals buf = is_some (vitals_readback_valid buf)
accepts bus_record buf = is_some (bus_record_readback_valid buf (length buf))

offset_checksum_lem : (buf : List ℕ) → length buf ≡ 3 → offset_checksum buf ≡ masked_xor 2 0x1d buf
unfolding offset_checksum masked_xor xor_bytes
offset_checksum_lem (a ∷ b ∷ buf) h = rw (zero-xor a)
offset_checksum_lem (a ∷ []) h = absurd (omega arith)
offset_checksum_lem [] h = absurd (omega arith)

odometer_sum_lem : (buf : List ℕ) → length buf ≡ 5 → odometer_sum buf ≡ masked_xor 4 0xa5 buf
unfolding odometer_sum masked_xor xor_bytes
odometer_sum_lem (a ∷ b ∷ c ∷ d ∷ buf) h = rw (zero-xor a)
odometer_sum_lem _ h = absurd (omega arith)

diag_sum_lem : (buf : List ℕ) → length buf ≡ 6 → diag_sum buf ≡ masked_xor 5 0xb7 buf
unfolding diag_sum masked_xor xor_bytes
diag_sum_lem (a ∷ b ∷ c ∷ d ∷ e ∷ buf) h = rw (zero-xor a)
diag_sum_lem _ h = absurd (omega arith)

-- An accepted reply is a frame in order.
accepts-IsFrame :
    (r : Reply) (buf : List ℕ)
    → length buf ≡ suc (payload_len r)
    → accepts r buf ≡ true
    → IsFrame (payload_len r) (mask r) buf
unfolding accepts version_readback_valid status_readback_valid offset_readback_valid
    odometer_readback_valid diag_readback_valid self_test_readback_valid vitals_readback_valid
    bus_record_readback_valid version_checksum status_checksum vitals_checksum bus_record_checksum
accepts-IsFrame version buf n h = ground arith
accepts-IsFrame status buf n h = ground arith
accepts-IsFrame offset buf n h = ground (arith, offset_checksum_lem buf n)
accepts-IsFrame odometer buf n h = ground (arith, odometer_sum_lem buf n)
accepts-IsFrame diag buf n h = ground (arith, diag_sum_lem buf n)
accepts-IsFrame self_test buf n h = ground arith
accepts-IsFrame vitals buf n h = ground arith
accepts-IsFrame bus_record buf n h = ground arith

mask-IsByte : (r : Reply) → IsByte (mask r)
mask-IsByte version = omega arith
mask-IsByte _ = omega arith

-- A reply that its decoder takes is no longer taken when any one of its bytes, the checksum
-- included, arrives as another byte: no single corrupted byte goes unnoticed, in any of the eight
-- replies.
pub single_byte_error_rejected :
    (r : Reply) (buf : List ℕ) (i v : ℕ)
    → length buf ≡ suc (payload_len r)
    → All IsByte buf
    → IsByte v
    → i < suc (payload_len r)
    → v ≢ get_or buf i 0
    → accepts r buf ≡ true
    → accepts r (set buf i v) ≡ false
single_byte_error_rejected r buf i v len bytes hv hi other taken =
    elim (Bool-cases (accepts r (set buf i v))) [
      | inl again ↦ absurd (
          other (
            IsFrame-set (payload_len r) (mask r) i v buf (mask-IsByte r) bytes hv hi (omega arith)
              (accepts-IsFrame r buf len taken)
              (accepts-IsFrame r (set buf i v) (length-set buf i v ∙ len) again)))
      | inr refused ↦ refused
    ]

-- A second mask makes an odd number of equal bytes differ from any of them.
odd_differs : (b m : ℕ) → IsByte b → IsByte m → b ≡ u8 (bit_xor b m) → m ≡ 0
odd_differs b m hb hm e =
    xor_left_injective b m 0 (omega (arith, xor-lt b m hb hm) ∙ sym (zero-xor b) ∙ xor_comm 0 b)

idle_frame :
    (r : Reply) (b : ℕ)
    → IsByte b
    → IsFrame (payload_len r) (mask r) (replicate (suc (payload_len r)) b)
    → b ≡ mask r
unfolding masked_xor xor_bytes
idle_frame version b h e =
    absurd (omega (arith, odd_differs b 0x4b h (omega arith) (simp (zero-xor, xor_self) at e)))
idle_frame status b h e = simp (zero-xor, xor_self) at e
idle_frame offset b h e = simp (zero-xor, xor_self) at e
idle_frame odometer b h e = simp (zero-xor, xor_self) at e
idle_frame diag b h e =
    absurd (omega (arith, odd_differs b 0xb7 h (omega arith) (simp (zero-xor, xor_self) at e)))
idle_frame self_test b h e = simp (zero-xor, xor_self) at e
idle_frame vitals b h e =
    absurd (omega (arith, odd_differs b 0x3c h (omega arith) (simp (zero-xor, xor_self) at e)))
idle_frame bus_record b h e = simp (zero-xor, xor_self) at e

-- A bus that repeats one byte `b`, as a unit without the opcode does with its status byte and an
-- idle bus with 0xFF, is taken for no reply at all, unless `b` is that reply's own mask.
pub repeated_byte_rejected :
    (r : Reply) (b : ℕ)
    → IsByte b
    → b ≢ mask r
    → accepts r (replicate (suc (payload_len r)) b) ≡ false
repeated_byte_rejected r b h other =
    elim (Bool-cases (accepts r (replicate (suc (payload_len r)) b))) [
      | inl taken ↦
          absurd (other (idle_frame r b h (accepts-IsFrame r _ (length-replicate _ b) taken)))
      | inr refused ↦ refused
    ]
