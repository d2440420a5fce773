-- ===== src/Bus/Sketch/Writes.antt =====
-- firmware/v2/shared/UnitBusCore.h: the writes of a row master, as a unit takes them.
use split_flap.Common.{
  ℕ, ◌≡◌, refl, ap, ◌∙◌, Option, none, some, List, [], ◌∷◌, Bool, true, ◌!=◌, ltb, if◌then◌else◌,
  if_known, length, ==_iff, arith,
}
use split_flap.Common.Int.{ℤ, pos, negsuc}
use split_flap.Wire.Contract.{
  is_no_arg_mutation, no_arg_guard_byte, no_arg_mutation_accepted, jog_encode, jog_decode,
  set_offset_encode, offset_readback_valid,
}
use split_flap.Bus.Adapter.{Bus, transmit_counted, read}
use split_flap.Bus.Sketch.{
  same_int, judge_offset, jog_byte, send_guarded, send_payload, query, decoded, read_offset,
  write_offset,
}
use split_flap.Bus.Flash.Trace.{Event, sent, got, Traced, traced, fresh}

same_int-≡ : (a b : ℤ) → same_int a b ≡ true → a ≡ b
unfolding same_int
same_int-≡ (pos a) (pos b) h = ap pos ((==_iff a b).0 h)
same_int-≡ (pos a) (negsuc b) h = ground arith
same_int-≡ (negsuc a) (pos b) h = ground arith
same_int-≡ (negsuc a) (negsuc b) h = ap negsuc ((==_iff a b).0 h)

judge_offset_lem : (value : ℤ) (o : Option ℤ) → judge_offset value o ≡ 0 → o ≡ some value
unfolding judge_offset
judge_offset_lem value none h = ground arith
judge_offset_lem value (some r) h = ap some (same_int-≡ r value (ground (arith, h)))

module _ {W : Type 0} (bus : Bus W) (addr : ℕ) where
  -- A reply that was decoded, with what the log has of it.
  Answered : ℤ → List Event → Option ℤ × Traced W → Type 0
  Answered value l (o, t) =
      o ≡ some value
      → (b : List ℕ) × (length b ≡ 3)
        × (offset_readback_valid b 3 ≡ some value)
        × (t.log ≡ got addr (0x82 ∷ []) b ∷ sent addr (0x82 ∷ []) true 0 ∷ l)

  read_offset-Answered :
      (value : ℤ) (t : Traced W) → Answered value t.log (read_offset (traced bus) addr t)
  unfolding read_offset query transmit_counted Answered
  read_offset-Answered value t =
      let b = traced bus in
      let r1 = transmit_counted b addr (0x82 ∷ []) t in
      let r2 = b.receive addr 3 (b.mark read addr (b.sleep_ms 2 r1.1)) in
      let P = λ (r : Option (List ℕ) × Traced W).
        Answered value t.log (decoded (λ buf. offset_readback_valid buf 3) r) in
      if_known P (r1.0 != 0) (none, r1.1) _ (λ e h. absurd (ground (arith, h)))
        (λ e.
          if_known P (length r2.0 != 3) (none, b.read_failed (b.note_read_error r2.1))
            (some r2.0, r2.1) (λ f h. absurd (ground (arith, h)))
            (λ f h.
              let acked : r1.0 ≡ 0 = ground (arith, e) in
              (
                r2.0,
                ground (arith, f),
                h,
                ap (λ n. got addr (0x82 ∷ []) r2.0 ∷ sent addr (0x82 ∷ []) true n ∷ t.log) acked,
              )))

  -- `unitWriteOffset` returns 0 only where the bus ACKed the frame that encodes the value and,
  -- behind it, the unit answered the offset's query with three bytes that decode as that value.
  write_offset-verified :
      (value : ℤ) (w : W)
      → (write_offset (traced bus) addr value (fresh w)).0 ≡ 0
      → (b : List ℕ) × (length b ≡ 3)
        × (offset_readback_valid b 3 ≡ some value)
        × ((write_offset (traced bus) addr value (fresh w)).1.log
            ≡ got addr (0x82 ∷ []) b
              ∷ sent addr (0x82 ∷ []) true 0
              ∷ sent addr (0x93 ∷ set_offset_encode value) true 0
              ∷ [])
  unfolding write_offset send_payload transmit_counted Answered
  write_offset-verified value w =
      let b = traced bus in
      let r1 = send_payload b addr 0x93 (set_offset_encode value) (fresh w) in
      let r2 = read_offset b addr (b.sleep_ms 30 r1.1) in
      let P = λ (r : ℕ × Traced W).
        r.0 ≡ 0
        → (b : List ℕ) × (length b ≡ 3)
          × (offset_readback_valid b 3 ≡ some value)
          × (r.1.log
              ≡ got addr (0x82 ∷ []) b
                ∷ sent addr (0x82 ∷ []) true 0
                ∷ sent addr (0x93 ∷ set_offset_encode value) true 0
                ∷ []) in
      if_known P (r1.0 != 0) (r1.0, r1.1) (judge_offset value r2.0, r2.1)
        (λ e h. absurd (ground (arith, h)))
        (λ e h.
          let acked : r1.0 ≡ 0 = ground (arith, e) in
          let (bytes, l, d, log) =
            read_offset-Answered value (b.sleep_ms 30 r1.1) (judge_offset_lem value r2.0 h) in
          (
            bytes,
            l,
            d,
            log
                ∙ ap
                    (λ n.
                      got addr (0x82 ∷ []) bytes
                      ∷ sent addr (0x82 ∷ []) true 0
                      ∷ sent addr (0x93 ∷ set_offset_encode value) true n
                      ∷ [])
                    acked,
          ))

  -- A guarded command is one transaction, whose opcode and guard byte a unit accepts whatever its
  -- gate, for every opcode of a mutation without arguments but ENTER_BOOTLOADER.
  pub send_guarded-accepted :
      (opcode : ℕ) (strict : Bool) (w : W)
      → is_no_arg_mutation opcode ≡ true
      → ((send_guarded (traced bus) addr opcode (fresh w)).1.log
          ≡ sent addr
              (opcode ∷ no_arg_guard_byte opcode ∷ [])
              true
              (send_guarded (traced bus) addr opcode (fresh w)).0
            ∷ [])
        × (no_arg_mutation_accepted opcode 1 (no_arg_guard_byte opcode) strict ≡ true)
  unfolding send_guarded transmit_counted no_arg_mutation_accepted no_arg_guard_byte
  send_guarded-accepted opcode strict w h = (refl, ground arith)

-- The jog that a unit makes of a row master's order.
abbrev pub clamped_jog : ℤ → ℤ
clamped_jog (pos n) = pos (if ltb 127 n then 127 else n)
clamped_jog (negsuc n) = negsuc (if ltb 126 n then 126 else n)

-- A unit decodes a jog order, whatever its gate, as the steps asked for, cut off at 127 in either
-- direction.
pub jog-decoded :
    (steps : ℤ) (strict : Bool)
    → jog_decode (jog_encode (jog_byte steps)) 2 strict ≡ some (clamped_jog steps)
unfolding jog_decode jog_encode jog_byte
jog-decoded (pos n) strict = ground arith
jog-decoded (negsuc n) strict = ground arith
