-- ===== src/Unit/Odometer/Recovery.antt =====
-- What a unit finds in its ring at boot: the count that was persisted last, also after a power loss
-- in the middle of a persist.
use split_flap.Common.{
  ℕ, zero, suc, ◌+◌, ◌/◌, ◌≤◌, ◌<◌, ◌≡◌, ◌≢◌, ◌⊎◌, inl, inr, refl, ◌∙◌, List, [], ◌∷◌, arith,
  length, set, get_or, All, replicate, length-set, get_or-set_self, get_or-set_ne,
}
use split_flap.Unit.Odometer.{
  ring_slots, slot_index, slot_checksum, Slot, erased, boot_scan_slot, boot_scan_from, boot_scan,
  persist, torn_value, torn_persist, reset_ring,
}
use native.Mathlib.Nat.{div-add-mod', mul-le-mul_right, div-mul-le_self, le-div_iff_mul-le}

-- A slot that recovery would adopt as a count above `r`.
abbrev pub Within : ℕ → Slot → Type 0
Within r slot = slot.value ≢ 0xffff_ffff → slot.sum ≡ slot_checksum slot.value → slot.value ≤ r

-- The ring of a unit that persisted `r` last: no slot claims more, and the slot of `r` holds it.
pub record Holds (r : ℕ) (ring : List Slot) : Type 0 where
  pub full : length ring ≡ ring_slots
  pub within : All (Within r) ring
  pub newest :
      (r ≡ 0) ⊎ (get_or ring (slot_index r) erased ≡ record { value = r; sum = slot_checksum r })

boot_scan_slot-le :
    (best r : ℕ) (slot : Slot) → best ≤ r → Within r slot → boot_scan_slot best slot ≤ r
unfolding boot_scan_slot
boot_scan_slot-le best r slot h w = ground arith

boot_scan_slot-grows : (best : ℕ) (slot : Slot) → best ≤ boot_scan_slot best slot
unfolding boot_scan_slot
boot_scan_slot-grows best slot = ground arith

boot_scan_slot-takes :
    (best r : ℕ)
    → r ≢ 0xffff_ffff
    → r ≤ boot_scan_slot best (record { value = r; sum = slot_checksum r })
unfolding boot_scan_slot
boot_scan_slot-takes best r h = ground arith

boot_scan_from-le :
    (best r : ℕ) (ring : List Slot) → best ≤ r → All (Within r) ring → boot_scan_from best ring ≤ r
unfolding boot_scan_from
boot_scan_from-le best r [] h w = h
boot_scan_from-le best r (slot ∷ ring) h w =
    boot_scan_from-le (boot_scan_slot best slot) r ring (boot_scan_slot-le best r slot h w.0) w.1

boot_scan_from-grows : (best : ℕ) (ring : List Slot) → best ≤ boot_scan_from best ring
unfolding boot_scan_from
boot_scan_from-grows best [] = omega arith
boot_scan_from-grows best (slot ∷ ring) =
    omega
      (arith, boot_scan_slot-grows best slot, boot_scan_from-grows (boot_scan_slot best slot) ring)

-- A slot with its checksum is not missed, wherever it stands.
boot_scan_from-takes :
    (best r i : ℕ) (ring : List Slot)
    → r ≢ 0xffff_ffff
    → i < length ring
    → get_or ring i erased ≡ record { value = r; sum = slot_checksum r }
    → r ≤ boot_scan_from best ring
unfolding boot_scan_from
boot_scan_from-takes best r i [] ne h e = absurd (omega arith)
boot_scan_from-takes best r zero (slot ∷ ring) ne h e = rw e (
    omega (
      arith,
      boot_scan_slot-takes best r ne,
      boot_scan_from-grows (boot_scan_slot best (record { value = r; sum = slot_checksum r })) ring,
    ))
boot_scan_from-takes best r (suc i) (slot ∷ ring) ne h e =
    boot_scan_from-takes (boot_scan_slot best slot) r i ring ne (omega arith) e

slot_index-lt : (r : ℕ) → slot_index r < ring_slots
unfolding slot_index
slot_index-lt r = omega arith

-- A ring on which no valid slot claims more than `r` and the slot of `r` holds it is recovered as
-- `r`, for `r` below the erased value.
pub boot_scan-Holds :
    (r : ℕ) (ring : List Slot) → r < 0xffff_ffff → Holds r ring → boot_scan ring ≡ r
unfolding boot_scan
boot_scan-Holds r ring fits h =
    let top = boot_scan_from-le 0 r ring (omega arith) h.within in
    let found : r ≤ boot_scan_from 0 ring = elim h.newest [
      | inl z ↦ omega arith
      | inr e ↦
          boot_scan_from-takes 0 r (slot_index r) ring (omega arith)
            (omega (arith, slot_index-lt r, h.full)) e
    ] in
    omega arith

All-set :
    (P : Slot → Type 0) (ring : List Slot) (i : ℕ) (slot : Slot)
    → P slot
    → All P ring
    → All P (set ring i slot)
All-set P [] i slot p ps = ps
All-set P (x ∷ ring) zero slot p ps = (p, ps.1)
All-set P (x ∷ ring) (suc i) slot p ps = (ps.0, All-set P ring i slot p ps.1)

All-map :
    (P Q : Slot → Type 0) (ring : List Slot)
    → ((slot : Slot) → P slot → Q slot)
    → All P ring
    → All Q ring
All-map P Q [] f ps = ps
All-map P Q (x ∷ ring) f ps = (f x ps.0, All-map P Q ring f ps.1)

widen : (r q : ℕ) (ring : List Slot) → r ≤ q → All (Within r) ring → All (Within q) ring
widen r q ring h w = All-map (Within r) (Within q) ring (λ slot p ne e. omega (arith, p ne e, h)) w

-- A persist of a count that is not smaller keeps that so, for the new count.
pub persist-Holds : (r q : ℕ) (ring : List Slot) → r ≤ q → Holds r ring → Holds q (persist ring q)
unfolding persist
persist-Holds r q ring h held = record {
  full = length-set ring (slot_index q) _ ∙ held.full;
  within =
      All-set (Within q) ring (slot_index q) _ (λ ne e. omega arith) (widen r q ring h held.within);
  newest =
      inr
        (get_or-set_self ring (slot_index q) _ erased (omega (arith, slot_index-lt q, held.full)));
}

-- The slots of a ring that was zeroed or has been round once hold no count above `r`.
abbrev pub AtMost : ℕ → Slot → Type 0
AtMost r slot = slot.value ≤ r

torn_value-le : (base old q : ℕ) → 0 < base → old ≤ q → torn_value base old q ≤ q
unfolding torn_value
torn_value-le base old q pos h =
    let halves : old / base ≤ q / base =
      (le-div_iff_mul-le {k = base} pos).1 (omega (arith, div-mul-le_self old base)) in
    omega (arith, div-add-mod' q base, mul-le-mul_right base halves)

slot_index-ne-suc : (r : ℕ) → slot_index (r + 1) ≢ slot_index r
unfolding slot_index
slot_index-ne-suc r = omega arith

get_or-AtMost :
    (r i : ℕ) (ring : List Slot)
    → i < length ring
    → All (AtMost r) ring
    → (get_or ring i erased).value ≤ r
get_or-AtMost r i [] h w = absurd (omega arith)
get_or-AtMost r zero (slot ∷ ring) h w = w.0
get_or-AtMost r (suc i) (slot ∷ ring) h w = get_or-AtMost r i ring (omega arith) w.1

-- On a full ring whose slots hold no count above `r`, and whose slot of `r` holds it with its checksum
-- (or `r` is 0), for `r + 1` below 2 ^ 32 - 1: a persist of the next count that writes only the part
-- of it below `base` (256 ^ j where a power loss let j bytes through) and no checksum leaves the unit
-- at the count before or at the new one.
pub torn_persist_recovers :
    (r base : ℕ) (ring : List Slot)
    → r + 1 < 0xffff_ffff
    → 0 < base
    → Holds r ring
    → All (AtMost r) ring
    → (boot_scan (torn_persist base ring (r + 1)) ≡ r)
      ⊎ (boot_scan (torn_persist base ring (r + 1)) ≡ r + 1)
unfolding boot_scan torn_persist
torn_persist_recovers r base ring fits pos held low =
    let q = r + 1 in
    let i = slot_index q in
    let old = get_or ring i erased in
    let torn = record old { value = torn_value base old.value q } in
    let inside : i < length ring = omega (arith, slot_index-lt q, held.full) in
    let small : torn_value base old.value q ≤ q =
      torn_value-le base old.value q pos (omega (arith, get_or-AtMost r i ring inside low)) in
    let top : boot_scan_from 0 (set ring i torn) ≤ q =
      boot_scan_from-le 0 q (set ring i torn) (omega arith) (
        All-set (Within q) ring i torn (λ ne e. small)
          (widen r q ring (omega arith) held.within)) in
    let kept : r ≤ boot_scan_from 0 (set ring i torn) = elim held.newest [
      | inl z ↦ omega arith
      | inr e ↦
          boot_scan_from-takes 0 r (slot_index r) (set ring i torn) (omega arith)
            (omega (arith, slot_index-lt r, held.full, length-set ring i torn))
            (get_or-set_ne ring i (slot_index r) torn erased (slot_index-ne-suc r) ∙ e)
    ] in
    omega arith

-- A zeroed ring holds the count 0.
pub reset_ring-Holds : Holds 0 reset_ring
unfolding reset_ring
reset_ring-Holds = record { full = refl; within = ground arith; newest = inl refl }

-- A ring of erased slots holds the count 0 as well.
pub erased_ring-Holds : Holds 0 (replicate ring_slots erased)
erased_ring-Holds = record { full = refl; within = ground arith; newest = inl refl }

-- The persists of a unit that counts from `r`, one revolution at a time.
pub persist_run : List Slot → ℕ → ℕ → List Slot
persist_run ring r zero = ring
persist_run ring r (suc n) = persist_run (persist ring (r + 1)) (r + 1) n

persist_run-Holds :
    (ring : List Slot) (r n q : ℕ) → r + n ≡ q → Holds r ring → Holds q (persist_run ring r n)
unfolding persist_run
persist_run-Holds ring r zero q e h = let e' : r ≡ q = omega arith in rw (← e') h
persist_run-Holds ring r (suc n) q e h =
    persist_run-Holds (persist ring (r + 1)) (r + 1) n q (omega arith)
      (persist-Holds r (r + 1) ring (omega arith) h)

-- A unit that has turned `n` revolutions since its ring was erased or zeroed, and that persisted
-- each of them, recovers `n` at boot, however often the ring has been round.
pub boot_scan-persist_run :
    (ring : List Slot) (n : ℕ)
    → n < 0xffff_ffff
    → (ring ≡ replicate ring_slots erased) ⊎ (ring ≡ reset_ring)
    → boot_scan (persist_run ring 0 n) ≡ n
boot_scan-persist_run ring n fits fresh =
    boot_scan-Holds n _ fits (persist_run-Holds ring 0 n n (omega arith) start)
  where
    start : Holds 0 ring
    start = elim fresh [ inl e ↦ rw e erased_ring-Holds | inr e ↦ rw e reset_ring-Holds ]
