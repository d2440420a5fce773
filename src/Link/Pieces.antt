-- ===== src/Link/Pieces.antt =====
-- firmware/v2/link/WallLinkStream.h: the assembler of documents and its buffer.
use split_flap.Common.{
  ℕ, ◌+◌, ◌-◌, ◌<◌, ◌≤◌, ◌≡◌, refl, sym, ap, ◌∙◌, List, [], ◌∷◌, ◌++◌, true, false, ◌==◌, ltb,
  if_known, if_both, length, length-append, take, u32, arith,
}
use split_flap.Common.Drop.{drop, take-length, length-drop, length-take}
use split_flap.Link.Document.{
  Piece, DocResult, DocAssembler, write_at, is_malformed, is_out_of_order, put, add, add_all,
}

pub write_at-length :
    (buf : List ℕ) (pos : ℕ) (octets : List ℕ)
    → pos + length octets ≤ length buf
    → length (write_at buf pos octets) ≡ length buf
unfolding write_at
write_at-length buf pos octets h = omega (
  arith,
  length-append (take pos buf ++ octets) (drop (pos + length octets) buf),
  length-append (take pos buf) octets,
  length-take pos buf (omega (arith, h)),
  length-drop (pos + length octets) buf,
  h,
)

pub take-write_at :
    (buf : List ℕ) (pos : ℕ) (octets : List ℕ)
    → pos ≤ length buf
    → take (pos + length octets) (write_at buf pos octets) ≡ take pos buf ++ octets
unfolding write_at
take-write_at buf pos octets h =
    let front = take pos buf ++ octets in
    let n : length front ≡ pos + length octets =
      omega (arith, length-append (take pos buf) octets, length-take pos buf h) in
    ap (λ k. take k (front ++ drop (pos + length octets) buf)) (sym n)
    ∙ take-length front (drop (pos + length octets) buf)

-- The buffer is as long as it was made, and a document that is under way fits it.
pub record Fits (a : DocAssembler) : Type 0 where
  pub size : length a.buf ≡ a.cap
  pub small : a.cap < 4294967296
  pub inside : a.active ≡ true → (a.have ≤ a.total) × (a.total < a.cap)

put-Fits :
    (p : Piece) (a : DocAssembler)
    → Fits a
    → a.active ≡ true
    → length p.octets ≤ a.total - a.have
    → Fits (put p a).1
unfolding put
put-Fits p a fits active h =
    let (le, lt) = fits.inside active in
    let have : u32 (a.have + length p.octets) ≡ a.have + length p.octets =
      omega (arith, fits.small, le, lt, h) in
    let size : length (write_at a.buf a.have p.octets) ≡ a.cap =
      write_at-length a.buf a.have p.octets (omega (arith, fits.size, le, lt, h)) ∙ fits.size in
    if_both (λ (x : DocResult × DocAssembler). Fits x.1)
      (ltb (u32 (a.have + length p.octets)) a.total) _ _
      (record { size = size; small = fits.small; inside = λ t. (omega (arith, have, le, h), lt) })
      (record {
        size = write_at-length _ a.total (0 ∷ []) (omega (arith, size, lt)) ∙ size;
        small = fits.small;
        inside = λ t. absurd (ground (arith, t));
      })

refused-Fits : (a : DocAssembler) → Fits a → Fits (record a { active = false })
refused-Fits a fits = record {
  size = fits.size;
  small = fits.small;
  inside = λ t. absurd (ground (arith, t));
}

pub add-Fits : (p : Piece) (a : DocAssembler) → Fits a → Fits (add p a).1
unfolding add is_malformed is_out_of_order
add-Fits p a fits =
    let start : DocAssembler = record a {
      doc_id = p.doc_id;
      total = p.total;
      have = 0;
      active = true;
    } in
    let P = λ (x : DocResult × DocAssembler). Fits x.1 in
    if_known P (is_malformed p a) _ _ (λ t. refused-Fits a fits)
      (λ t.
        if_known P (p.offset == 0) _ _
          (λ z.
            put-Fits p start
              (record {
                size = fits.size;
                small = fits.small;
                inside = λ w. (omega arith, ground (arith, t));
              })
              refl (ground (arith, t, z)))
          (λ z.
            if_known P (is_out_of_order p a) _ _ (λ w. refused-Fits a fits)
              (λ w. put-Fits p a fits (ground (arith, w)) (ground (arith, t, w)))))

-- Whatever pieces come to an assembler that fits its buffer of less than 2^32 bytes, nothing is written
-- past the end of that, and a document that is under way fits it with its terminator.
pub add_all-Fits : (ps : List Piece) (a : DocAssembler) → Fits a → Fits (add_all ps a)
unfolding add_all
add_all-Fits [] a fits = fits
add_all-Fits (p ∷ ps) a fits = add_all-Fits ps _ (add-Fits p a fits)
