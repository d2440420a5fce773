-- ===== src/Link/Transfer.antt =====
-- firmware/v2/link/WallLinkStream.h: a document through wlUnitsPiece and WlDocAssembler.
use split_flap.Common.{
  ℕ, zero, suc, ◌+◌, ◌-◌, ◌<◌, ◌≤◌, ◌≡◌, ◌≢◌, refl, sym, ap, ◌∙◌, List, [], ◌∷◌, ◌++◌, true, false,
  ◌==◌, ltb, leb, if◌then◌else◌, if_known, if_both, if_true, if_false, inl, inr, Bool-cases, length,
  take, u32, sub32, arith,
}
use split_flap.Common.Drop.{drop, length-drop, length-take, take_all, take-add}
use split_flap.Link.Document.{
  piece_max, Piece, units_piece, DocResult, incomplete, complete, DocAssembler, write_at,
  is_malformed, is_out_of_order, put, add, transfer,
}
use split_flap.Link.Pieces.{Fits, write_at-length, take-write_at, add-Fits}

-- The assembler has the bytes before `offset` of a document, and waits for the next.
record Underway (doc_id : ℕ) (doc : List ℕ) (offset : ℕ) (a : DocAssembler) : Type 0 where
  pub active : a.active ≡ true
  pub id : a.doc_id ≡ doc_id
  pub total : a.total ≡ length doc
  pub have : a.have ≡ offset
  pub front : take offset a.buf ≡ take offset doc

module _ (doc_id : ℕ) (doc : List ℕ) (p : Piece) (a : DocAssembler) (fits : Fits a)
    (up : Underway doc_id doc a.have a) where
  put-front :
      p.octets ≡ take (length p.octets) (drop a.have doc)
      → a.have ≤ length doc
      → take (a.have + length p.octets) (write_at a.buf a.have p.octets)
        ≡ take (a.have + length p.octets) doc
  put-front octets le =
      take-write_at a.buf a.have p.octets (omega (arith, fits.size, fits.inside up.active, le))
      ∙ ap (λ xs. xs ++ p.octets) up.front
      ∙ ap (λ xs. take a.have doc ++ xs) octets
      ∙ sym (take-add a.have (length p.octets) doc)

  -- A piece with others behind it.
  put-next :
      p.octets ≡ take (length p.octets) (drop a.have doc)
      → a.have + length p.octets < length doc
      → let (r, b) = put p a in (r ≡ incomplete) × Underway doc_id doc (a.have + length p.octets) b
  unfolding put
  put-next octets lt =
      let (le, small) = fits.inside up.active in
      let have : u32 (a.have + length p.octets) ≡ a.have + length p.octets =
        omega (arith, fits.small, small, up.total, lt) in
      if_known
        (λ (x : DocResult × DocAssembler).
          (x.0 ≡ incomplete) × Underway doc_id doc (a.have + length p.octets) x.1)
        (ltb (u32 (a.have + length p.octets)) a.total) _ _
        (λ t. (
          refl,
          record {
            active = up.active;
            id = up.id;
            total = up.total;
            have = have;
            front = put-front octets (omega (arith, lt));
          },
        ))
        (λ t. absurd (ground (arith, t, have, up.total, lt)))

  -- The last piece.
  put-last :
      p.octets ≡ take (length p.octets) (drop a.have doc)
      → a.have + length p.octets ≡ length doc
      → let (r, b) = put p a in (r ≡ complete) × (take (length doc + 1) b.buf ≡ doc ++ 0 ∷ [])
  unfolding put
  put-last octets e =
      let (le, small) = fits.inside up.active in
      let have : u32 (a.have + length p.octets) ≡ a.have + length p.octets =
        omega (arith, fits.small, small, up.total, e) in
      let w = write_at a.buf a.have p.octets in
      let size =
        write_at-length a.buf a.have p.octets (omega (arith, fits.size, small, up.total, e)) in
      let ends : a.total ≡ a.have + length p.octets = omega (arith, up.total, e) in
      let front : take a.total w ≡ doc =
        ap (λ k. take k w) ends
        ∙ put-front octets (omega (arith, e))
        ∙ ap (λ k. take k doc) e
        ∙ take_all doc in
      let whole : take (length doc + 1) (write_at w a.total (0 ∷ [])) ≡ doc ++ 0 ∷ [] =
        ap (λ k. take (k + 1) (write_at w a.total (0 ∷ []))) (sym up.total)
        ∙ take-write_at w a.total (0 ∷ []) (omega (arith, size, fits.size, small))
        ∙ ap (λ xs. xs ++ 0 ∷ []) front in
      if_known
        (λ (x : DocResult × DocAssembler).
          (x.0 ≡ complete) × (take (length doc + 1) x.1.buf ≡ doc ++ 0 ∷ []))
        (ltb (u32 (a.have + length p.octets)) a.total) _ _
        (λ t. absurd (ground (arith, t, have, up.total, e))) (λ t. (refl, whole))

-- The pieces of a document in their order.
module _ (doc_id : ℕ) (doc : List ℕ) where
  abbrev piece : ℕ → Piece
  piece offset = (units_piece doc_id doc (length doc) offset).0

  -- The next piece has the bytes up to the next offset, one at least.
  piece_lem :
      (offset : ℕ)
      → offset < length doc
      → length doc < 4294967296
      → let k = length (piece offset).octets in
        (0 < k)
        × (offset + k ≤ length doc)
        × ((units_piece doc_id doc (length doc) offset).1 ≡ offset + k)
        × ((piece offset).octets ≡ take k (drop offset doc))
  unfolding units_piece
  piece_lem offset lt small =
      let n =
        if ltb piece_max (sub32 (length doc) offset)
        then piece_max
        else sub32 (length doc) offset in
      let pos : 0 < n = ground (arith, lt, small) in
      let le : offset + n ≤ length doc = ground (arith, lt, small) in
      let k : length (take n (drop offset doc)) ≡ n =
        length-take n (drop offset doc) (omega (arith, length-drop offset doc, le)) in
      (
        omega (arith, k, pos),
        omega (arith, k, le),
        omega (arith, k, le, small),
        ap (λ j. take j (drop offset doc)) (sym k),
      )

  -- A piece in its order is put into the buffer, where the assembler starts the document or waits for it.
  add-put :
      (offset : ℕ) (a : DocAssembler)
      → offset < length doc
      → length doc < a.cap
      → Fits a
      → (offset ≢ 0 → Underway doc_id doc offset a)
      → (b : DocAssembler) × Fits b
        × Underway doc_id doc offset b
        × (b.cap ≡ a.cap)
        × (add (piece offset) a ≡ put (piece offset) b)
  unfolding add is_malformed is_out_of_order units_piece
  add-put offset a lt room fits up =
      let (pos, le, next, octets) = piece_lem offset lt (omega (arith, room, fits.small)) in
      let well : is_malformed (piece offset) a ≡ false = ground (arith, lt, room, le) in
      elim (Bool-cases (offset == 0)) [
        | inl z ↦
            let zero : offset ≡ 0 = ground (arith, z) in
            let b : DocAssembler = record a {
              doc_id = doc_id;
              total = length doc;
              have = 0;
              active = true;
            } in
            (
              b,
              record { size = fits.size; small = fits.small; inside = λ t. (omega arith, room) },
              record {
                active = refl;
                id = refl;
                total = refl;
                have = sym zero;
                front = ap (λ k. take k b.buf) zero ∙ ap (λ k. take k doc) (sym zero);
              },
              refl,
              if_false _ _ _ well ∙ if_true _ _ _ z,
            )
        | inr z ↦
            let u = up (ground (arith, z)) in
            let next : is_out_of_order (piece offset) a ≡ false =
              ground (arith, u.active, u.id, u.total, u.have) in
            (a, fits, u, refl, if_false _ _ _ well ∙ if_false _ _ _ z ∙ if_false _ _ _ next)
      ]

  put-cap : (p : Piece) (b : DocAssembler) → (put p b).1.cap ≡ b.cap
  unfolding put
  put-cap p b = if_both (λ (x : DocResult × DocAssembler). x.1.cap ≡ b.cap) _ _ _ refl refl

  -- The rest of a document.
  rest_transfers :
      (n offset : ℕ) (a : DocAssembler)
      → offset < length doc
      → length doc - offset ≤ n
      → length doc < a.cap
      → Fits a
      → (offset ≢ 0 → Underway doc_id doc offset a)
      → let (r, b) = transfer n doc_id doc (length doc) offset a in
        (r ≡ complete) × (take (length doc + 1) b.buf ≡ doc ++ 0 ∷ [])
  unfolding transfer
  rest_transfers zero offset a lt l room fits up = absurd (omega (arith, lt, l))
  rest_transfers (suc n) offset a lt l room fits up =
      let (pos, le, next, octets) = piece_lem offset lt (omega (arith, room, fits.small)) in
      let (b, ok, u, cap, e) = add-put offset a lt room fits up in
      let here : Underway doc_id doc b.have b = record {
        active = u.active;
        id = u.id;
        total = u.total;
        have = refl;
        front = rw u.have u.front;
      } in
      let q = piece offset in
      let k = length q.octets in
      let after = (units_piece doc_id doc (length doc) offset).1 in
      let part : q.octets ≡ take k (drop b.have doc) = rw u.have octets in
      let there : after ≡ b.have + k = omega (arith, next, u.have) in
      if_known
        (λ (x : DocResult × DocAssembler).
          (x.0 ≡ complete) × (take (length doc + 1) x.1.buf ≡ doc ++ 0 ∷ []))
        (leb (length doc) after) _ _
        (λ t. rw e (put-last doc_id doc q b ok here part (ground (arith, t, there, next, le))))
        (λ t.
          let lt' : after < length doc = ground (arith, t) in
          let up' : Underway doc_id doc after (put q b).1 =
            rw there (put-next doc_id doc q b ok here part (omega (arith, lt', there))).1 in
          rest_transfers n after (add q a).1 lt' (omega (arith, next, pos, l))
            (rw (e, put-cap q b, cap) room) (add-Fits q a fits) (λ z. rw e up'))

  -- A document sent in its pieces, from the first on, ends up whole and terminated in the buffer of
  -- the assembler, whatever that held and was waiting for: the last piece is answered `Complete`. The
  -- document is not empty, and shorter than the buffer, which the assembler fits at first.
  pub transfer-complete :
      (a : DocAssembler)
      → 0 < length doc
      → length doc < a.cap
      → Fits a
      → let (r, b) = transfer (length doc) doc_id doc (length doc) 0 a in
        (r ≡ complete) × (take (length doc + 1) b.buf ≡ doc ++ 0 ∷ [])
  transfer-complete a some room fits =
      rest_transfers (length doc) 0 a some (omega arith) room fits (λ z. absurd (z refl))
