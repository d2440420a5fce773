-- ===== src/Link/Tests.antt =====
-- firmware/v2/link/WallLinkStream.h, Master/WallLinkCore.h: two messages in three chunks, and a
-- document in two pieces.
use split_flap.Common.{
  replicate, ◌+◌, ◌++◌, length, take, ℕ, ◌≡◌, refl, List, [], ◌∷◌, Bool, true, false, All, arith,
}
use split_flap.Link.Document.{Piece, DocAssembler, complete, transfer, add_all}
use split_flap.Link.Pieces.{Fits, add_all-Fits}
use split_flap.Link.Transfer.{transfer-complete}
use split_flap.Link.Stream.{bytes, all_bytes, parse}
use split_flap.Link.Framing.{Frame, IsFrame}
use split_flap.Link.Chunks.{all_bytes-handle_all}

-- The caller keeps the bodies, and closes at an empty one.
abbrev keeps : List ℕ → List (List ℕ) → Bool × List (List ℕ)
keeps [] s = (false, s)
keeps (b ∷ body) s = (true, (b ∷ body) ∷ s)

-- The second prefix takes two bytes, as a varint may.
abbrev two_frames : List Frame
two_frames =
    record { prefix = 2 ∷ []; body = 7 ∷ 8 ∷ [] }
    ∷ record { prefix = 129 ∷ 0 ∷ []; body = 5 ∷ [] }
    ∷ []

abbrev three_chunks : List (List ℕ)
three_chunks = (2 ∷ []) ∷ (7 ∷ 8 ∷ 129 ∷ []) ∷ (0 ∷ 5 ∷ []) ∷ []

two_frames-IsFrame : All (IsFrame 10) two_frames
two_frames-IsFrame = (
  record { says = (omega arith, refl); small = omega arith },
  (record { says = (omega arith, omega arith, omega arith, refl); small = omega arith }, tt),
)

all_bytes-handle_all_example :
    let c =
      all_bytes 10 keeps (λ s. s) three_chunks (record { open_ = true; buf = []; caller = [] }) in
    (c.open_ ≡ true) × (c.caller ≡ (5 ∷ []) ∷ (7 ∷ 8 ∷ []) ∷ [])
all_bytes-handle_all_example =
    all_bytes-handle_all 10 keeps (λ s. s) two_frames three_chunks [] two_frames-IsFrame refl

-- A length beyond the limit closes the connection.
abbrev after_long : Bool
after_long =
    (bytes 10 keeps (λ s. s) (11 ∷ 1 ∷ []) (record { open_ = true; buf = []; caller = [] })).open_

long_message_closes : after_long ≡ false
unfolding bytes parse
long_message_closes = refl

abbrev long_doc : List ℕ
long_doc = replicate 482 65

-- An assembler in the middle of another document.
abbrev other_doc : DocAssembler
other_doc = record {
  buf = replicate 600 1;
  cap = 600;
  doc_id = 3;
  total = 20;
  have = 5;
  active = true;
}

other_doc-Fits : Fits other_doc
other_doc-Fits = record {
  size = refl;
  small = omega arith;
  inside = λ t. (omega arith, omega arith);
}

transfer-complete_example :
    let (r, b) = transfer (length long_doc) 7 long_doc (length long_doc) 0 other_doc in
    (r ≡ complete) × (take (length long_doc + 1) b.buf ≡ long_doc ++ 0 ∷ [])
transfer-complete_example =
    transfer-complete 7 long_doc other_doc (omega arith) (omega arith) other_doc-Fits

-- The next piece of that document, and one that claims more than its total.
abbrev two_pieces : List Piece
two_pieces =
    record { doc_id = 3; offset = 5; total = 20; octets = 1 ∷ 2 ∷ [] }
    ∷ record { doc_id = 3; offset = 19; total = 20; octets = 1 ∷ 2 ∷ [] }
    ∷ []

add_all-Fits_example : Fits (add_all two_pieces other_doc)
add_all-Fits_example = add_all-Fits two_pieces other_doc other_doc-Fits
