-- ===== src/Link/Document.antt =====
-- firmware/v2/link/WallLinkStream.h: a document in pieces (wlUnitsPiece, WlDocAssembler), sent by the
-- row as FollowerEsp01/FollowerLink.cpp sends it. The buffer of the caller is a list of bytes.
use split_flap.Common.{
  ℕ, zero, suc, ◌+◌, ◌-◌, List, [], ◌∷◌, ◌++◌, Bool, true, false, not, ◌||◌, ◌==◌, ◌!=◌, ltb, leb,
  if◌then◌else◌, length, take, u32, sub32,
}
use split_flap.Common.Drop.{drop}

-- `sizeof(u.data.bytes)`, the max_size of wall_link.options.
abbrev pub piece_max : ℕ
piece_max = 480

-- `wl_UnitsJson`
pub record Piece : Type 0 where
  pub doc_id : ℕ
  pub offset : ℕ
  pub total : ℕ
  pub octets : List ℕ

-- `wlUnitsPiece`: the piece, and the offset of the next one.
unfoldable pub units_piece : ℕ → List ℕ → ℕ → ℕ → Piece × ℕ
units_piece doc_id doc total offset =
    let rest = sub32 total offset in
    let n = if ltb piece_max rest then piece_max else rest in
    (
      record { doc_id = doc_id; offset = offset; total = total; octets = take n (drop offset doc) },
      u32 (offset + n),
    )

-- `WlDocAssembler::Result`
pub data DocResult : Type 0 where
  incomplete complete rejected : DocResult

-- `WlDocAssembler`
pub record DocAssembler : Type 0 where
  pub buf : List ℕ
  pub cap : ℕ
  pub doc_id : ℕ
  pub total : ℕ
  pub have : ℕ
  pub active : Bool

-- `memcpy` to a place in a buffer; a write past its end makes it longer.
unfoldable pub write_at : List ℕ → ℕ → List ℕ → List ℕ
write_at buf pos octets = take pos buf ++ octets ++ drop (pos + length octets) buf

-- The end of `add`.
unfoldable pub put : Piece → DocAssembler → DocResult × DocAssembler
unfolding write_at
put p a =
    let b = record a {
      buf = write_at a.buf a.have p.octets;
      have = u32 (a.have + length p.octets);
    } in
    if ltb b.have b.total
    then (incomplete, b)
    else (complete, record b { buf = write_at b.buf b.total (0 ∷ []); active = false })

-- A piece that no buffer of this size takes.
unfoldable pub is_malformed : Piece → DocAssembler → Bool
is_malformed p a =
    p.total == 0
    || leb a.cap p.total
    || ltb p.total p.offset
    || ltb (p.total - p.offset) (length p.octets)

-- A piece that is not the next one of the document.
unfoldable pub is_out_of_order : Piece → DocAssembler → Bool
is_out_of_order p a =
    not a.active || p.doc_id != a.doc_id || p.total != a.total || p.offset != a.have

-- `WlDocAssembler::add`
unfoldable pub add : Piece → DocAssembler → DocResult × DocAssembler
add p a =
    if is_malformed p a
    then (rejected, record a { active = false })
    else if p.offset == 0
    then put p (record a { doc_id = p.doc_id; total = p.total; have = 0; active = true })
    else if is_out_of_order p a
    then (rejected, record a { active = false })
    else put p a

-- The pieces that are left of a document, each added, `n` at most.
unfoldable pub transfer : ℕ → ℕ → List ℕ → ℕ → ℕ → DocAssembler → DocResult × DocAssembler
unfolding units_piece add
transfer zero doc_id doc total offset a = (incomplete, a)
transfer (suc n) doc_id doc total offset a =
    let (p, next) = units_piece doc_id doc total offset in
    let (r, b) = add p a in
    let rest = transfer n doc_id doc total next b in if leb total next then (r, b) else rest

-- Pieces of any kind, in any order.
unfoldable pub add_all : List Piece → DocAssembler → DocAssembler
unfolding add
add_all [] a = a
add_all (p ∷ ps) a = add_all ps (add p a).1
