-- ===== src/Board.antt =====
-- Squares and symmetries of the board, src/egt/indexer.rs.
-- A coordinate is a rank and a file, both from 0 to 7; a buffer has a coordinate for each piece, the
-- kings of a pawnless table first. A read of a missing coordinate, which panics, gives (0, 0).
pub mod Squares
pub mod Reduce
mod Tests
use chess_egt.Common.{
  ℕ, zero, suc, ◌+◌, ◌-◌, ◌*◌, ◌/◌, ◌%◌, Bool, true, false, ◌&&◌, ◌||◌, List, [], ◌∷◌, map, ltb,
  leb, ◌==◌, if◌then◌else◌, get_or,
}

abbrev pub Coord : Type 0
Coord = ℕ × ℕ

unfoldable pub square_index : Bool → Coord → ℕ
square_index symmetric_pawns (rank, file) =
    if symmetric_pawns then file * 8 + (if ltb file 4 then rank else 7 - rank) else rank * 8 + file

unfoldable pub square_coord : Bool → ℕ → Coord
square_coord symmetric_pawns index =
    let file = index / 8 in
    let rank = index % 8 in
    if symmetric_pawns
    then (if ltb file 4 then rank else 7 - rank, file)
    else (index / 8, index % 8)

abbrev pub coord_at : List Coord → ℕ → Coord
coord_at b i = get_or b i (0, 0)

abbrev pub flip_ranks : List Coord → List Coord
flip_ranks b = if ltb 3 (coord_at b 0).0 then map (λ c. (7 - c.0, c.1)) b else b

abbrev pub flip_files : List Coord → List Coord
flip_files b = if ltb 3 (coord_at b 0).1 then map (λ c. (c.0, 7 - c.1)) b else b

abbrev pub flip_diagonal : List Coord → List Coord
flip_diagonal b =
    let (r, f) = coord_at b 0 in
    let (r', f') = coord_at b 1 in
    if ltb f r || (r == f && ltb f' r') then map (λ c. (c.1, c.0)) b else b

unfoldable pub reduce_symmetries : List Coord → List Coord
reduce_symmetries b = flip_diagonal (flip_files (flip_ranks b))

-- `reduce_king_pair` repeats the three steps on the two kings.
unfoldable pub reduce_king_pair : ℕ → ℕ → ℕ × ℕ
reduce_king_pair wk bk =
    let pos = flip_diagonal (flip_files (flip_ranks ((wk / 8, wk % 8) ∷ (bk / 8, bk % 8) ∷ []))) in
    let (r, f) = coord_at pos 0 in let (r', f') = coord_at pos 1 in (r * 8 + f, r' * 8 + f')

-- `(a as isize - b as isize).abs() <= 1`
abbrev near : ℕ → ℕ → Bool
near a b = leb a (b + 1) && leb b (a + 1)

unfoldable pub kings_adjacent_or_same : ℕ → ℕ → Bool
kings_adjacent_or_same a b = near (a / 8) (b / 8) && near (a % 8) (b % 8)
