-- ===== src/Board/Squares.antt =====
-- `square_index` and `square_coord` are inverse, src/egt/indexer.rs.
use chess_egt.Common.{
  ℕ, ◌+◌, ◌-◌, ◌*◌, ◌/◌, ◌<◌, ◌≡◌, refl, Bool, true, false, Bool-cases, inl, inr, ltb, arith,
}
use chess_egt.Board.{square_index, square_coord}

pair_eq : {a b c d : ℕ} → a ≡ b → c ≡ d → ◌≡◌ {A = ℕ × ℕ} (a, c) (b, d)
pair_eq e e' = rw (e, e') refl

-- In both numberings of the squares, a coordinate of the board is read back from its number, which is
-- below 64.
pub square_coord-square_index :
    (symmetric : Bool) (rank file : ℕ)
    → rank < 8
    → file < 8
    → (square_coord symmetric (square_index symmetric (rank, file)) ≡ (rank, file))
      × (square_index symmetric (rank, file) < 64)
unfolding square_coord square_index
square_coord-square_index false rank file h h' = (pair_eq (omega arith) (omega arith), omega arith)
square_coord-square_index true rank file h h' = elim (Bool-cases (ltb file 4)) [
  | inl t ↦
      let f : (file * 8 + rank) / 8 ≡ file = omega arith in
      rw (t, f, t) (pair_eq (omega arith) refl, ground (arith, t))
  | inr t ↦
      let f : (file * 8 + (7 - rank)) / 8 ≡ file = omega arith in
      rw (t, f, t) (pair_eq (omega arith) refl, ground (arith, t))
]

-- Every number below 64 is that of its coordinate, which lies on the board.
pub square_index-square_coord :
    (symmetric : Bool) (index : ℕ)
    → index < 64
    → (square_index symmetric (square_coord symmetric index) ≡ index)
      × ((square_coord symmetric index).0 < 8)
      × ((square_coord symmetric index).1 < 8)
unfolding square_coord square_index
square_index-square_coord false index h = (omega arith, omega arith, omega arith)
square_index-square_coord true index h = elim (Bool-cases (ltb (index / 8) 4)) [
  | inl t ↦ rw t (omega arith, omega arith, omega arith)
  | inr t ↦ rw t (omega arith, omega arith, omega arith)
]
