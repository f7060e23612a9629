-- ===== src/Board/Tests.antt =====
-- Runs of the board functions, and the theorems on them at concrete inputs.
use chess_egt.Common.{◌≡◌, refl, true, List, [], ◌∷◌, arith}
use chess_egt.Board.{Coord, reduce_symmetries, reduce_king_pair, kings_adjacent_or_same}
use chess_egt.Board.Reduce

kings_reduced : reduce_king_pair 63 10 ≡ (0, 46)
unfolding reduce_king_pair
kings_reduced = refl

neighbours : kings_adjacent_or_same 9 18 ≡ true
unfolding kings_adjacent_or_same
neighbours = refl

abbrev kings : List Coord
kings = (0, 2) ∷ (6, 5) ∷ []

reduce_symmetries-IsReduced_example : Reduce.IsReduced (reduce_symmetries ((7, 5) ∷ (1, 2) ∷ []))
reduce_symmetries-IsReduced_example =
    Reduce.reduce_symmetries-IsReduced (7, 5) (1, 2) [] (omega arith) (omega arith)
