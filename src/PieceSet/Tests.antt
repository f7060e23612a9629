-- ===== src/PieceSet/Tests.antt =====
-- Runs of the validation of material, and the theorem on it at a concrete input.
use chess_egt.Common.{◌≡◌, ◌↔◌, refl, List, [], ◌∷◌, ok, err, unsupported_position}
use chess_egt.PieceSet.{
  EgtElement, pawn_group, piece_group, side_to_move, side_not_to_move, king, rook,
  validate_elements,
}
use chess_egt.PieceSet.Material

abbrev rook_ending : List EgtElement
rook_ending =
    pawn_group 0 (side_not_to_move ∷ [])
    ∷ piece_group king side_to_move 1
    ∷ piece_group rook side_to_move 1
    ∷ piece_group king side_not_to_move 1
    ∷ []

one_king :
    validate_elements (piece_group king side_to_move 1 ∷ [])
    ≡ err (unsupported_position "each side must have exactly one king")
unfolding validate_elements
one_king = refl

validate_elements_lem_example :
    (validate_elements rook_ending ≡ ok tt) ↔ Material.IsMaterial rook_ending
validate_elements_lem_example = Material.validate_elements_lem rook_ending
