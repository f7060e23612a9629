-- ===== src/TableId/Tests.antt =====
-- Runs of the pawn keys, and the theorems on them at concrete inputs.
use chess_egt.Common.{◌≡◌, refl, true, false, [], ◌∷◌, map, arith}
use chess_egt.PieceSet.{side_to_move, side_not_to_move, pawn_group}
use chess_egt.TableId.{
  PawnKey, from_elements, reflected, twin, canonicalized, compare_file_reflection, elements,
  pawn_flags,
}
use chess_egt.TableId.Words
use chess_egt.TableId.Orient
use chess_egt.TableId.Flags

-- On the files b and g: a pawn of the side to move below one of the other side, and a single pawn of
-- the side to move.
abbrev two_files : PawnKey
two_files = 1 ∷ 6 ∷ 1 ∷ 1 ∷ 1 ∷ 1 ∷ 2 ∷ 1 ∷ []

opposed_flags : pawn_flags (side_to_move ∷ side_not_to_move ∷ []) side_to_move ≡ true ∷ []
unfolding pawn_flags
opposed_flags = refl

two_elements :
    elements two_files
    ≡ pawn_group 1 (side_to_move ∷ side_not_to_move ∷ []) ∷ pawn_group 6 (side_to_move ∷ []) ∷ []
unfolding elements
two_elements = refl

turned_back : canonicalized (reflected two_files) ≡ (two_files, true)
unfolding canonicalized reflected compare_file_reflection
turned_back = refl

two_files-IsKey : Words.IsKey two_files
two_files-IsKey = (
  refl,
  (
    (omega arith, omega arith),
    (
      (omega arith, omega arith),
      (
        (omega arith, omega arith),
        (
          (omega arith, omega arith),
          (
            (omega arith, omega arith),
            (
              (omega arith, omega arith),
              ((omega arith, omega arith), ((omega arith, omega arith), tt)),
            ),
          ),
        ),
      ),
    ),
  ),
)

elements-twin_example :
    (elements (twin two_files) ≡ map Words.twin_element (elements two_files))
    × (twin (twin two_files) ≡ two_files)
    × Words.IsKey (twin two_files)
elements-twin_example = Words.elements-twin two_files two_files-IsKey

from_elements-elements_example : from_elements (elements two_files) ≡ two_files
from_elements-elements_example = Words.from_elements-elements two_files two_files-IsKey

canonicalized-reflected_example :
    ((canonicalized (reflected two_files)).0 ≡ (canonicalized two_files).0)
    × (canonicalized (canonicalized two_files).0 ≡ ((canonicalized two_files).0, false))
canonicalized-reflected_example = Orient.canonicalized-reflected two_files refl

pawn_flags_injective_example :
    side_to_move ∷ side_not_to_move ∷ [] ≡ side_to_move ∷ side_not_to_move ∷ []
pawn_flags_injective_example =
    Flags.pawn_flags_injective (side_to_move ∷ side_not_to_move ∷ [])
      (side_to_move ∷ side_not_to_move ∷ []) refl refl
