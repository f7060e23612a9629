-- ===== src/PieceSet.antt =====
-- The material of a table, src/piece_set.rs: `EgtElement`, its order, and `validate_elements`.
-- A file is its number from 0 to 7. The arrays of what has been seen are functions to Bool.
pub mod Seen
pub mod Material
mod Tests
use Prim.Native.Nat.{Ordering}
use chess_egt.Common.{
  ℕ, zero, suc, ◌+◌, ◌^◌, compare, Bool, true, false, not, ◌&&◌, ◌||◌, List, [], ◌∷◌, ltb, ◌==◌,
  if◌then◌else◌, length, EgtError, EgtResult, ok, err, unsupported_position,
}
use chess_egt.Outcome.{then_cmp}

pub data EgtSide : Type 0 where
  side_to_move side_not_to_move : EgtSide

abbrev pub reverse : EgtSide → EgtSide
reverse side_to_move = side_not_to_move
reverse side_not_to_move = side_to_move

-- `shakmaty::Role`, in its order.
pub data Role : Type 0 where
  pawn knight bishop rook queen king : Role

pub data EgtElement : Type 0 where
  pawn_group : ℕ → List EgtSide → EgtElement
  piece_group : Role → EgtSide → ℕ → EgtElement

abbrev pub max_pieces : ℕ
max_pieces = 8

abbrev pub multiplicity : EgtElement → ℕ
multiplicity (pawn_group file order) = length order
multiplicity (piece_group role side n) = n

abbrev pub role_number : Role → ℕ
role_number pawn = 1
role_number knight = 2
role_number bishop = 3
role_number rook = 4
role_number queen = 5
role_number king = 6

abbrev pub side_number : EgtSide → ℕ
side_number side_to_move = 0
side_number side_not_to_move = 1

abbrev cmp_order : List EgtSide → List EgtSide → Ordering
cmp_order [] [] = Ordering.eq
cmp_order [] (b ∷ ys) = Ordering.lt
cmp_order (a ∷ xs) [] = Ordering.gt
cmp_order (a ∷ xs) (b ∷ ys) = then_cmp (compare (side_number a) (side_number b)) (cmp_order xs ys)

-- `EgtElement::cmp`: pawn groups first, then pieces in the reverse of shakmaty's role order.
cmp_element : EgtElement → EgtElement → Ordering
cmp_element (pawn_group a x) (pawn_group b y) = then_cmp (compare a b) (cmp_order x y)
cmp_element (pawn_group a x) (piece_group b y n) = Ordering.lt
cmp_element (piece_group a x m) (pawn_group b y) = Ordering.gt
cmp_element (piece_group a x m) (piece_group b y n) =
    then_cmp (compare (role_number b) (role_number a))
      (then_cmp (compare (side_number x) (side_number y)) (compare m n))

abbrev pub SeenFiles : Type 0
SeenFiles = ℕ → Bool

abbrev pub SeenPieces : Type 0
SeenPieces = Role → EgtSide → Bool

abbrev pub see_file : SeenFiles → ℕ → SeenFiles
see_file seen file = λ g. g == file || seen g

abbrev pub same_piece : Role → EgtSide → Role → EgtSide → Bool
same_piece r s r' s' = role_number r == role_number r' && side_number s == side_number s'

abbrev pub see_piece : SeenPieces → Role → EgtSide → SeenPieces
see_piece seen role side = λ r s. same_piece r s role side || seen r s

abbrev pub is_empty : List EgtSide → Bool
is_empty [] = true
is_empty (x ∷ xs) = false

abbrev pub is_pawn : Role → Bool
is_pawn r = role_number r == 1

abbrev pub is_king : Role → Bool
is_king r = role_number r == 6

-- The checks on the number of pieces so far.
abbrev pub counted : ℕ → EgtResult (Unit {0}) → EgtResult (Unit {0})
counted total rest =
    if not (ltb total (2 ^ 64))
    then err (unsupported_position "piece count overflow")
    else if ltb max_pieces total
    then err (unsupported_position "at most eight physical pieces are supported")
    else rest

-- The loop of `validate_elements`, and what follows it.
pub validate_from : SeenFiles → SeenPieces → ℕ → List EgtElement → EgtResult (Unit {0})
validate_from files pieces n_pieces [] =
    if pieces king side_to_move && pieces king side_not_to_move
    then ok tt
    else err (unsupported_position "each side must have exactly one king")
validate_from files pieces n_pieces (pawn_group file order ∷ elements) =
    let total = n_pieces + length order in
    let rest = validate_from (see_file files file) pieces total elements in
    if is_empty order || files file
    then err (unsupported_position "pawn file groups must be unique and nonempty")
    else counted total rest
validate_from files pieces n_pieces (piece_group role side n ∷ elements) =
    let total = n_pieces + n in
    let rest = validate_from files (see_piece pieces role side) total elements in
    if is_pawn role
    then err (unsupported_position "pawns must be represented by pawn file groups")
    else if n == 0 || pieces role side
    then err (unsupported_position "piece groups must be unique and nonempty")
    else if is_king role && not (n == 1)
    then err (unsupported_position "each side must have exactly one king")
    else counted total rest

unfoldable pub validate_elements : List EgtElement → EgtResult (Unit {0})
unfolding validate_from
validate_elements elements = validate_from (λ g. false) (λ r s. false) 0 elements
