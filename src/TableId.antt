-- ===== src/TableId.antt =====
-- The pawns of a table's identity: `PawnKey`, its orientation, and `pawn_flags` of src/table_id.rs.
-- A key is the list of its eight file words. A word has a leading one over as many bits as its file
-- has pawns; a bit that is one is a pawn of the side not to move. A file has at most six pawns.
pub mod Words
pub mod Orient
pub mod Flags
mod Tests
use Prim.Native.Nat.{Ordering}
use chess_egt.Common.{
  ℕ, zero, suc, ◌+◌, ◌-◌, ◌*◌, ◌/◌, ◌%◌, ◌^◌, compare, Bool, true, false, not, ◌&&◌, List, [], ◌∷◌,
  ◌++◌, map, Option, none, some, ltb, ◌==◌, if◌then◌else◌, length, set, replicate,
}
use mathlib.Core.List.{reverse}
use chess_egt.Outcome.{then_cmp}
use chess_egt.PieceSet.{
  EgtSide, side_to_move, side_not_to_move, EgtElement, pawn_group, piece_group, side_number,
}

abbrev pub PawnKey : Type 0
PawnKey = List ℕ

abbrev pub is_enemy : EgtSide → Bool
is_enemy side_to_move = false
is_enemy side_not_to_move = true

-- `word & (1 << i) != 0`
abbrev pub bit : ℕ → ℕ → Bool
bit word i = word / 2 ^ i % 2 == 1

-- `word | (1 << i)`
abbrev pub set_bit : ℕ → ℕ → ℕ
set_bit word i = if bit word i then word else word + 2 ^ i

-- `u8::ilog2`, on the eight bits of the word
abbrev log_bits : ℕ → ℕ → ℕ
log_bits zero word = 0
log_bits (suc bits) word = let rest = log_bits bits (word / 2) in if ltb word 2 then 0 else suc rest

abbrev pub ilog2 : ℕ → ℕ
ilog2 word = log_bits 8 word

-- The word of one pawn group.
abbrev word_loop : List EgtSide → ℕ → ℕ → ℕ
word_loop [] i word = word
word_loop (side ∷ order) i word =
    word_loop order (i + 1) (if is_enemy side then set_bit word i else word)

abbrev pub word_of : List EgtSide → ℕ
word_of order = word_loop order 0 (2 ^ length order)

abbrev pub add_elements : List EgtElement → List ℕ → List ℕ
add_elements [] files = files
add_elements (pawn_group file order ∷ elements) files =
    add_elements elements (set files file (word_of order))
add_elements (piece_group role side n ∷ elements) files = add_elements elements files

-- `PawnKey::from_elements`
unfoldable pub from_elements : List EgtElement → PawnKey
from_elements elements = add_elements elements (replicate 8 1)

unfoldable pub reflected : PawnKey → PawnKey
reflected key = reverse key

abbrev same_files : List ℕ → List ℕ → Bool
same_files [] [] = true
same_files [] (y ∷ ys) = false
same_files (x ∷ xs) [] = false
same_files (x ∷ xs) (y ∷ ys) = x == y && same_files xs ys

unfoldable pub is_symmetric : PawnKey → Bool
unfolding reflected
is_symmetric key = same_files key (reflected key)

-- `n` bits of the word from `i` on, into the target
abbrev twin_loop : ℕ → ℕ → ℕ → ℕ → ℕ → ℕ
twin_loop word len i zero target = target
twin_loop word len i (suc n) target =
    twin_loop word len (i + 1) n (if bit word i then target else set_bit target (len - 1 - i))

abbrev pub twin_word : ℕ → ℕ
twin_word word = let len = ilog2 word in twin_loop word len 0 len (2 ^ len)

-- `PawnKey::twin`
unfoldable pub twin : PawnKey → PawnKey
twin key = map twin_word key

-- The file of a word, once for each of `n` bits from `i` on that are of this side.
abbrev push_files : Bool → ℕ → ℕ → ℕ → ℕ → List ℕ
push_files enemy file word i zero = []
push_files enemy file word i (suc n) =
    let rest = push_files enemy file word (i + 1) n in
    if bit word i
    then (if enemy then file ∷ rest else rest)
    else (if enemy then rest else file ∷ rest)

-- `stm` or `sntm` of `canonicalized`, from the file `file` on.
abbrev pub side_files : Bool → ℕ → List ℕ → List ℕ
side_files enemy file [] = []
side_files enemy file (word ∷ words) =
    push_files enemy file word 0 (ilog2 word) ++ side_files enemy (file + 1) words

-- `Iterator::cmp`, and the derived order of the array
abbrev pub cmp_list : List ℕ → List ℕ → Ordering
cmp_list [] [] = Ordering.eq
cmp_list [] (y ∷ ys) = Ordering.lt
cmp_list (x ∷ xs) [] = Ordering.gt
cmp_list (x ∷ xs) (y ∷ ys) = then_cmp (compare x y) (cmp_list xs ys)

abbrev pub compare_side : List ℕ → Ordering
compare_side files = cmp_list files (map (λ f. 7 - f) (reverse files))

unfoldable pub compare_file_reflection : List ℕ → List ℕ → Ordering
compare_file_reflection stm sntm = then_cmp (compare_side stm) (compare_side sntm)

abbrev pub is_greater : Ordering → Bool
is_greater Ordering.lt = false
is_greater Ordering.eq = false
is_greater Ordering.gt = true

unfoldable pub is_canonical : List ℕ → List ℕ → Bool
unfolding compare_file_reflection
is_canonical stm sntm = not (is_greater (compare_file_reflection stm sntm))

abbrev pub orientation : PawnKey → Ordering
orientation key =
    then_cmp (compare_file_reflection (side_files false 0 key) (side_files true 0 key))
      (cmp_list key (reflected key))

-- `PawnKey::canonicalized`
unfoldable pub canonicalized : PawnKey → PawnKey × Bool
unfolding compare_file_reflection reflected
canonicalized key = if is_greater (orientation key) then (reflected key, true) else (key, false)

abbrev side_of : Bool → EgtSide
side_of false = side_to_move
side_of true = side_not_to_move

abbrev order_loop : ℕ → ℕ → ℕ → List EgtSide
order_loop word i zero = []
order_loop word i (suc n) = side_of (bit word i) ∷ order_loop word (i + 1) n

abbrev pub order_of : ℕ → List EgtSide
order_of word = order_loop word 0 (ilog2 word)

abbrev pub elements_from : ℕ → List ℕ → List EgtElement
elements_from file [] = []
elements_from file (word ∷ words) =
    let rest = elements_from (file + 1) words in
    if ilog2 word == 0 then rest else pawn_group file (order_of word) ∷ rest

-- `PawnKey::elements`
unfoldable pub elements : PawnKey → List EgtElement
elements key = elements_from 0 key

abbrev pub same_side : EgtSide → EgtSide → Bool
same_side a b = side_number a == side_number b

abbrev is_other : EgtSide → Option EgtSide → Bool
is_other side none = false
is_other side (some other) = not (same_side other side)

abbrev pub head? : List EgtSide → Option EgtSide
head? [] = none
head? (x ∷ xs) = some x

abbrev neighbor : EgtSide → Option EgtSide → List EgtSide → Option EgtSide
neighbor side_to_move before after = head? after
neighbor side_not_to_move before after = before

-- The flags of the loop from the entry after `before` on
abbrev pub flags_from : Option EgtSide → List EgtSide → EgtSide → List Bool
flags_from before [] side = []
flags_from before (pawn_side ∷ order) side =
    let rest = flags_from (some pawn_side) order side in
    if same_side pawn_side side then is_other side (neighbor side before order) ∷ rest else rest

unfoldable pub pawn_flags : List EgtSide → EgtSide → List Bool
pawn_flags order side_to_move = flags_from none order side_to_move
pawn_flags order side_not_to_move = reverse (flags_from none order side_not_to_move)
