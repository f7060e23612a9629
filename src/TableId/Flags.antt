-- ===== src/TableId/Flags.antt =====
-- The opposed-pawn flags of src/table_id.rs name the colours of a file.
use mathlib.Core.List.{reverse, reverse-reverse}
use chess_egt.Common.{
  ◌≡◌, ◌≢◌, refl, sym, ap, ◌∙◌, Bool, true, false, List, [], ◌∷◌, Option, none, some,
}
use chess_egt.PieceSet.{EgtSide, side_to_move, side_not_to_move}
use chess_egt.TableId.{flags_from, pawn_flags, head?, is_other}

-- Behind a pawn of the side to move, the first pawn of the other side is opposed.
first_opposed :
    (xs : List EgtSide) (fs : List Bool)
    → flags_from (some side_to_move) xs side_not_to_move ≢ false ∷ fs
first_opposed [] fs e = cc
first_opposed (side_to_move ∷ xs) fs e = first_opposed xs fs e
first_opposed (side_not_to_move ∷ xs) fs e = cc

-- The flag of the pawn before, if it is of the side to move, is the same for both orders.
abbrev SameBefore : Option EgtSide → List EgtSide → List EgtSide → Type 0
SameBefore before a b =
    before ≡ some side_to_move → is_other side_to_move (head? a) ≡ is_other side_to_move (head? b)

no_same : {A : Type 0} → true ≡ false → A
no_same e = cc

not_both :
    (before : Option EgtSide) (a b : List EgtSide)
    → SameBefore before (side_to_move ∷ a) (side_not_to_move ∷ b)
    → flags_from before (side_to_move ∷ a) side_not_to_move
      ≡ flags_from before (side_not_to_move ∷ b) side_not_to_move
    → ⊥
not_both none a b h e = first_opposed a _ e
not_both (some side_to_move) a b h e = no_same (sym (h refl))
not_both (some side_not_to_move) a b h e = first_opposed a _ e

flags_from_injective :
    (before : Option EgtSide) (a b : List EgtSide)
    → SameBefore before a b
    → flags_from before a side_to_move ≡ flags_from before b side_to_move
    → flags_from before a side_not_to_move ≡ flags_from before b side_not_to_move
    → a ≡ b
flags_from_injective before [] [] h e e' = refl
flags_from_injective before [] (side_to_move ∷ b) h e e' = cc
flags_from_injective before [] (side_not_to_move ∷ b) h e e' = cc
flags_from_injective before (side_to_move ∷ a) [] h e e' = cc
flags_from_injective before (side_not_to_move ∷ a) [] h e e' = cc
flags_from_injective before (side_to_move ∷ a) (side_not_to_move ∷ b) h e e' =
    absurd (not_both before a b h e')
flags_from_injective before (side_not_to_move ∷ a) (side_to_move ∷ b) h e e' =
    absurd (not_both before b a (λ s. sym (h s)) (sym e'))
flags_from_injective before (side_to_move ∷ a) (side_to_move ∷ b) h e e' =
    let heads : is_other side_to_move (head? a) ≡ is_other side_to_move (head? b) = cc in
    let rest : flags_from (some side_to_move) a side_to_move
        ≡ flags_from (some side_to_move) b side_to_move =
      cc in
    ap (◌∷◌ side_to_move) (flags_from_injective (some side_to_move) a b (λ s. heads) rest e')
flags_from_injective before (side_not_to_move ∷ a) (side_not_to_move ∷ b) h e e' =
    let rest : flags_from (some side_not_to_move) a side_not_to_move
        ≡ flags_from (some side_not_to_move) b side_not_to_move =
      cc in
    ap (◌∷◌ side_not_to_move)
      (flags_from_injective (some side_not_to_move) a b (λ s. absurd (let x = s in cc)) e rest)

-- Two orders of pawns on a file that have the same flags for both sides are the same order.
pub pawn_flags_injective :
    (a b : List EgtSide)
    → pawn_flags a side_to_move ≡ pawn_flags b side_to_move
    → pawn_flags a side_not_to_move ≡ pawn_flags b side_not_to_move
    → a ≡ b
unfolding pawn_flags
pawn_flags_injective a b e e' =
    let back =
      sym (reverse-reverse (flags_from none a side_not_to_move))
      ∙ ap reverse e'
      ∙ reverse-reverse (flags_from none b side_not_to_move) in
    flags_from_injective none a b (λ s. absurd (let x = s in cc)) e back
