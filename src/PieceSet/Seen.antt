-- ===== src/PieceSet/Seen.antt =====
-- One step of the loop of `validate_elements`, src/piece_set.rs: what has been seen, and its tests.
use chess_egt.Common.{
  ℕ, zero, suc, ◌+◌, ◌^◌, ◌≤◌, ◌<◌, ◌≡◌, ◌≢◌, refl, ap, ◌∙◌, sym, Bool, true, false, not, ◌&&◌,
  ◌||◌, ℕ_discrete, EgtError, inl, inr, ◌⊎◌, List, [], ◌∷◌, ltb, ◌==◌, if◌then◌else◌, length,
  EgtResult, ok, err, arith,
}
use chess_egt.PieceSet.{
  EgtSide, side_to_move, side_not_to_move, Role, pawn, knight, bishop, rook, queen, king,
  role_number, side_number, SeenFiles, SeenPieces, same_piece, counted, max_pieces, is_empty,
  is_king,
}

abbrev pub one_if : Bool → ℕ
one_if true = 1
one_if false = 0

pub one_if-le : (b : Bool) → one_if b + 0 ≤ 1
one_if-le true = omega arith
one_if-le false = omega arith

pub or_count : (a b : Bool) → (a && b) ≡ false → one_if (a || b) ≡ one_if b + (if a then 1 else 0)
or_count true true e = cc
or_count true false e = omega arith
or_count false true e = omega arith
or_count false false e = omega arith

abbrev role_at : ℕ → Role
role_at zero = pawn
role_at (suc zero) = pawn
role_at (suc (suc zero)) = knight
role_at (suc (suc (suc zero))) = bishop
role_at (suc (suc (suc (suc zero)))) = rook
role_at (suc (suc (suc (suc (suc zero))))) = queen
role_at (suc (suc (suc (suc (suc (suc n)))))) = king

role_back : (r : Role) → role_at (role_number r) ≡ r
role_back pawn = refl
role_back knight = refl
role_back bishop = refl
role_back rook = refl
role_back queen = refl
role_back king = refl

abbrev side_at : ℕ → EgtSide
side_at zero = side_to_move
side_at (suc n) = side_not_to_move

side_back : (s : EgtSide) → side_at (side_number s) ≡ s
side_back side_to_move = refl
side_back side_not_to_move = refl

same_role : (r r' : Role) → role_number r ≡ role_number r' → r ≡ r'
same_role r r' e = sym (role_back r) ∙ ap role_at e ∙ role_back r'

same_side : (s s' : EgtSide) → side_number s ≡ side_number s' → s ≡ s'
same_side s s' e = sym (side_back s) ∙ ap side_at e ∙ side_back s'

pub file_apart : (files : SeenFiles) (f g : ℕ) → files f ≡ false → (g == f && files g) ≡ false
file_apart files f g e = elim (ℕ_discrete g f) [
  | yes same ↦ let gone : files g ≡ false = ap files same ∙ e in rw gone (ground arith)
  | no other ↦ ground (arith, other)
]

piece_apart :
    (pieces : SeenPieces) (r r' : Role) (s s' : EgtSide)
    → pieces r s ≡ false
    → (same_piece r' s' r s && pieces r' s') ≡ false
piece_apart pieces r r' s s' e = elim (ℕ_discrete (role_number r') (role_number r)) [
  | no other ↦ ground (arith, other)
  | yes a ↦ elim (ℕ_discrete (side_number s') (side_number s)) [
    | no other ↦ ground (arith, other)
    | yes b ↦
        let gone : pieces r' s' ≡ false =
          ap (λ x. pieces x s') (same_role r' r a) ∙ ap (pieces r) (same_side s' s b) ∙ e in
        rw gone (ground arith)
  ]
]

pub piece_count :
    (pieces : SeenPieces) (r r' : Role) (s s' : EgtSide)
    → pieces r s ≡ false
    → one_if (same_piece r' s' r s || pieces r' s')
      ≡ one_if (pieces r' s') + (if same_piece r' s' r s then 1 else 0)
piece_count pieces r r' s s' e =
    or_count (same_piece r' s' r s) (pieces r' s') (piece_apart pieces r r' s s' e)

pub king_one :
    (r : Role) (m : ℕ) → (is_king r && not (m == 1)) ≡ false → (role_number r ≢ 6) ⊎ (m ≡ 1)
king_one r m e = elim (ℕ_discrete m 1) [
  | yes one ↦ inr one
  | no other ↦ inl (λ x. ground (arith, e, other, x))
]

pub one_king_test :
    (r : Role) (m : ℕ) → (role_number r ≢ 6) ⊎ (m ≡ 1) → (is_king r && not (m == 1)) ≡ false
one_king_test r m (inl n) = ground (arith, n)
one_king_test r m (inr e) = ground (arith, e)

pub passes :
    (b : Bool) (x : EgtError) (r : EgtResult (Unit {0}))
    → (if b then err x else r) ≡ ok tt
    → (b ≡ false) × (r ≡ ok tt)
passes true x r e = cc
passes false x r e = (refl, e)

pub counted_ok :
    (total : ℕ) (rest : EgtResult (Unit {0}))
    → counted total rest ≡ ok tt
    → (total ≤ 8) × (rest ≡ ok tt)
counted_ok total rest e =
    let a = passes (not (ltb total (2 ^ 64))) _ _ e in
    let b = passes (ltb max_pieces total) _ _ a.1 in (ground (arith, b.0), b.1)

pub ok_counted :
    (total : ℕ) (rest : EgtResult (Unit {0}))
    → total ≤ 8
    → rest ≡ ok tt
    → counted total rest ≡ ok tt
ok_counted total rest h e = ground (arith, h, e)

pub or_false : (a b : Bool) → (a || b) ≡ false → (a ≡ false) × (b ≡ false)
or_false true b e = cc
or_false false b e = (refl, e)

pub nonempty : (xs : List EgtSide) → is_empty xs ≡ false → 0 < length xs
nonempty [] e = cc
nonempty (x ∷ xs) e = omega arith

pub both_kings :
    (a b : Bool) (x : EgtError)
    → (if a && b then ok (tt {0}) else err x) ≡ ok tt
    → (a ≡ true) × (b ≡ true)
both_kings true true x e = (refl, refl)
both_kings true false x e = cc
both_kings false b x e = cc

pub one_king :
    (pieces : SeenPieces) (s : EgtSide)
    → (pieces king side_to_move ≡ true) × (pieces king side_not_to_move ≡ true)
    → one_if (pieces king s) + 0 ≡ 1
one_king pieces side_to_move e = rw e.0 (omega arith)
one_king pieces side_not_to_move e = rw e.1 (omega arith)
