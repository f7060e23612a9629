-- ===== src/PieceSet/Material.antt =====
-- Which material `validate_elements` accepts, src/piece_set.rs.
use chess_egt.Common.{
  ℕ, ◌+◌, ◌≤◌, ◌<◌, ◌≡◌, ◌≢◌, refl, Bool, true, false, not, ◌&&◌, ◌||◌, Bool-cases, inl, inr, ◌⊎◌,
  ◌↔◌, List, [], ◌∷◌, ◌==◌, if◌then◌else◌, length, ok, arith,
}
use chess_egt.PieceSet.{
  EgtSide, side_to_move, side_not_to_move, Role, pawn, king, EgtElement, pawn_group, piece_group,
  multiplicity, role_number, SeenFiles, SeenPieces, see_file, see_piece, same_piece, validate_from,
  validate_elements, is_empty, is_pawn, is_king,
}
use chess_egt.PieceSet.Seen.{
  one_if, one_if-le, or_count, file_apart, piece_count, king_one, one_king_test, passes, counted_ok,
  ok_counted, or_false, nonempty, both_kings, one_king,
}

abbrev pieces_in : List EgtElement → ℕ
pieces_in [] = 0
pieces_in (e ∷ es) = multiplicity e + pieces_in es

-- How many groups there are of the pawns of a file, and of a role and side.
abbrev file_groups : ℕ → List EgtElement → ℕ
file_groups f [] = 0
file_groups f (pawn_group g order ∷ es) = (if f == g then 1 else 0) + file_groups f es
file_groups f (piece_group r s n ∷ es) = file_groups f es

abbrev piece_groups : Role → EgtSide → List EgtElement → ℕ
piece_groups r s [] = 0
piece_groups r s (pawn_group g order ∷ es) = piece_groups r s es
piece_groups r s (piece_group r' s' n ∷ es) =
    (if same_piece r s r' s' then 1 else 0) + piece_groups r s es

-- A group has a piece; pawns stand in pawn groups only; a group of kings is one king.
abbrev pub IsGroup : EgtElement → Type 0
IsGroup (pawn_group f order) = 0 < length order
IsGroup (piece_group r s n) =
    (role_number r ≢ role_number pawn) × (0 < n) × ((role_number r ≢ role_number king) ⊎ (n ≡ 1))

abbrev AllGroups : List EgtElement → Type 0
AllGroups [] = Unit
AllGroups (e ∷ es) = IsGroup e × AllGroups es

-- What the loop accepts from a state on: no file or piece twice, those seen before included.
record Accepts (files : SeenFiles) (pieces : SeenPieces) (n : ℕ) (es : List EgtElement)
    : Type 0 where
  groups : AllGroups es
  few : n + pieces_in es ≤ 8
  file_once : (f : ℕ) → one_if (files f) + file_groups f es ≤ 1
  piece_once : (r : Role) (s : EgtSide) → one_if (pieces r s) + piece_groups r s es ≤ 1
  kings : (s : EgtSide) → one_if (pieces king s) + piece_groups king s es ≡ 1

-- For elements to be accepted: groups as above, at most eight pieces, at most one group for each file of
-- pawns and each role and side, and one group of kings for each side.
pub record IsMaterial (es : List EgtElement) : Type 0 where
  pub groups : AllGroups es
  pub few : pieces_in es ≤ 8
  pub file_once : (f : ℕ) → file_groups f es ≤ 1
  pub piece_once : (r : Role) (s : EgtSide) → piece_groups r s es ≤ 1
  pub kings : (s : EgtSide) → piece_groups king s es ≡ 1

accepted :
    (files : SeenFiles) (pieces : SeenPieces) (n : ℕ) (es : List EgtElement)
    → n ≤ 8
    → validate_from files pieces n es ≡ ok tt
    → Accepts files pieces n es
unfolding validate_from
accepted files pieces n [] le e =
    let k = both_kings (pieces king side_to_move) (pieces king side_not_to_move) _ e in
    record {
      groups = tt;
      few = omega arith;
      file_once = λ f. one_if-le (files f);
      piece_once = λ r s. one_if-le (pieces r s);
      kings = λ s. one_king pieces s k;
    }
accepted files pieces n (pawn_group f order ∷ es) le e =
    let (bad, c) = passes (is_empty order || files f) _ _ e in
    let (some_pawn, unseen) = or_false (is_empty order) (files f) bad in
    let (small, rest) = counted_ok (n + length order) _ c in
    let a = accepted (see_file files f) pieces (n + length order) es small rest in
    record {
      groups = (nonempty order some_pawn, a.groups);
      few = omega (arith, a.few);
      file_once = λ g.
          omega (arith, a.file_once g, or_count (g == f) (files g) (file_apart files f g unseen));
      piece_once = a.piece_once;
      kings = a.kings;
    }
accepted files pieces n (piece_group r s m ∷ es) le e =
    let (no_pawn, c) = passes (is_pawn r) _ _ e in
    let (bad, c') = passes (m == 0 || pieces r s) _ _ c in
    let (some_piece, unseen) = or_false (m == 0) (pieces r s) bad in
    let (one, c'') = passes (is_king r && not (m == 1)) _ _ c' in
    let (small, rest) = counted_ok (n + m) _ c'' in
    let a = accepted files (see_piece pieces r s) (n + m) es small rest in
    record {
      groups = ((ground (arith, no_pawn), ground (arith, some_piece), king_one r m one), a.groups);
      few = omega (arith, a.few);
      file_once = a.file_once;
      piece_once = λ r' s'. omega (arith, a.piece_once r' s', piece_count pieces r r' s s' unseen);
      kings = λ s'. omega (arith, a.kings s', piece_count pieces r king s s' unseen);
    }

count_true : (b : Bool) → one_if b + 0 ≡ 1 → b ≡ true
count_true true e = refl
count_true false e = absurd (omega arith)

has_pawn : (xs : List EgtSide) → 0 < length xs → is_empty xs ≡ false
has_pawn [] h = absurd (omega arith)
has_pawn (x ∷ xs) h = refl

file_unseen :
    (files : SeenFiles) (f : ℕ) (order : List EgtSide) (es : List EgtElement)
    → one_if (files f) + file_groups f (pawn_group f order ∷ es) ≤ 1
    → files f ≡ false
file_unseen files f order es h = elim (Bool-cases (files f)) [
  | inl t ↦ let over = rw t at h in absurd (ground (arith, over))
  | inr e ↦ e
]

piece_unseen :
    (pieces : SeenPieces) (r : Role) (s : EgtSide) (m : ℕ) (es : List EgtElement)
    → one_if (pieces r s) + piece_groups r s (piece_group r s m ∷ es) ≤ 1
    → pieces r s ≡ false
piece_unseen pieces r s m es h = elim (Bool-cases (pieces r s)) [
  | inl t ↦ let over = rw t at h in absurd (ground (arith, over))
  | inr e ↦ e
]

accepts :
    (files : SeenFiles) (pieces : SeenPieces) (n : ℕ) (es : List EgtElement)
    → Accepts files pieces n es
    → validate_from files pieces n es ≡ ok tt
unfolding validate_from
accepts files pieces n [] a =
    let k = count_true _ (a.kings side_to_move) in
    let k' = count_true _ (a.kings side_not_to_move) in rw (k, k') refl
accepts files pieces n (pawn_group f order ∷ es) a =
    let unseen = file_unseen files f order es (a.file_once f) in
    let some_pawn : is_empty order ≡ false = has_pawn order a.groups.0 in
    rw (some_pawn, unseen)
      (ok_counted (n + length order) _ (omega (arith, a.few)) (
        accepts (see_file files f) pieces (n + length order) es (record {
          groups = a.groups.1;
          few = omega (arith, a.few);
          file_once = λ g.
              omega
                (arith, a.file_once g, or_count (g == f) (files g) (file_apart files f g unseen));
          piece_once = a.piece_once;
          kings = a.kings;
        })))
accepts files pieces n (piece_group r s m ∷ es) a =
    let unseen = piece_unseen pieces r s m es (a.piece_once r s) in
    let (no_pawn, some_piece, one) = a.groups.0 in
    let t1 : is_pawn r ≡ false = ground (arith, no_pawn) in
    let t2 : (m == 0) ≡ false = ground (arith, some_piece) in
    rw (t1, t2, unseen, one_king_test r m one)
      (ok_counted (n + m) _ (omega (arith, a.few)) (
        accepts files (see_piece pieces r s) (n + m) es (record {
          groups = a.groups.1;
          few = omega (arith, a.few);
          file_once = a.file_once;
          piece_once =
              λ r' s'. omega (arith, a.piece_once r' s', piece_count pieces r r' s s' unseen);
          kings = λ s'. omega (arith, a.kings s', piece_count pieces r king s s' unseen);
        })))

-- Material is accepted if and only if every group has a piece, pawns stand in the groups of files and kings
-- are single, there are at most eight pieces, no file and no role and side has two groups, and each side has a king.
pub validate_elements_lem : (es : List EgtElement) → (validate_elements es ≡ ok tt) ↔ IsMaterial es
unfolding validate_elements
validate_elements_lem es = (
  λ e.
      let a = accepted (λ g. false) (λ r s. false) 0 es (omega arith) e in
      record {
        groups = a.groups;
        few = omega (arith, a.few);
        file_once = λ f. omega (arith, a.file_once f);
        piece_once = λ r s. omega (arith, a.piece_once r s);
        kings = λ s. omega (arith, a.kings s);
      },
  λ m.
      accepts (λ g. false) (λ r s. false) 0 es
        (record {
          groups = m.groups;
          few = omega (arith, m.few);
          file_once = λ f. omega (arith, m.file_once f);
          piece_once = λ r s. omega (arith, m.piece_once r s);
          kings = λ s. omega (arith, m.kings s);
        }),
)
