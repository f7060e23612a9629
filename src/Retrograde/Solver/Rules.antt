-- ===== src/Retrograde/Solver/Rules.antt =====
-- What the solver of src/retrograde.rs asks of chess and of a table: the moves and their count
-- adjusted for symmetry, and the reasons and counts of invalid positions of src/position.rs.
-- The chess rules (shakmaty) and the table's indexing (src/egt.rs) are parameters.
use Prim.Native.String.{String}
use chess_egt.Common.{
  ℕ, ◌+◌, ◌-◌, ◌/◌, ◌%◌, ◌^◌, Bool, true, false, not, ◌&&◌, ◌||◌, List, [], ◌∷◌, Option, none, some,
  ◌==◌, if◌then◌else◌, EgtError, EgtResult, ok, err,
}
use chess_egt.Outcome.{MoveKind}
use chess_egt.PieceSet.{EgtElement}

pub data InvalidPosition : Type 0 where
  opposite_check ep_squares_occupied illegal_ep_capture : InvalidPosition

pub record InvalidCounts : Type 0 where
  pub n_opposite_check : ℕ
  pub n_ep_squares_occupied : ℕ
  pub n_illegal_ep_capture : ℕ

unfoldable pub count_invalid : InvalidCounts → InvalidPosition → InvalidCounts
count_invalid c opposite_check = record c { n_opposite_check = c.n_opposite_check + 1 }
count_invalid c ep_squares_occupied = record c {
  n_ep_squares_occupied = c.n_ep_squares_occupied + 1;
}
count_invalid c illegal_ep_capture = record c { n_illegal_ep_capture = c.n_illegal_ep_capture + 1 }

unfoldable pub merge_invalid : InvalidCounts → InvalidCounts → InvalidCounts
merge_invalid a b = record {
  n_opposite_check = a.n_opposite_check + b.n_opposite_check;
  n_ep_squares_occupied = a.n_ep_squares_occupied + b.n_ep_squares_occupied;
  n_illegal_ep_capture = a.n_illegal_ep_capture + b.n_illegal_ep_capture;
}

-- What the solver asks of the chess rules. A square is a number, eight times its rank and its file;
-- `kings` lists the squares of both kings.
pub record Chess : Type 1 where
  pub Position : Type 0
  pub Move : Type 0
  pub legal_moves : Position → List Move
  pub is_check : Position → Bool
  pub kings : Position → List ℕ
  pub kind : Move → MoveKind
  pub is_king_move : Move → Bool
  pub from : Move → Option ℕ
  pub to : Move → ℕ
  pub play_unchecked : Position → Move → Position
  pub pawnless_quiet_unmoves : Position → List Position
  pub pawnful_quiet_unmoves : Position → List Position

-- A decoded index.
pub data Decoded (chess : Chess) : Type 0 where
  decoded : chess.Position → Decoded chess
  rejected : InvalidPosition → Decoded chess

-- What the solver asks of a table.
pub record Egt (chess : Chess) : Type 0 where
  pub tablename : String
  pub elements : List EgtElement
  pub index_range : ℕ
  pub is_pawnless : Bool
  pub position_from_index_with_reason : ℕ → EgtResult (Decoded chess)
  pub position_from_index_unchecked : ℕ → chess.Position
  pub diagonal_symmetric : ℕ → Option ℕ
  pub position_to_index : chess.Position → ℕ
  pub reflected_position_to_index : chess.Position → ℕ

-- The result of code that may also panic.
pub data Run {ℓ} (A : Type ℓ) : Type ℓ where
  returns : A → Run A
  fails : EgtError → Run A
  panics : Run A

abbrev pub then_run {ℓ κ} : {A : Type ℓ} {B : Type κ} → Run A → (A → Run B) → Run B
then_run (returns a) f = f a
then_run (fails e) f = fails e
then_run panics f = panics

abbrev pub run {ℓ} : {A : Type ℓ} → EgtResult A → Run A
run (ok a) = returns a
run (err e) = fails e

abbrev all_squares : (ℕ → Bool) → List ℕ → Bool
all_squares p [] = true
all_squares p (s ∷ ss) = p s && all_squares p ss

unfoldable pub kings_on_long_diagonal : List ℕ → Bool
kings_on_long_diagonal kings =
    all_squares (λ s. s / 8 == s % 8) kings || all_squares (λ s. s / 8 == 7 - s % 8) kings

abbrev has_square : ℕ → List ℕ → Bool
has_square s [] = false
has_square s (t ∷ ts) = s == t || has_square s ts

abbrev without : ℕ → List ℕ → List ℕ
without s [] = []
without s (t ∷ ts) = let rest = without s ts in if s == t then rest else t ∷ rest

-- `kings ^ from` and `kings | to` on sets of squares
abbrev xor_square : ℕ → List ℕ → List ℕ
xor_square s kings = if has_square s kings then without s kings else s ∷ kings

abbrev or_square : ℕ → List ℕ → List ℕ
or_square s kings = if has_square s kings then kings else s ∷ kings

module _ (chess : Chess) where
  abbrev after_from : List ℕ → chess.Move → Option ℕ → Bool
  after_from kings m none = false
  after_from kings m (some from) =
      kings_on_long_diagonal (or_square (chess.to m) (xor_square from kings))

  unfoldable pub adjusts : List ℕ → chess.Move → Bool
  adjusts kings m =
      chess.is_king_move m
      && not ((chess.kind m).is_capture)
      && not ((chess.kind m).is_promotion)
      && after_from kings m (chess.from m)

  -- `legals.len() as u16`
  abbrev pub u16_length : List chess.Move → ℕ
  u16_length [] = 0
  u16_length (m ∷ ms) = (u16_length ms + 1) % 2 ^ 16

  -- The loop from the counter `counter` on
  abbrev pub count_moves : List ℕ → List chess.Move → ℕ → ℕ
  count_moves kings [] counter = counter
  count_moves kings (m ∷ ms) counter =
      count_moves kings ms ((counter + (if adjusts kings m then 2 else 1)) % 2 ^ 16)

  unfoldable pub symmetry_adjusted_move_counter : chess.Position → List chess.Move → ℕ
  symmetry_adjusted_move_counter position legals =
      let kings = chess.kings position in
      if kings_on_long_diagonal kings then u16_length legals else count_moves kings legals 0
