-- ===== src/Verify/Tests.antt =====
-- Runs of the verification of a table on a game of three positions, and the theorems on it.
-- In position 0 the side to move is checkmated, 1 can move to 0, and index 2 holds no position.
use chess_egt.Common.{
  ℕ, zero, suc, ◌≡◌, refl, false, List, [], ◌∷◌, Option, none, some, ◌==◌, EgtResult, ok, arith,
}
use chess_egt.Outcome.{
  checkmate, DtcOutcome, loss, cmp, move_value, MaybeDtcOutcome, is_invalid, to_outcome_at,
}
use chess_egt.Retrograde.Solver.Rules.{Chess}
use chess_egt.Verify.{Texts, best_outcome, verify_cells, verify_block, verify_blocks}
use chess_egt.Verify.Block
use chess_egt.Verify.Tiles

abbrev moves_from : ℕ → List ℕ
moves_from zero = []
moves_from (suc n) = 0 ∷ []

abbrev tiny_chess : Chess
tiny_chess = record {
  Position = ℕ;
  Move = ℕ;
  legal_moves = moves_from;
  is_check = λ p. p == 0;
  kings = λ p. [];
  kind = λ m. record { is_capture = false; is_promotion = false };
  is_king_move = λ m. false;
  from = λ m. none;
  to = λ m. m;
  play_unchecked = λ p m. m;
  pawnless_quiet_unmoves = λ p. [];
  pawnful_quiet_unmoves = λ p. [];
}

abbrev tiny_probe : ℕ → EgtResult DtcOutcome
tiny_probe p = ok (loss checkmate 0)

abbrev tiny_position : ℕ → Option ℕ
tiny_position zero = some 0
tiny_position (suc zero) = some 1
tiny_position (suc (suc n)) = none

abbrev tiny_texts : Texts tiny_chess
tiny_texts = record {
  show_index = λ i. "";
  show_outcome = λ o. "";
  describe_mismatch = λ p ms a b. "";
}

abbrev tiny_chunk : ℕ → ℕ → EgtResult (List MaybeDtcOutcome)
tiny_chunk start end = ok (3 ∷ 10 ∷ 0 ∷ [])

accepted :
    verify_block tiny_chess tiny_probe "K_K" "K_K" tiny_position tiny_texts tiny_chunk 0 3 ≡ ok tt
unfolding verify_block verify_cells best_outcome cmp move_value is_invalid to_outcome_at
accepted = refl

-- Five indices in frames of two.
five : verify_blocks 5 2 ≡ (0, 2) ∷ (2, 4) ∷ (4, 5) ∷ []
unfolding verify_blocks
five = refl

verify_block_lem_example :
    (words : List MaybeDtcOutcome) × (tiny_chunk 0 3 ≡ ok words)
    × Block.AllConsistent tiny_chess tiny_probe "K_K" "K_K" tiny_position tiny_texts 0 words
verify_block_lem_example =
    Block.verify_block_lem tiny_chess tiny_probe "K_K" "K_K" tiny_position tiny_texts tiny_chunk 0 3
      accepted

verify_blocks_lem_example : Tiles.taken (verify_blocks 5 2) ≡ Tiles.indices 0 5
verify_blocks_lem_example = Tiles.verify_blocks_lem 5 2 (omega arith)
