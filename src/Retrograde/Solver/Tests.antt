-- ===== src/Retrograde/Solver/Tests.antt =====
-- Runs of the solver on a game of four positions, and the theorems on it at concrete inputs.
-- In position 0 the side to move is checkmated; 1 can move to 0, 2 only to 1, and 3 to itself and,
-- by a capture, to a position that is won for the other side.
use chess_egt.Common.{
  ℕ, zero, suc, ◌+◌, ◌≤◌, ◌≡◌, refl, true, false, List, [], ◌∷◌, none, some, ◌==◌, if◌then◌else◌,
  EgtResult, ok, arith,
}
use chess_egt.Outcome.{
  capture, MaybeDtcOutcome, new_win, new_loss, new_unknown, is_loss, is_win, is_unknown,
  get_unknown_counter,
}
use chess_egt.PieceSet.{piece_group, king, side_to_move, side_not_to_move}
use chess_egt.TableId.{from_elements, canonicalized, twin}
use chess_egt.Retrograde.{
  mark_win, mark_win_round, decrement, decrement_round, ply, outcome_ct, better_loss_ct, loss_rank,
  PlySummary, note, new_summary, blocks_with, blocks_from,
}
use chess_egt.Retrograde.Solver.{
  Found, nothing_found, Working, Side, is_loss_at, process_win, process_loss, Rounds, propagate,
  round, win_phase, loss_phase, scan_table, mark_pred, decrement_pred, merge_found, is_nothing,
}
use chess_egt.Retrograde.Solver.Rules.{
  Chess, Egt, decoded, returns, merge_invalid, symmetry_adjusted_move_counter, adjusts,
  kings_on_long_diagonal,
}
use chess_egt.Retrograde.Solver.Start.{
  initialize_table, initialize_blocks, initialize_cells, InitCounts, new_chunk, initialize_cell,
  no_counts, conversions, convert, initial_value, no_moves, merge_counts,
}
use chess_egt.Retrograde.Solver.Pair.{
  solve_pair, solve_by, is_mirrored, prepared, prepare_all, new_pair, new_array, tables,
  quiet_unmoves, PairResult,
}
use chess_egt.Retrograde.Solver.Reference.{sweep_all, is_target}
use chess_egt.Retrograde.Solver.Pair.Solved
use chess_egt.Retrograde.Solver.Start.Cover
use chess_egt.Retrograde.Solver.Start.Position
use chess_egt.Retrograde.Solver.Budget
use chess_egt.Retrograde.Solver.Phases
use chess_egt.Retrograde.Solver.Terminates

abbrev moves_from : ℕ → List ℕ
moves_from zero = []
moves_from (suc zero) = 0 ∷ []
moves_from (suc (suc zero)) = 1 ∷ []
moves_from (suc (suc (suc n))) = 3 ∷ 9 ∷ []

abbrev moves_to : ℕ → List ℕ
moves_to zero = 1 ∷ []
moves_to (suc zero) = 2 ∷ []
moves_to (suc (suc n)) = if n == 1 then 3 ∷ [] else []

abbrev small_chess : Chess
small_chess = record {
  Position = ℕ;
  Move = ℕ;
  legal_moves = moves_from;
  is_check = λ p. p == 0;
  kings = λ p. 4 ∷ 60 ∷ [];
  kind = λ m. record { is_capture = m == 9; is_promotion = false };
  is_king_move = λ m. false;
  from = λ m. none;
  to = λ m. m;
  play_unchecked = λ p m. m;
  pawnless_quiet_unmoves = moves_to;
  pawnful_quiet_unmoves = moves_to;
}

abbrev small_table : Egt small_chess
small_table = record {
  tablename = "K_K";
  elements = piece_group king side_to_move 1 ∷ piece_group king side_not_to_move 1 ∷ [];
  index_range = 4;
  is_pawnless = true;
  position_from_index_with_reason = λ i. ok (decoded i);
  position_from_index_unchecked = λ i. i;
  diagonal_symmetric = λ i. none;
  position_to_index = λ p. p;
  reflected_position_to_index = λ p. p;
}

abbrev small_probe : ℕ → EgtResult MaybeDtcOutcome
small_probe p = ok 34

abbrev small_result : PairResult
small_result = record {
  values = (3 ∷ 10 ∷ 19 ∷ 8 ∷ []) ∷ [];
  invalid_counts = no_counts.invalid ∷ no_counts.invalid ∷ [];
  max_win = 1 ∷ 0 ∷ [];
  max_loss = 2 ∷ 0 ∷ [];
}

-- Checkmated, a win at ply 1, a loss at ply 2, and a draw that is left as unknown.
small_pair :
    solve_pair small_chess small_probe (λ len. none) 10 small_table none
    ≡ returns (some small_result)
unfolding solve_pair solve_by prepared prepare_all new_pair new_array tables quiet_unmoves
    initialize_table initialize_blocks initialize_cells initialize_cell conversions initial_value
    symmetry_adjusted_move_counter kings_on_long_diagonal adjusts convert is_loss is_win propagate
    round loss_phase win_phase merge_counts no_moves get_unknown_counter is_unknown new_loss
    new_unknown new_win merge_invalid decrement_pred is_nothing mark_pred merge_found scan_table
    better_loss_ct blocks_from blocks_with decrement decrement_round loss_rank mark_win
    mark_win_round new_summary note outcome_ct ply is_mirrored canonicalized twin from_elements
small_pair = refl

solve_pair_ends_example : (r : PairResult) × (some small_result ≡ some r)
solve_pair_ends_example =
    Solved.solve_pair_ends small_chess small_probe (λ len. none) 10 small_table none
      (some small_result) (omega arith) small_pair

solve_pair-sweep_all_example :
    solve_pair small_chess small_probe (λ len. none) 10 small_table none
    ≡ solve_by small_chess small_probe (λ len. none) (sweep_all 10) small_table none
solve_pair-sweep_all_example =
    Solved.solve_pair-sweep_all small_chess small_probe (λ len. none) 10 small_table none
      (omega arith)

abbrev first_values : List MaybeDtcOutcome
first_values = 3 ∷ 16 ∷ 16 ∷ 8 ∷ []

abbrev small_summary : PlySummary
small_summary = record { size = 4; blocks = (1 ∷ 0 ∷ 0 ∷ 0 ∷ []) ∷ [] }

abbrev small_counts : InitCounts
small_counts = record no_counts { checkmates = 1 }

small_start :
    initialize_table small_chess small_table small_probe
    ≡ returns (3 ∷ 8 ∷ 8 ∷ 8 ∷ [], small_summary, small_counts)
unfolding initialize_table initialize_blocks initialize_cells initialize_cell conversions
    initial_value symmetry_adjusted_move_counter kings_on_long_diagonal adjusts convert is_loss
    is_win merge_counts no_moves new_loss new_unknown merge_invalid merge_found better_loss_ct
small_start = refl

initialize_table-Initialized_example : Cover.Initialized 4 (3 ∷ 8 ∷ 8 ∷ 8 ∷ []) small_summary
initialize_table-Initialized_example =
    Cover.initialize_table-Initialized small_chess small_table small_probe (3 ∷ 8 ∷ 8 ∷ 8 ∷ [])
      small_summary small_counts small_start

position_value_lem_example :
    Position.Settled small_chess small_table small_probe 3
      (3 ∷ 9 ∷ [])
      new_chunk
      (ok ((capture, 34) ∷ []))
position_value_lem_example =
    Position.position_value_lem small_chess small_table small_probe 3 (3 ∷ 9 ∷ []) new_chunk
      (omega arith)

abbrev small_side : Side
small_side = record { slot = 0; twin_slot = 0; unmoves = moves_to }

abbrev small_working : Working
small_working = record { values = first_values ∷ []; summaries = small_summary ∷ [] }

phases_see_no_writes_example :
    Phases.SeesNoWrites (is_loss_at 1) (process_win small_side 1) 0 ((0, 4) ∷ []) small_working
    × Phases.SeesNoWrites
        (is_target capture 1)
        (process_loss small_side capture 1)
        0
        ((0, 4) ∷ [])
        small_working
phases_see_no_writes_example =
    Phases.phases_see_no_writes small_side capture 1 ((0, 4) ∷ []) small_working

abbrev small_rounds : Rounds
small_rounds = record {
  working = small_working;
  previous = record { wins = 0; losses = 1 } ∷ nothing_found ∷ [];
  max_win = 0 ∷ 0 ∷ [];
  max_loss = 0 ∷ 0 ∷ [];
  plies = 1;
}

abbrev none_by_conversion : List Found
none_by_conversion = nothing_found ∷ nothing_found ∷ []

round_spends_example :
    (Budget.unknowns (round (small_side ∷ []) none_by_conversion small_rounds).0.working.values
        + Terminates.total (round (small_side ∷ []) none_by_conversion small_rounds).1
      ≤ Budget.unknowns (first_values ∷ []) + 0)
    × (0 ≤ Terminates.total (round (small_side ∷ []) none_by_conversion small_rounds).1)
round_spends_example = Terminates.round_spends (small_side ∷ []) none_by_conversion small_rounds
