-- ===== src/Finalization/Tests.antt =====
-- A run of the statistics of src/finalization_stats.rs, and the theorem on it.
use chess_egt.Common.{ℕ, ◌+◌, ◌≡◌, refl, List, [], ◌∷◌, Option, none, some, ◌==◌, if◌then◌else◌}
use chess_egt.Outcome.{is_win, is_loss, is_draw}
use chess_egt.Retrograde.Solver.Rules.{InvalidCounts}
use chess_egt.Stats.Merge.{lookup}
use chess_egt.Finalization.{Cell, Maxima, FileView, record_all, materialize, default_stats}
use chess_egt.Finalization.Tally.{tally, picked, all_cells}
use chess_egt.Finalization.Built.{at_ply, wraps, built}
use chess_egt.Finalization.Step.{is_redundant, won, lost, drawn, longest_win, longest_loss}
use chess_egt.Finalization.Built

-- Index 3 is the twin of index 1.
abbrev mirror : ℕ → Option ℕ
mirror i = if i == 3 then some 1 else if i == 1 then some 3 else none

abbrev maxima : Maxima
maxima = (2, 1)

-- Wins by mate in 1 and 2, a draw, a redundant cell, a loss in 1 and an invalid cell.
abbrev batches : List (List Cell)
batches =
    ((10, 0) ∷ (18, 1) ∷ (1, 2) ∷ []) ∷ ((18, 3) ∷ (11, 4) ∷ (0, 5) ∷ []) ∷ ((18, 6) ∷ []) ∷ []

abbrev file : FileView
file = record {
  tablename = 75 ∷ [];
  index_range = 7;
  frame_size = 3;
  num_frames = 3;
  epd_of_index = λ i. some ((i + 48) ∷ []);
}

abbrev invalid : InvalidCounts
invalid = record { n_opposite_check = 1; n_ep_squares_occupied = 0; n_illegal_ep_capture = 0 }

small_batch :
    let s = record_all mirror maxima ((18, 3) ∷ (11, 4) ∷ (0, 5) ∷ []) default_stats in
    (s.win ≡ 0) × (s.loss ≡ 1) × (s.redundant ≡ 1) × (s.candidates ≡ ([], 4 ∷ []))
unfolding record_all is_win is_loss is_draw
small_batch = (refl, refl, refl, refl)

build_lem_example :
    let t = built mirror maxima invalid file batches 9 [] in
    let cells = all_cells batches in
    (t.win ≡ wraps (tally (won mirror maxima) cells))
    × (t.draw ≡ wraps (tally (drawn mirror maxima) cells))
    × (t.loss ≡ wraps (tally (lost mirror maxima) cells))
    × (t.redundant ≡ wraps (tally (is_redundant mirror maxima) cells))
    × (t.unique_positions
        ≡ wraps (
            tally (won mirror maxima) cells
            + tally (drawn mirror maxima) cells
            + tally (lost mirror maxima) cells))
    × ((q : ℕ)
        → (lookup q t.histogram_win ≡ wraps (tally (at_ply (won mirror maxima) q) cells))
          × (lookup q t.histogram_loss ≡ wraps (tally (at_ply (lost mirror maxima) q) cells)))
    × (t.longest_dtc_win ≡ materialize file (picked (longest_win mirror maxima) cells) 2)
    × (t.longest_dtc_loss ≡ materialize file (picked (longest_loss mirror maxima) cells) 1)
build_lem_example = Built.build_lem mirror maxima invalid file batches 9 []
