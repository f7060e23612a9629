-- ===== src/Stats/Tests.antt =====
-- Runs of the statistics, and the theorems on them at concrete inputs.
use chess_egt.Common.{
  ℕ, ◌+◌, ◌%◌, ◌^◌, ◌≡◌, ◌↔◌, ◌⊎◌, refl, List, [], ◌∷◌, some, length, ok, err, arith,
}
use chess_egt.Stats.{
  EgtStats, StatsRecord, complete, missing, default, LongestDtcPosition, Histogram, add64, last_ply,
  merge_distribution,
}
use chess_egt.Stats.Validate.{validate_outcomes, bad_outcomes}
use chess_egt.Stats.Totals.{add_all, total, wrapped, available, ranges}
use chess_egt.Stats.Totals
use chess_egt.Stats.Partition
use chess_egt.Stats.Merge.{lookup, IsHistogram, AllAt}
use chess_egt.Stats.Merge

abbrev mate : LongestDtcPosition
mate = record { epd = 56 ∷ 47 ∷ []; ply = 7 }

abbrev early : LongestDtcPosition
early = record { epd = 49 ∷ []; ply = 5 }

abbrev wins : Histogram
wins = (3, 4) ∷ (5, 2) ∷ []

abbrev more_wins : Histogram
more_wins = (5, 1) ∷ (7, 1) ∷ []

merged :
    merge_distribution (some wins) (some more_wins) (some (early ∷ [])) (some (mate ∷ mate ∷ []))
    ≡ (some ((3, 4) ∷ (5, 3) ∷ (7, 1) ∷ []), some (mate ∷ []))
unfolding merge_distribution
merged = refl

abbrev small_table : EgtStats
small_table = record {
  tablename = 75 ∷ [];
  bytes = 9;
  sha256 = [];
  index_range = 20;
  frame_size = 262144;
  num_frames = 1;
  unique_positions = 12;
  win = 6;
  draw = 4;
  loss = 2;
  invalid_opposite_check = 3;
  invalid_ep_squares_occupied = 2;
  invalid_illegal_ep_capture = 1;
  redundant = 2;
  histogram_win = wins;
  histogram_loss = (2, 2) ∷ [];
  longest_dtc_win = early ∷ [];
  longest_dtc_loss = [];
}

abbrev records : List StatsRecord
records =
    complete small_table
    ∷ complete small_table
    ∷ missing (record { tablename = 75 ∷ 81 ∷ []; index_range = 30 })
    ∷ []

validate_outcomes_lem_example :
    ((validate_outcomes 20 12 6 4 2 (3, 2, 1, 2) ≡ ok tt)
      ↔ ((6 + 4 + 2 ≡ 12) × (12 + 3 + 2 + 1 + 2 ≡ 20)))
    × ((validate_outcomes 20 12 6 4 2 (3, 2, 1, 2) ≡ ok tt)
        ⊎ (validate_outcomes 20 12 6 4 2 (3, 2, 1, 2) ≡ err bad_outcomes))
validate_outcomes_lem_example =
    Partition.validate_outcomes_lem 20 12 6 4 2 3 2 1 2 (omega arith) (omega arith)

add_all_lem_example :
    let s = add_all default records in
    (s.selected_tables ≡ length records % 2 ^ 64)
    × (s.available_tables ≡ available records % 2 ^ 64)
    × (s.index_range ≡ ranges records % 2 ^ 64)
    × (s.bytes ≡ wrapped (total (λ t. t.bytes) records))
    × (s.num_frames ≡ wrapped (total (λ t. t.num_frames) records))
    × (s.unique_positions ≡ wrapped (total (λ t. t.unique_positions) records))
    × (s.win ≡ wrapped (total (λ t. t.win) records))
    × (s.draw ≡ wrapped (total (λ t. t.draw) records))
    × (s.loss ≡ wrapped (total (λ t. t.loss) records))
    × (s.invalid_opposite_check ≡ wrapped (total (λ t. t.invalid_opposite_check) records))
    × (s.invalid_ep_squares_occupied ≡ wrapped (total (λ t. t.invalid_ep_squares_occupied) records))
    × (s.invalid_illegal_ep_capture ≡ wrapped (total (λ t. t.invalid_illegal_ep_capture) records))
    × (s.redundant ≡ wrapped (total (λ t. t.redundant) records))
add_all_lem_example = Totals.add_all_lem records

merge_distribution_lem_example :
    (h' : Histogram) × (zs : List LongestDtcPosition) × (merge_distribution
        (some wins)
        (some more_wins)
        (some (early ∷ []))
        (some (mate ∷ []))
      ≡ (some h', some zs))
    × IsHistogram h'
    × ((q : ℕ) → lookup q h' ≡ add64 (lookup q wins) (lookup q more_wins))
    × AllAt (last_ply h') zs
merge_distribution_lem_example =
    Merge.merge_distribution_lem wins more_wins (early ∷ []) (mate ∷ []) (omega arith) (omega arith)
