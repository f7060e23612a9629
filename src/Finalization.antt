-- ===== src/Finalization.antt =====
-- The statistics of a finished table, src/finalization_stats.rs: what each batch records of its
-- outcomes, the merge of the batches, and the metadata built from it. The symmetry of an index and
-- the EPD of its position are parameters; the arrays over the two sides are pairs.
pub mod Tally
pub mod Step
pub mod Built
mod Tests
use chess_egt.Common.{
  ℕ, ◌+◌, ◌/◌, ◌^◌, Bool, true, false, ◌&&◌, ◌||◌, List, [], ◌∷◌, ◌++◌, Option, none, some, ltb,
  ◌==◌, if◌then◌else◌,
}
use chess_egt.Outcome.{MaybeDtcOutcome, is_win, is_loss, is_draw}
use chess_egt.Retrograde.Solver.Rules.{InvalidCounts}
use chess_egt.Stats.{Text, Histogram, LongestDtcPosition, EgtStats, add64, add_entry, add_entries}

pub record TableStats : Type 0 where
  pub win : ℕ
  pub draw : ℕ
  pub loss : ℕ
  pub redundant : ℕ
  pub histograms : Histogram × Histogram
  pub candidates : List ℕ × List ℕ

-- `TableStats::default`
abbrev pub default_stats : TableStats
default_stats = record {
  win = 0;
  draw = 0;
  loss = 0;
  redundant = 0;
  histograms = ([], []);
  candidates = ([], []);
}

-- An outcome and its index in the table.
abbrev pub Cell : Type 0
Cell = MaybeDtcOutcome × ℕ

-- The longest wins and losses of the table.
abbrev pub Maxima : Type 0
Maxima = ℕ × ℕ

abbrev pub is_behind : Option ℕ → ℕ → Bool
is_behind none local_idx = false
is_behind (some other_idx) local_idx = ltb other_idx local_idx

abbrev pub word_ply : MaybeDtcOutcome → ℕ
word_ply outcome = outcome / 2 ^ 3

abbrev pub push_if : Bool → ℕ → List ℕ → List ℕ
push_if b local_idx candidates = if b then candidates ++ local_idx ∷ [] else candidates

abbrev pub record_win : Cell → ℕ → TableStats → TableStats
record_win (outcome, local_idx) max_win s =
    let ply = word_ply outcome in
    record s {
      win = add64 s.win 1;
      histograms = (add_entry ply 1 s.histograms.0, s.histograms.1);
      candidates =
          (push_if (ply == max_win && ltb 0 max_win) local_idx s.candidates.0, s.candidates.1);
    }

abbrev pub record_loss : Cell → ℕ → TableStats → TableStats
record_loss (outcome, local_idx) max_loss s =
    let ply = word_ply outcome in
    record s {
      loss = add64 s.loss 1;
      histograms = (s.histograms.0, add_entry ply 1 s.histograms.1);
      candidates = (s.candidates.0, push_if (ply == max_loss) local_idx s.candidates.1);
    }

module _ (diagonal_symmetric : ℕ → Option ℕ) (maxima : Maxima) where
  unfoldable pub record_outcome : Cell → TableStats → TableStats
  record_outcome (outcome, local_idx) s =
      if is_behind (diagonal_symmetric local_idx) local_idx
      then record s { redundant = add64 s.redundant 1 }
      else if is_win outcome
      then record_win (outcome, local_idx) maxima.0 s
      else if is_loss outcome
      then record_loss (outcome, local_idx) maxima.1 s
      else if is_draw outcome
      then record s { draw = add64 s.draw 1 }
      else s

  -- The records of one batch, in its order.
  pub record_all : List Cell → TableStats → TableStats
  unfolding record_outcome
  record_all [] s = s
  record_all (c ∷ cells) s = record_all cells (record_outcome c s)

-- One part of `EgtStatsBuilder::merge`
unfoldable pub merge_part : TableStats → TableStats → TableStats
merge_part totals part = record {
  win = add64 totals.win part.win;
  draw = add64 totals.draw part.draw;
  loss = add64 totals.loss part.loss;
  redundant = add64 totals.redundant part.redundant;
  histograms = (
    add_entries totals.histograms.0 part.histograms.0,
    add_entries totals.histograms.1 part.histograms.1,
  );
  candidates = (totals.candidates.0 ++ part.candidates.0, totals.candidates.1 ++ part.candidates.1);
}

pub merge_all : TableStats → List TableStats → TableStats
unfolding merge_part
merge_all totals [] = totals
merge_all totals (part ∷ parts) = merge_all (merge_part totals part) parts

pub record EgtStatsBuilder : Type 0 where
  pub totals : TableStats
  pub maxima : Maxima
  pub invalid : InvalidCounts

-- `EgtStatsBuilder::new`
abbrev pub new_builder : Maxima → InvalidCounts → EgtStatsBuilder
new_builder maxima invalid = record { totals = default_stats; maxima = maxima; invalid = invalid }

-- `EgtStatsBuilder::merge`
abbrev pub merge_parts : EgtStatsBuilder → List TableStats → EgtStatsBuilder
merge_parts b parts = record b { totals = merge_all b.totals parts }

abbrev example_of : Option Text → ℕ → List LongestDtcPosition → List LongestDtcPosition
example_of none ply rest = rest
example_of (some epd) ply rest = record { epd = epd; ply = ply } ∷ rest

-- What `build` reads of the file.
pub record FileView : Type 0 where
  pub tablename : Text
  pub index_range : ℕ
  pub frame_size : ℕ
  pub num_frames : ℕ
  pub epd_of_index : ℕ → Option Text

abbrev pub materialize : FileView → List ℕ → ℕ → List LongestDtcPosition
materialize file [] ply = []
materialize file (local_idx ∷ candidates) ply =
    example_of (file.epd_of_index local_idx) ply (materialize file candidates ply)

unfoldable pub build : EgtStatsBuilder → FileView → ℕ → Text → EgtStats
build b file bytes sha256 = record {
  tablename = file.tablename;
  bytes = bytes;
  sha256 = sha256;
  index_range = file.index_range;
  frame_size = file.frame_size;
  num_frames = file.num_frames;
  unique_positions = add64 (add64 b.totals.win b.totals.draw) b.totals.loss;
  win = b.totals.win;
  draw = b.totals.draw;
  loss = b.totals.loss;
  invalid_opposite_check = b.invalid.n_opposite_check;
  invalid_ep_squares_occupied = b.invalid.n_ep_squares_occupied;
  invalid_illegal_ep_capture = b.invalid.n_illegal_ep_capture;
  redundant = b.totals.redundant;
  histogram_win = b.totals.histograms.0;
  histogram_loss = b.totals.histograms.1;
  longest_dtc_win = materialize file b.totals.candidates.0 b.maxima.0;
  longest_dtc_loss = materialize file b.totals.candidates.1 b.maxima.1;
}
