-- ===== src/Finalization/Built.antt =====
-- What the metadata built from the merged batches of a table says, src/finalization_stats.rs.
use chess_egt.Common.{
  ℕ, ◌+◌, ◌^◌, ◌%◌, ◌≡◌, refl, ap, ◌∙◌, Bool, ◌&&◌, List, [], ◌++◌, map, Option, ◌==◌, arith,
}
use chess_egt.Retrograde.Solver.Rules.{InvalidCounts}
use chess_egt.Stats.{EgtStats, Text, add64}
use chess_egt.Stats.Merge.{lookup, add_entries_lem}
use chess_egt.Finalization.{
  TableStats, Cell, Maxima, word_ply, merge_part, merge_all, default_stats, new_builder,
  merge_parts, FileView, materialize, build,
}
use chess_egt.Finalization.Tally.{
  raised, tally, only, picked, all_cells, batch_of, merge_all-tally, merge_all-picked,
}
use chess_egt.Finalization.Step.{
  Fine, joined, is_redundant, won, lost, drawn, longest_win, longest_loss, after_record,
  record_outcome-after, lookup-entered, recorded,
}

-- `+` on usize.
abbrev pub wraps : ℕ → ℕ
wraps n = n % 2 ^ 64

-- The cells of a class with a given distance.
abbrev pub at_ply : (Cell → Bool) → ℕ → Cell → Bool
at_ply p q c = p c && q == word_ply c.0

module _ (diagonal_symmetric : ℕ → Option ℕ) (maxima : Maxima) where
  -- The metadata of a table whose batches are recorded and merged.
  abbrev pub built : InvalidCounts → FileView → List (List Cell) → ℕ → Text → EgtStats
  built invalid file batches bytes sha256 =
      build
        (merge_parts (new_builder maxima invalid)
          (map (batch_of diagonal_symmetric maxima) batches))
        file bytes sha256

  abbrev merged : List (List Cell) → TableStats
  merged batches = merge_all default_stats (map (batch_of diagonal_symmetric maxima) batches)

  fold_count :
      (count : TableStats → ℕ) (p : Cell → Bool)
      → count default_stats ≡ 0
      → ((c : Cell) (s : TableStats)
          → Fine s
          → count (after_record diagonal_symmetric maxima c s) ≡ raised (p c) (count s))
      → ((t s : TableStats) → Fine t → Fine s → count (merge_part t s) ≡ add64 (count t) (count s))
      → (batches : List (List Cell)) → count (merged batches) ≡ wraps (tally p (all_cells batches))
  fold_count count p none_yet step join batches =
      let all =
        merge_all-tally diagonal_symmetric maxima Fine (tt, tt) (recorded diagonal_symmetric maxima)
          joined count p none_yet
          (λ c s h. ap count (record_outcome-after diagonal_symmetric maxima c s) ∙ step c s h) join
          batches default_stats 0 (tt, tt) (omega (arith, none_yet)) in
      omega (arith, all)

  fold_list :
      (list : TableStats → List ℕ) (p : Cell → Bool)
      → list default_stats ≡ []
      → ((c : Cell) (s : TableStats)
          → list (after_record diagonal_symmetric maxima c s) ≡ list s ++ only (p c) c.1)
      → ((t s : TableStats) → list (merge_part t s) ≡ list t ++ list s)
      → (batches : List (List Cell)) → list (merged batches) ≡ picked p (all_cells batches)
  fold_list list p none_yet step join batches =
      merge_all-picked diagonal_symmetric maxima Fine (tt, tt) (recorded diagonal_symmetric maxima)
        joined list p none_yet
        (λ c s. ap list (record_outcome-after diagonal_symmetric maxima c s) ∙ step c s) join
        batches default_stats
      ∙ ap (λ l. l ++ picked p (all_cells batches)) none_yet

  fold_lookups :
      (q : ℕ) (batches : List (List Cell))
      → (lookup q (merged batches).histograms.0
          ≡ wraps (tally (at_ply (won diagonal_symmetric maxima) q) (all_cells batches)))
        × (lookup q (merged batches).histograms.1
            ≡ wraps (tally (at_ply (lost diagonal_symmetric maxima) q) (all_cells batches)))
  unfolding merge_part
  fold_lookups q batches = (
    fold_count (λ s. lookup q s.histograms.0) (at_ply (won diagonal_symmetric maxima) q) refl
        (λ c s h.
          lookup-entered diagonal_symmetric maxima q (word_ply c.0)
            ((won diagonal_symmetric maxima) c) s.histograms.0 h.0)
        (λ t s g h. (add_entries_lem s.histograms.0 t.histograms.0 h.0 g.0).1 q) batches,
    fold_count (λ s. lookup q s.histograms.1) (at_ply (lost diagonal_symmetric maxima) q) refl
        (λ c s h.
          lookup-entered diagonal_symmetric maxima q (word_ply c.0)
            ((lost diagonal_symmetric maxima) c) s.histograms.1 h.1)
        (λ t s g h. (add_entries_lem s.histograms.1 t.histograms.1 h.1 g.1).1 q) batches,
  )

  -- For every split of a table into batches, the metadata built from their merged records counts, on
  -- usize, the wins, draws and losses of the cells that are not redundant, and the redundant cells;
  -- the histogram of wins has at every ply the number of wins of that ply, and that of losses the
  -- number of losses; the examples are the positions of the wins of the maximal ply, if it is not 0,
  -- and of the losses of the maximal ply, in the order of the batches.
  pub build_lem :
      (invalid : InvalidCounts) (file : FileView) (batches : List (List Cell)) (bytes : ℕ)
      (sha256 : Text)
      → let t = built invalid file batches bytes sha256 in
        let cells = all_cells batches in
        (t.win ≡ wraps (tally (won diagonal_symmetric maxima) cells))
        × (t.draw ≡ wraps (tally (drawn diagonal_symmetric maxima) cells))
        × (t.loss ≡ wraps (tally (lost diagonal_symmetric maxima) cells))
        × (t.redundant ≡ wraps (tally (is_redundant diagonal_symmetric maxima) cells))
        × (t.unique_positions
            ≡ wraps (
                tally (won diagonal_symmetric maxima) cells
                + tally (drawn diagonal_symmetric maxima) cells
                + tally (lost diagonal_symmetric maxima) cells))
        × ((q : ℕ)
            → (lookup q t.histogram_win
                ≡ wraps (tally (at_ply (won diagonal_symmetric maxima) q) cells))
              × (lookup q t.histogram_loss
                  ≡ wraps (tally (at_ply (lost diagonal_symmetric maxima) q) cells)))
        × (t.longest_dtc_win
            ≡ materialize file (picked (longest_win diagonal_symmetric maxima) cells) maxima.0)
        × (t.longest_dtc_loss
            ≡ materialize file (picked (longest_loss diagonal_symmetric maxima) cells) maxima.1)
  unfolding build merge_part
  build_lem invalid file batches bytes sha256 =
      let wins =
        fold_count (λ s. s.win) (won diagonal_symmetric maxima) refl (λ c s h. refl)
          (λ t s g h. refl) batches in
      let draws =
        fold_count (λ s. s.draw) (drawn diagonal_symmetric maxima) refl (λ c s h. refl)
          (λ t s g h. refl) batches in
      let losses =
        fold_count (λ s. s.loss) (lost diagonal_symmetric maxima) refl (λ c s h. refl)
          (λ t s g h. refl) batches in
      let halves =
        fold_count (λ s. s.redundant) (is_redundant diagonal_symmetric maxima) refl (λ c s h. refl)
          (λ t s g h. refl) batches in
      let longest =
        fold_list (λ s. s.candidates.0) (longest_win diagonal_symmetric maxima) refl (λ c s. refl)
          (λ t s. refl) batches in
      let longest' =
        fold_list (λ s. s.candidates.1) (longest_loss diagonal_symmetric maxima) refl (λ c s. refl)
          (λ t s. refl) batches in
      (
        wins,
        draws,
        losses,
        halves,
        omega (arith, wins, draws, losses),
        (λ q. fold_lookups q batches),
        ap (λ l. materialize file l maxima.0) longest,
        ap (λ l. materialize file l maxima.1) longest',
      )
