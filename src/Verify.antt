-- ===== src/Verify.antt =====
-- The verification of a table against its own moves: `verify_egt`, `verify_block` and `best_outcome`
-- of src/lib.rs. The chess rules, the decoding of an index, the reader and the texts of diagnostics
-- are parameters. The blocks are taken in their order; the source takes them in parallel.
pub mod Best
pub mod Block
pub mod Tiles
mod Tests
use Prim.Native.Nat.{Ordering}
use Prim.Native.String.{String, ◌++◌ as ◌<>◌}
use chess_egt.Common.{
  ℕ, zero, suc, ◌+◌, ◌-◌, min, Bool, true, false, not, ◌&&◌, List, [], ◌∷◌, ◌++◌, Option, none,
  some, ltb, ◌==◌, if◌then◌else◌, EgtError, EgtResult, ok, err, ◌>>=◌, ◌>>◌,
  consistency_check_failed, internal,
}
use chess_egt.Outcome.{
  ConversionType, checkmate, ct_rank, DtcOutcome, win, draw, loss, cmp, move_value, MaybeDtcOutcome,
  is_invalid, to_outcome_at,
}
use chess_egt.Retrograde.Solver.Rules.{Chess}

-- The derived equality of outcomes.
abbrev pub same_outcome : DtcOutcome → DtcOutcome → Bool
same_outcome (win a n) (win b m) = ct_rank a == ct_rank b && n == m
same_outcome draw draw = true
same_outcome (loss a n) (loss b m) = ct_rank a == ct_rank b && n == m
same_outcome (win a n) draw = false
same_outcome (win a n) (loss b m) = false
same_outcome draw (win b m) = false
same_outcome draw (loss b m) = false
same_outcome (loss a n) (win b m) = false
same_outcome (loss a n) draw = false

abbrev pub is_more : Ordering → Bool
is_more Ordering.lt = false
is_more Ordering.eq = false
is_more Ordering.gt = true

abbrev pub better_value : DtcOutcome → Option DtcOutcome → DtcOutcome
better_value v none = v
better_value v (some best) = if is_more (cmp v best) then v else best

abbrev pub or_internal : Option DtcOutcome → EgtResult DtcOutcome
or_internal none = err (internal "best_value should be Some when legals is non-empty")
or_internal (some best) = ok best

-- The texts of diagnostics.
pub record Texts (chess : Chess) : Type 0 where
  pub show_index : ℕ → String
  pub show_outcome : DtcOutcome → String
  pub describe_mismatch : chess.Position → List chess.Move → DtcOutcome → DtcOutcome → String

module _ (chess : Chess) (probe_outcome : chess.Position → EgtResult DtcOutcome) where
  -- The loop from the best value so far on
  abbrev pub best_from :
      chess.Position → List chess.Move → Option DtcOutcome → EgtResult (Option DtcOutcome)
  best_from position [] best_value = ok best_value
  best_from position (m ∷ legals) best_value =
      probe_outcome (chess.play_unchecked position m) >>= (λ successor_outcome.
        let v_m = move_value (chess.kind m) successor_outcome in
        best_from position legals (some (better_value v_m best_value)))

  unfoldable pub best_outcome : chess.Position → List chess.Move → EgtResult DtcOutcome
  best_outcome position legals = best_from position legals none >>= or_internal

  module _ (endgame tablename : String) (position_from_index : ℕ → Option chess.Position)
      (texts : Texts chess) where
    pub fail : ℕ → String → EgtError
    fail local_idx reason =
        let index = texts.show_index local_idx in
        consistency_check_failed endgame local_idx
          ("table " <> tablename <> ", local index " <> index <> ": " <> reason)

    abbrev pub expect : ℕ → String → DtcOutcome → DtcOutcome → EgtResult (Unit {0})
    expect local_idx reason outcome expected =
        if same_outcome outcome expected then ok tt else err (fail local_idx reason)

    abbrev pub verify_outcome :
        ℕ → chess.Position → List chess.Move → DtcOutcome → EgtResult (Unit {0})
    verify_outcome local_idx position [] outcome =
        if chess.is_check position
        then expect local_idx ("checkmate position has outcome " <> texts.show_outcome outcome)
            outcome (loss checkmate 0)
        else expect local_idx ("stalemate position has outcome " <> texts.show_outcome outcome)
            outcome draw
    verify_outcome local_idx position (m ∷ ms) outcome = best_outcome position (m ∷ ms) >>= (λ best.
        expect local_idx (texts.describe_mismatch position (m ∷ ms) outcome best) outcome best)

    abbrev pub verify_decoded : ℕ → MaybeDtcOutcome → Option chess.Position → EgtResult (Unit {0})
    verify_decoded local_idx outcome_maybe none =
        if is_invalid outcome_maybe
        then ok tt
        else err (fail local_idx "index is invalid but outcome is not invalid")
    verify_decoded local_idx outcome_maybe (some position) =
        if is_invalid outcome_maybe
        then err (fail local_idx "index is valid but outcome is invalid")
        else to_outcome_at outcome_maybe local_idx
          >>= verify_outcome local_idx position (chess.legal_moves position)

    -- The loop over the outcomes of a block from the index `local_idx` on
    unfoldable pub verify_cells : ℕ → List MaybeDtcOutcome → EgtResult (Unit {0})
    verify_cells local_idx [] = ok tt
    verify_cells local_idx (outcome_maybe ∷ outcomes) =
        verify_decoded local_idx outcome_maybe (position_from_index local_idx)
        >> verify_cells (local_idx + 1) outcomes

    unfoldable pub verify_block :
        (ℕ → ℕ → EgtResult (List MaybeDtcOutcome)) → ℕ → ℕ → EgtResult (Unit {0})
    verify_block read_chunk start end = read_chunk start end >>= verify_cells start

-- `(start..end).step_by(step)`, where `n` more values are enough
abbrev pub step_by : ℕ → ℕ → ℕ → ℕ → List ℕ
step_by zero start end step = []
step_by (suc n) start end step =
    let rest = step_by n (start + step) end step in if ltb start end then start ∷ rest else []

abbrev pub blocks_of : ℕ → ℕ → List ℕ → List (ℕ × ℕ)
blocks_of block_size frame_end [] = []
blocks_of block_size frame_end (start ∷ starts) =
    (start, min (start + block_size) frame_end) ∷ blocks_of block_size frame_end starts

abbrev pub frames_of : ℕ → ℕ → ℕ → List ℕ → List (ℕ × ℕ)
frames_of local_range frame_size block_size [] = []
frames_of local_range frame_size block_size (frame_start ∷ starts) =
    let frame_end = min (frame_start + frame_size) local_range in
    blocks_of block_size frame_end (step_by frame_end frame_start frame_end block_size)
    ++ frames_of local_range frame_size block_size starts

-- The blocks of `verify_egt`.
unfoldable pub verify_blocks : ℕ → ℕ → List (ℕ × ℕ)
verify_blocks local_range frame_size =
    let block_size = min 4096 frame_size in
    frames_of local_range frame_size block_size (step_by local_range 0 local_range frame_size)
