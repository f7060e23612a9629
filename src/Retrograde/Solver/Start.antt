-- ===== src/Retrograde/Solver/Start.antt =====
-- `initialize_table` of src/retrograde.rs. The shared reader is a parameter.
-- The chunks are taken in their order; the source takes them in parallel, and each has its own block.
pub mod Bounds
pub mod Cover
pub mod Convert
pub mod Value
pub mod Position
use Prim.Native.String.{String}
use chess_egt.Common.{
  ℕ, zero, suc, ◌+◌, ◌-◌, ◌*◌, ◌/◌, ◌%◌, ◌^◌, min, max, Bool, true, false, not, ◌&&◌, ◌||◌, List,
  [], ◌∷◌, ◌++◌, Option, none, some, ltb, ◌==◌, if◌then◌else◌, get_or, set, replicate, EgtError,
  EgtResult, ok, err, ◌>>=◌,
}
use chess_egt.Outcome.{
  ConversionType, promotion, capture, checkmate, ct_rank, MaybeDtcOutcome, MoveKind, is_conversion,
  invalid_word, draw_word, is_win, is_loss, new_win, new_loss, new_unknown,
}
use chess_egt.PieceSet.{EgtElement}
use chess_egt.Retrograde.{
  ct_gt, better_loss_ct, summary_block_size, SummaryKind, loss_kind, win_kind, index, BlockSummary,
  PlySummary, div_ceil,
}
use chess_egt.Retrograde.Solver.{Found, nothing_found, merge_found}
use chess_egt.Retrograde.Solver.Rules.{
  InvalidPosition, opposite_check, ep_squares_occupied, illegal_ep_capture, InvalidCounts,
  count_invalid, merge_invalid, Chess, Decoded, decoded, rejected, Egt, Run, returns, fails, panics,
  then_run, run, kings_on_long_diagonal, adjusts, u16_length, count_moves,
  symmetry_adjusted_move_counter,
}

-- `counter`, `win_conv` and `loss_conv`
pub record Conversions : Type 0 where
  pub counter : ℕ
  pub win_conv : Option ConversionType
  pub loss_conv : Option ConversionType

abbrev pub max_ct : Option ConversionType → ConversionType → ConversionType
max_ct none ct = ct
max_ct (some w) ct = if ct_gt w ct then w else ct

-- `counter -= 1` on u16
abbrev pub decremented : ℕ → ℕ
decremented counter = (counter + (2 ^ 16 - 1)) % 2 ^ 16

-- What one conversion adds, by the outcome of the position it leads to.
unfoldable pub convert : ConversionType → MaybeDtcOutcome → Conversions → Conversions
convert ct dep_outcome c =
    if is_loss dep_outcome
    then record c { win_conv = some (max_ct c.win_conv ct) }
    else if is_win dep_outcome
    then record c {
      counter = decremented c.counter;
      loss_conv = some (better_loss_ct c.loss_conv ct);
    }
    else c

pub record InitCounts : Type 0 where
  pub invalid : InvalidCounts
  pub checkmates : ℕ
  pub stalemates : ℕ
  pub found : Found

abbrev pub no_counts : InitCounts
no_counts = record {
  invalid = record { n_opposite_check = 0; n_ep_squares_occupied = 0; n_illegal_ep_capture = 0 };
  checkmates = 0;
  stalemates = 0;
  found = nothing_found;
}

unfoldable pub merge_counts : InitCounts → InitCounts → InitCounts
merge_counts a b = record {
  invalid = merge_invalid a.invalid b.invalid;
  checkmates = a.checkmates + b.checkmates;
  stalemates = a.stalemates + b.stalemates;
  found = merge_found a.found b.found;
}

-- `counts` and `ply_bounds` of a chunk
pub record Chunk : Type 0 where
  pub counts : InitCounts
  pub ply_bounds : BlockSummary

abbrev pub new_chunk : Chunk
new_chunk = record { counts = no_counts; ply_bounds = replicate 4 0 }

abbrev pub bound_at_least : SummaryKind → ℕ → BlockSummary → BlockSummary
bound_at_least kind n bounds = set bounds (index kind) (max (get_or bounds (index kind) 0) n)

abbrev pub add_win : Chunk → ConversionType → Chunk
add_win c ct = record {
  counts = record c.counts { found = record c.counts.found { wins = c.counts.found.wins + 1 } };
  ply_bounds = set c.ply_bounds (index (win_kind ct)) 2;
}

abbrev pub add_loss : Chunk → Chunk
add_loss c = record {
  counts = record c.counts { found = record c.counts.found { losses = c.counts.found.losses + 1 } };
  ply_bounds = set c.ply_bounds (index loss_kind) 2;
}

-- The value of a position with legal moves, from its conversions.
abbrev pub value_at_zero : Chunk → Option ConversionType → Run (MaybeDtcOutcome × Chunk)
value_at_zero c none = panics
value_at_zero c (some ct) = returns (new_loss ct 1, add_loss c)

abbrev pub value_by_counter : Chunk → ℕ → Option ConversionType → Run (MaybeDtcOutcome × Chunk)
value_by_counter c counter loss_conv =
    if counter == 0 then value_at_zero c loss_conv else returns (new_unknown counter, c)

unfoldable pub initial_value : Chunk → Conversions → Run (MaybeDtcOutcome × Chunk)
initial_value c v = elim v.win_conv [
  | some ct ↦ returns (new_win ct 1, add_win c ct)
  | none ↦ value_by_counter c v.counter v.loss_conv
]

-- A position with no legal move.
unfoldable pub no_moves : Bool → Chunk → MaybeDtcOutcome × Chunk
no_moves check c =
    if check
    then (
      new_loss checkmate 0,
      record {
        counts = record c.counts { checkmates = c.counts.checkmates + 1 };
        ply_bounds = bound_at_least loss_kind 1 c.ply_bounds;
      },
    )
    else (draw_word, record c { counts = record c.counts { stalemates = c.counts.stalemates + 1 } })

-- `diagonal_symmetric(idx).is_some_and(|other| idx > other)`
abbrev pub is_redundant : ℕ → Option ℕ → Bool
is_redundant idx none = false
is_redundant idx (some other) = ltb other idx

unfoldable pub invalid_index : Bool → InvalidPosition → Chunk → Chunk
invalid_index redundant reason c =
    if redundant
    then c
    else record c { counts = record c.counts { invalid = count_invalid c.counts.invalid reason } }

module _ (chess : Chess) (egt : Egt chess)
    (probe : chess.Position → EgtResult MaybeDtcOutcome) where
  unfoldable pub conversions :
      chess.Position → List chess.Move → Conversions → EgtResult Conversions
  conversions position [] c = ok c
  conversions position (m ∷ legals) c =
      let ct = if (chess.kind m).is_capture then capture else promotion in
      if is_conversion (chess.kind m)
      then probe (chess.play_unchecked position m)
        >>= (λ dep_outcome. conversions position legals (convert ct dep_outcome c))
      else conversions position legals c

  abbrev pub first_counter : chess.Position → List chess.Move → ℕ
  first_counter position legals =
      if egt.is_pawnless
      then symmetry_adjusted_move_counter chess position legals
      else u16_length chess legals

  abbrev pub position_value :
      chess.Position → List chess.Move → Chunk → Run (MaybeDtcOutcome × Chunk)
  position_value position [] c = returns (no_moves (chess.is_check position) c)
  position_value position (m ∷ ms) c =
      let start : Conversions = record {
        counter = first_counter position (m ∷ ms);
        win_conv = none;
        loss_conv = none;
      } in
      then_run (run (conversions position (m ∷ ms) start)) (initial_value c)

  abbrev pub decoded_value : ℕ → Chunk → Decoded chess → Run (MaybeDtcOutcome × Chunk)
  decoded_value idx c (rejected reason) =
      returns (invalid_word, invalid_index (is_redundant idx (egt.diagonal_symmetric idx)) reason c)
  decoded_value idx c (decoded position) = position_value position (chess.legal_moves position) c

  unfoldable pub initialize_cell : ℕ → Chunk → Run (MaybeDtcOutcome × Chunk)
  initialize_cell idx c =
      then_run (run (egt.position_from_index_with_reason idx)) (decoded_value idx c)

  -- `n` cells of a chunk from the index `idx` on
  unfoldable pub initialize_cells : ℕ → ℕ → Chunk → Run (List MaybeDtcOutcome × Chunk)
  initialize_cells idx zero c = returns ([], c)
  initialize_cells idx (suc n) c = then_run (initialize_cell idx c) (λ cell.
      then_run (initialize_cells (idx + 1) n cell.1) (λ rest. returns (cell.0 ∷ rest.0, rest.1)))

  -- The values and the blocks of `n` chunks from the block `block` on, with the merged counts
  unfoldable pub initialize_blocks :
      ℕ → ℕ → Run (List MaybeDtcOutcome × List BlockSummary × InitCounts)
  initialize_blocks block zero = returns ([], [], no_counts)
  initialize_blocks block (suc n) =
      let start = block * summary_block_size in
      let len = min summary_block_size (egt.index_range - start) in
      then_run (initialize_cells start len new_chunk) (λ chunk.
        then_run (initialize_blocks (block + 1) n) (λ rest.
          returns
            (chunk.0 ++ rest.0, chunk.1.ply_bounds ∷ rest.1, merge_counts chunk.1.counts rest.2)))

  unfoldable pub initialize_table : Run (List MaybeDtcOutcome × PlySummary × InitCounts)
  initialize_table =
      then_run (initialize_blocks 0 (div_ceil egt.index_range summary_block_size))
        (λ t. returns (t.0, record { size = egt.index_range; blocks = t.1 }, t.2))
