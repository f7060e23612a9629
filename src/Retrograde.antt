-- ===== src/Retrograde.antt =====
-- The shared state of the solver, src/retrograde.rs: the updates that workers race on
-- (`WorkingPair::mark_win` and `WorkingPair::decrement`), the per-block summaries (`PlySummary`),
-- and the preference among conversion types.
-- A working array is a list of u16 words, and an atomic update of a cell is one step.
pub mod Update
pub mod Countdown
pub mod Race
pub mod Summary
pub mod Solver
mod Tests
use chess_egt.Common.{
  ℕ, zero, suc, ◌+◌, ◌-◌, ◌*◌, ◌/◌, ◌%◌, ◌^◌, min, max, bit_and, Bool, true, false, not, ◌&&◌, ◌||◌,
  List, [], ◌∷◌, Option, none, some, ltb, leb, ◌==◌, if◌then◌else◌, get_or, set, replicate,
}
use chess_egt.Outcome.{
  ConversionType, promotion, capture, checkmate, MaybeDtcOutcome, ct_rank, is_unknown, is_win,
  get_unknown_counter, new_win, new_loss, new_unknown,
}

pub data WinUpdate : Type 0 where
  unchanged newly_resolved upgraded : WinUpdate

-- Distance of a win or a loss.
unfoldable pub ply : MaybeDtcOutcome → ℕ
ply v = v / 2 ^ 3

-- Conversion type of a win or a loss.
unfoldable pub outcome_ct : MaybeDtcOutcome → ConversionType
outcome_ct v =
    let bits = bit_and v 6 in
    if bits == 2 then checkmate else if bits == 4 then capture else promotion

abbrev pub ct_gt : ConversionType → ConversionType → Bool
ct_gt a b = ltb (ct_rank b) (ct_rank a)

-- One round of `mark_win` on the word it holds: `none` returns `Unchanged`, and `some` is the word
-- to swap in and what is returned if that succeeds.
pub mark_win_round : ConversionType → ℕ → MaybeDtcOutcome → Option (MaybeDtcOutcome × WinUpdate)
mark_win_round ct plies v =
    if not (is_unknown v) && not (is_win v && ply v == plies && ct_gt ct (outcome_ct v))
    then none
    else some (new_win ct plies, if is_unknown v then newly_resolved else upgraded)

-- One round of `decrement`: `none` returns false.
pub decrement_round : ConversionType → ℕ → MaybeDtcOutcome → Option (MaybeDtcOutcome × Bool)
decrement_round ct plies v =
    let counter = get_unknown_counter v in
    let next = if counter == 1 then new_loss ct plies else new_unknown (counter - 1) in
    if is_unknown v then some (next, counter == 1) else none

-- A call that meets no other worker: the word it leaves, and what it returns.
abbrev alone {ℓ} :
    {R : Type ℓ} → R → MaybeDtcOutcome → Option (MaybeDtcOutcome × R) → MaybeDtcOutcome × R
alone idle v none = (v, idle)
alone idle v (some (next, result)) = (next, result)

pub mark_win : ConversionType → ℕ → MaybeDtcOutcome → MaybeDtcOutcome × WinUpdate
unfolding mark_win_round
mark_win ct plies v = alone unchanged v (mark_win_round ct plies v)

pub decrement : ConversionType → ℕ → MaybeDtcOutcome → MaybeDtcOutcome × Bool
unfolding decrement_round
decrement ct plies v = alone false v (decrement_round ct plies v)

-- Preference among conversion types for a loss.
pub loss_rank : ConversionType → ℕ
loss_rank checkmate = 0
loss_rank capture = 1
loss_rank promotion = 2

unfoldable pub better_loss_ct : Option ConversionType → ConversionType → ConversionType
unfolding loss_rank
better_loss_ct none b = b
better_loss_ct (some a) b = if leb (loss_rank b) (loss_rank a) then a else b

abbrev pub summary_block_size : ℕ
summary_block_size = 4096

pub data SummaryKind : Type 0 where
  loss_kind : SummaryKind
  win_kind : ConversionType → SummaryKind

abbrev pub index : SummaryKind → ℕ
index loss_kind = 0
index (win_kind checkmate) = 1
index (win_kind capture) = 2
index (win_kind promotion) = 3

-- `ply_bounds` of one block: 0 is empty, otherwise the greatest recorded ply and 1.
abbrev pub BlockSummary : Type 0
BlockSummary = List ℕ

pub record PlySummary : Type 0 where
  pub size : ℕ
  pub blocks : List BlockSummary

abbrev pub div_ceil : ℕ → ℕ → ℕ
div_ceil a b = (a + (b - 1)) / b

unfoldable pub new_summary : ℕ → PlySummary
new_summary size = record {
  size = size;
  blocks = replicate (div_ceil size summary_block_size) (replicate 4 0);
}

abbrev pub bound_of : PlySummary → ℕ → SummaryKind → ℕ
bound_of s block kind = get_or (get_or s.blocks block []) (index kind) 0

-- `plies + 1` on u16
abbrev pub ply_bound : ℕ → ℕ
ply_bound plies = (plies + 1) % 2 ^ 16

-- `PlySummary::record`
unfoldable pub note : PlySummary → ℕ → SummaryKind → ℕ → PlySummary
note s local_index kind plies =
    let block = local_index / summary_block_size in
    let bounds = get_or s.blocks block [] in
    let last = get_or bounds (index kind) 0 in
    if ltb last (ply_bound plies)
    then record s {
      blocks = set s.blocks block (set bounds (index kind) (max last (ply_bound plies)));
    }
    else s

-- The enumeration in `blocks_with`, from block `b` on.
pub blocks_from : ℕ → ℕ → SummaryKind → ℕ → List BlockSummary → List (ℕ × ℕ)
blocks_from size b kind bound [] = []
blocks_from size b kind bound (block ∷ blocks) =
    let start = b * summary_block_size in
    let rest = blocks_from size (b + 1) kind bound blocks in
    if leb bound (get_or block (index kind) 0)
    then (start, min (start + summary_block_size) size) ∷ rest
    else rest

unfoldable pub blocks_with : PlySummary → SummaryKind → ℕ → List (ℕ × ℕ)
unfolding blocks_from
blocks_with s kind plies = blocks_from s.size 0 kind (ply_bound plies) s.blocks
