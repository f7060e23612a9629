-- ===== src/Lib.antt =====
-- Verification of chess-egt, a generator and prober of chess endgame tables by retrograde analysis.
--
-- The program stores, for every placement of a set of pieces, the distance to conversion (a
-- checkmate, a capture or a promotion) of the side to move. A placement is numbered by the indexer
-- (src/egt/indexer.rs); the value is a 16-bit word (src/egt_file.rs); the solver
-- (src/retrograde.rs) fills an array of such words by parallel backward passes; the words are
-- transposed frame by frame and compressed (src/egt_file.rs, src/egt_writer.rs). The library
-- interface (src/lib.rs) generates, verifies and probes the tables.
--
-- Files:
-- Common: numbers, lists, tests, bits, and `EgtError` and `EgtResult` (src/error.rs).
-- Outcome: `DtcOutcome`, its order and `move_value` (src/lib.rs), and the word `MaybeDtcOutcome`
--   (src/egt_file.rs). Outcome/Word: packing. Outcome/Order, Outcome/Value: the order.
-- Indexer: the pieces other than pawns (src/egt/indexer.rs). Indexer/Table: `N_CHOOSE_K`.
--   Indexer/Choose: binomial coefficients. Indexer/Largest: the search of `index_to_cpidx`.
--   Indexer/Rank: one group of like pieces. Indexer/Radix, Indexer/Plan: all groups of a table.
--   Indexer/Compact: `compact_pidx` and `uncompact_cpidx`.
-- Board: squares, their numbers, and the symmetries of the board (src/egt/indexer.rs).
-- Frame: `transpose_frame` and `detranspose_frame` (src/egt_file.rs).
-- Retrograde: the state that the solver's workers share (src/retrograde.rs). Retrograde/Update and
--   Retrograde/Countdown: `mark_win` and `decrement` called one after another. Retrograde/Race:
--   `mark_win` by several workers at once; Race/Finish: its accesses. Retrograde/Summary: `PlySummary`.
-- Retrograde/Solver: the passes and the rounds of `solve_pair` (src/retrograde.rs). Its children
--   Rules, with the counts of src/position.rs, Start and Pair: `initialize_table`, `quiet_unmoves`,
--   `solve_pair`. Start/Convert, Start/Value, Start/Position: the initial value of a position. Start/Bounds,
--   Start/Cover: the initial summaries. Solver/Budget, Solver/Terminates: the unknown cells that are
--   left. Solver/Kept, Solver/Snapshot, Solver/Phases: a scan and its own writes. Solver/Skipped, Solver/Covered,
--   Solver/Sweep, Solver/Reference: the blocks that a scan may skip. Pair/Ready, Pair/Solved: the
--   whole.
-- Reader: `EgtFileReader` (src/egt_file.rs). Reader/Layout: where a frame starts. Reader/Access:
--   reads and writes by index.
-- Cache: the accounting of `SharedFileCache` (src/egt_file.rs), and Cache/Accounting: its invariant.
-- PieceSet: `EgtElement` and `validate_elements` (src/piece_set.rs). PieceSet/Seen: one step of its
--   loop. PieceSet/Material: what it accepts.
-- TableId: the pawns of a table's identity (src/table_id.rs). TableId/Words: one file word at a time.
--   TableId/Orient: the canonical orientation. TableId/Flags: the opposed-pawn flags.
-- Stats: the records of src/stats.rs and their sums. Stats/Validate: their validation.
--   Stats/Totals, Stats/Merge, Stats/Partition: what is summed, merged and accepted.
-- Finalization: the statistics of finished tables (src/finalization_stats.rs). Tally: folds over
--   the records of merged batches. Step: one record. Built: the metadata.
-- Verify: `verify_egt`, `verify_block` and `best_outcome` (src/lib.rs). Verify/Best: the greatest value
--   of a move. Verify/Block: what a block that is accepted holds. Verify/Tiles: the blocks of a table.
-- Each folder's Tests holds runs at concrete inputs.
--
-- Conventions. An unsigned number is a native natural number; `% 2 ^ 16` and `% 2 ^ 8` stand where
-- the source works on u16 and u8. The usize values of the indexer are
-- not reduced, since those of eight pieces stay below 2 ^ 64. A buffer that the source changes in place is a list that a
-- function takes and returns. A failed assertion or a read out of range that panics is `none` where
-- a function returns an option; elsewhere a read out of range gives 0 and the theorems ask that the
-- slots lie in the buffer. Loops are structural recursion on the rounds that are left, counted from
-- the bounds the source writes, so none runs out. The retry loop of `mark_win` has no bound in the source: it is a
-- step relation, in which a weak compare-and-exchange may fail at any time. A relaxed atomic access
-- is one step on the cell, as only a single cell matters to each call.
--
-- Two panics that the program cannot reach are left out: `compact_pidx` of an empty buffer, which is
-- always given two kings, and a seventh pawn of one side in `canonicalized`, as a table has at most
-- eight pieces.
--
-- `binary_search` of the standard library is a function that finds the first entry that is not
-- below the target, which is what the library documents for a sorted slice that holds the target at
-- most once.
--
-- Not modelled: chess positions and moves (the shakmaty package), storage and compression (the
-- object_store and zeekstd packages), the pawn map and the king pair map of the indexer, the
-- eviction from the shared frame cache, the generators of predecessor positions, JSON files, the names and the selection of
-- tables, the command line and the server.
pub mod Common
pub mod Outcome
pub mod Indexer
pub mod Frame
pub mod Retrograde
pub mod Stats
pub mod Reader
pub mod PieceSet
pub mod Cache
pub mod Board
pub mod TableId
pub mod Verify
pub mod Finalization
