-- ===== src/Retrograde/Solver/Phases.antt =====
-- What the scans of phase W and of phase L of src/retrograde.rs see of their own writes.
use chess_egt.Common.{ℕ, ◌≡◌, Bool, List, [], get_or}
use chess_egt.Outcome.{ConversionType, MaybeDtcOutcome}
use chess_egt.Retrograde.Solver.{
  Working, nothing_found, Process, process_all, scan_table, Side, process_win, process_loss,
  is_loss_at,
}
use chess_egt.Retrograde.Solver.Kept.{
  Keeps, process_all-Same, process_win-Keeps, process_loss-Keeps,
}
use chess_egt.Retrograde.Solver.Snapshot.{
  Adds, process_win-Adds, process_loss-Adds, matches_in, matches_in-Same, scan_table-matches_in,
}
use chess_egt.Retrograde.Solver.Reference.{is_target, is_loss_at-Selects, is_target-Selects}

-- A scan does what its process does with the matches that the table held before it, and leaves the
-- same matches in every block of every table.
abbrev pub SeesNoWrites : (MaybeDtcOutcome → Bool) → Process → ℕ → List (ℕ × ℕ) → Working → Type 0
SeesNoWrites select process slot blocks w =
    let held = matches_in select (get_or w.values slot []) blocks in
    let after = scan_table select process slot blocks w in
    (after ≡ process_all process held (w, nothing_found))
    × ((other : ℕ) (ranges : List (ℕ × ℕ))
        → matches_in select (get_or after.0.values other []) ranges
          ≡ matches_in select (get_or w.values other []) ranges)

scan_table-SeesNoWrites :
    (select : MaybeDtcOutcome → Bool) (process : Process) (slot : ℕ) (blocks : List (ℕ × ℕ))
    (w : Working)
    → Keeps select process
    → Adds process
    → SeesNoWrites select process slot blocks w
scan_table-SeesNoWrites select process slot blocks w h k =
    let held = matches_in select (get_or w.values slot []) blocks in
    let all = scan_table-matches_in select process slot blocks w h k in
    let same = process_all-Same select process held (w, nothing_found) h in
    (
      all,
      λ other ranges. rw all (
          matches_in-Same select w (process_all process held (w, nothing_found)).0 other ranges
            same),
    )

-- In both phases, for every ply, conversion type and choice of blocks, and also where a table is
-- its own twin, a scan updates the predecessors of exactly the positions that the blocks held as
-- losses (phase W) of the ply before, or as the word of a win of the type at that ply (phase L),
-- when it began; its updates neither add such a position to any block of any table nor change or
-- remove one.
pub phases_see_no_writes :
    (side : Side) (ct : ConversionType) (plies : ℕ) (blocks : List (ℕ × ℕ)) (w : Working)
    → SeesNoWrites (is_loss_at plies) (process_win side plies) side.slot blocks w
      × SeesNoWrites (is_target ct plies) (process_loss side ct plies) side.slot blocks w
phases_see_no_writes side ct plies blocks w = (
  scan_table-SeesNoWrites (is_loss_at plies) (process_win side plies) side.slot blocks w
      (process_win-Keeps (is_loss_at plies) side plies (is_loss_at-Selects plies))
      (process_win-Adds side plies),
  scan_table-SeesNoWrites (is_target ct plies) (process_loss side ct plies) side.slot blocks w
      (process_loss-Keeps (is_target ct plies) side ct plies (is_target-Selects ct plies))
      (process_loss-Adds side ct plies),
)
