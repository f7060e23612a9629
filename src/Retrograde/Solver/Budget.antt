-- ===== src/Retrograde/Solver/Budget.antt =====
-- The unknown cells of the working arrays under the steps of the loop of `solve_pair`,
-- src/retrograde.rs: no step makes more of them, and each resolved position takes one away.
use chess_egt.Common.{
  ℕ, zero, suc, ◌+◌, ◌-◌, ◌≤◌, Bool, List, [], ◌∷◌, inl, inr, if◌then◌else◌, get_or, set, arith,
}
use chess_egt.Common.Grid.{put, cell}
use chess_egt.Outcome.{
  ConversionType, MaybeDtcOutcome, is_unknown, get_unknown_counter, new_win, new_loss, new_unknown,
}
use chess_egt.Outcome.Word.{new_win_classes, new_loss_classes}
use chess_egt.Retrograde.{outcome_ct}
use chess_egt.Retrograde.Update.{mark_win_cases}
use chess_egt.Retrograde.Countdown.{decrement_cases}
use chess_egt.Retrograde.Solver.{
  Working, Local, load, mark_pred, decrement_pred, each_pred, Process, process_all, scan_table,
  matches, merge_found, nothing_found, Side, process_win, process_loss,
}

abbrev one : MaybeDtcOutcome → ℕ
one v = if is_unknown v then 1 else 0

abbrev count : List MaybeDtcOutcome → ℕ
count [] = 0
count (v ∷ vs) = one v + count vs

-- The number of unknown cells.
abbrev pub unknowns : List (List MaybeDtcOutcome) → ℕ
unknowns [] = 0
unknowns (vs ∷ rows) = count vs + unknowns rows

one_le : (v : MaybeDtcOutcome) → one v ≤ 1
one_le v = ground arith

count-set :
    (vs : List MaybeDtcOutcome) (i v : ℕ)
    → count (set vs i v) + one (get_or vs i 0) ≤ count vs + one v
unfolding is_unknown
count-set [] i v = omega arith
count-set (x ∷ vs) zero v = omega arith
count-set (x ∷ vs) (suc i) v = omega (arith, count-set vs i v)

unknowns-put :
    (rows : List (List MaybeDtcOutcome)) (r i v : ℕ)
    → unknowns (put rows r i v) + one (cell rows r i 0) ≤ unknowns rows + one v
unfolding is_unknown
unknowns-put [] r i v = omega arith
unknowns-put (vs ∷ rows) zero i v = omega (arith, count-set vs i v)
unknowns-put (vs ∷ rows) (suc r) i v = omega (arith, unknowns-put rows r i v)

-- What is left to resolve, with what has been counted as resolved.
abbrev pub budget : Local → ℕ
budget (w, found) = unknowns w.values + (found.wins + found.losses)

mark_pred-budget :
    (twin : ℕ) (ct : ConversionType) (plies pred : ℕ) (s : Local)
    → budget (mark_pred twin ct plies pred s) ≤ budget s
unfolding mark_pred
mark_pred-budget twin ct plies pred (w, found) =
    let v = load w twin pred in
    elim (mark_win_cases ct plies v) [
      | inl e ↦ rw e (omega (arith, unknowns-put w.values twin pred v))
      | inr (inl (u, e)) ↦
          let fits = unknowns-put w.values twin pred (new_win ct plies) in
          let resolved = (new_win_classes ct plies).0 in
          rw e (omega (arith, rw (u, resolved) at fits))
      | inr (inr (win, e)) ↦
          let fits = unknowns-put w.values twin pred (new_win ct plies) in
          let resolved = (new_win_classes ct plies).0 in rw e (omega (arith, rw resolved at fits))
    ]

decrement_pred-budget :
    (twin : ℕ) (ct : ConversionType) (plies pred : ℕ) (s : Local)
    → budget (decrement_pred twin ct plies pred s) ≤ budget s
unfolding decrement_pred
decrement_pred-budget twin ct plies pred (w, found) =
    let v = load w twin pred in
    elim (decrement_cases ct plies v) [
      | inl e ↦ rw e (omega (arith, unknowns-put w.values twin pred v))
      | inr (inl (u, e)) ↦
          let fits = unknowns-put w.values twin pred (new_loss ct plies) in
          let resolved = (new_loss_classes ct plies).0 in
          rw e (omega (arith, rw (u, resolved) at fits))
      | inr (inr (u, e)) ↦
          let fits = unknowns-put w.values twin pred (new_unknown (get_unknown_counter v - 1)) in
          rw e (omega (arith, rw u at fits, one_le (new_unknown (get_unknown_counter v - 1))))
    ]

each_pred-budget :
    (step : ℕ → Local → Local) (preds : List ℕ) (s : Local)
    → ((pred : ℕ) (s : Local) → budget (step pred s) ≤ budget s)
    → budget (each_pred step preds s) ≤ budget s
each_pred-budget step [] s h = omega arith
each_pred-budget step (pred ∷ preds) s h =
    omega (arith, h pred s, each_pred-budget step preds (step pred s) h)

-- A process that resolves no more than it takes away.
abbrev pub Spends : Process → Type 0
Spends process = (idx v : ℕ) (s : Local) → budget (process idx v s) ≤ budget s

pub process_win-Spends : (side : Side) (plies : ℕ) → Spends (process_win side plies)
process_win-Spends side plies idx v s =
    each_pred-budget (mark_pred side.twin_slot (outcome_ct v) plies) (side.unmoves idx) s
      (mark_pred-budget side.twin_slot (outcome_ct v) plies)

pub process_loss-Spends :
    (side : Side) (ct : ConversionType) (plies : ℕ) → Spends (process_loss side ct plies)
process_loss-Spends side ct plies idx v s =
    each_pred-budget (decrement_pred side.twin_slot ct plies) (side.unmoves idx) s
      (decrement_pred-budget side.twin_slot ct plies)

process_all-budget :
    (process : Process) (found_here : List (ℕ × MaybeDtcOutcome)) (s : Local)
    → Spends process
    → budget (process_all process found_here s) ≤ budget s
process_all-budget process [] s h = omega arith
process_all-budget process ((idx, v) ∷ rest) s h =
    omega (arith, h idx v s, process_all-budget process rest (process idx v s) h)

pub scan_table-budget :
    (select : MaybeDtcOutcome → Bool) (process : Process) (slot : ℕ) (blocks : List (ℕ × ℕ))
    (w : Working)
    → Spends process
    → budget (scan_table select process slot blocks w) ≤ unknowns w.values
unfolding scan_table merge_found
scan_table-budget select process slot [] w h = omega arith
scan_table-budget select process slot ((start, end) ∷ blocks) w h =
    let found_here = matches select (get_or w.values slot []) start (end - start) in
    let here = process_all process found_here (w, nothing_found) in
    omega (
      arith,
      process_all-budget process found_here (w, nothing_found) h,
      scan_table-budget select process slot blocks here.0 h,
    )
