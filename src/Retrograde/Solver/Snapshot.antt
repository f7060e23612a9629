-- ===== src/Retrograde/Solver/Snapshot.antt =====
-- A scan of src/retrograde.rs whose process keeps the matches as they are and only adds to the counts
-- processes the matches that the table held when the scan began.
use chess_egt.Common.{
  ℕ, ◌+◌, ◌-◌, ◌≡◌, refl, sym, ap, ◌∙◌, Bool, List, [], ◌∷◌, ◌++◌, inl, inr, get_or, arith,
}
use chess_egt.Outcome.{ConversionType, MaybeDtcOutcome}
use chess_egt.Retrograde.{outcome_ct}
use chess_egt.Retrograde.Update.{mark_win_cases}
use chess_egt.Retrograde.Countdown.{decrement_cases}
use chess_egt.Retrograde.Solver.{
  Found, merge_found, nothing_found, Working, Local, load, mark_pred, decrement_pred, each_pred,
  Process, process_all, scan_table, matches, Side, process_win, process_loss,
}
use chess_egt.Retrograde.Solver.Kept.{Same, Keeps, process_all-Same, matches-Same}

-- Counts of other workers, merged in.
abbrev pub credit : Found → Local → Local
credit f (w, g) = (w, merge_found f g)

merge_assoc : (f g h : Found) → merge_found (merge_found f g) h ≡ merge_found f (merge_found g h)
unfolding merge_found
merge_assoc f g h =
    let a : f.wins + g.wins + h.wins ≡ f.wins + (g.wins + h.wins) = omega arith in
    let b : f.losses + g.losses + h.losses ≡ f.losses + (g.losses + h.losses) = omega arith in
    rw (a, b) refl

pub merge-nothing_found : (f : Found) → merge_found f nothing_found ≡ f
unfolding merge_found
merge-nothing_found f =
    let a : f.wins + 0 ≡ f.wins = omega arith in
    let b : f.losses + 0 ≡ f.losses = omega arith in rw (a, b) refl

more_wins :
    (f g : Found)
    → record (merge_found f g) { wins = (merge_found f g).wins + 1 }
      ≡ merge_found f (record g { wins = g.wins + 1 })
unfolding merge_found
more_wins f g = let a : f.wins + g.wins + 1 ≡ f.wins + (g.wins + 1) = omega arith in rw a refl

more_losses :
    (f g : Found)
    → record (merge_found f g) { losses = (merge_found f g).losses + 1 }
      ≡ merge_found f (record g { losses = g.losses + 1 })
unfolding merge_found
more_losses f g =
    let a : f.losses + g.losses + 1 ≡ f.losses + (g.losses + 1) = omega arith in rw a refl

-- A step or a process that only adds to the counts.
abbrev AddsStep : (ℕ → Local → Local) → Type 0
AddsStep step = (f : Found) (pred : ℕ) (s : Local) → step pred (credit f s) ≡ credit f (step pred s)

abbrev pub Adds : Process → Type 0
Adds process =
    (f : Found) (idx v : ℕ) (s : Local) → process idx v (credit f s) ≡ credit f (process idx v s)

mark_pred-AddsStep :
    (twin : ℕ) (ct : ConversionType) (plies : ℕ) → AddsStep (mark_pred twin ct plies)
unfolding mark_pred
mark_pred-AddsStep twin ct plies f pred (w, g) = elim (mark_win_cases ct plies (load w twin pred)) [
  | inl e ↦ rw e refl
  | inr (inl (u, e)) ↦ rw (e, more_wins f g) refl
  | inr (inr (u, e)) ↦ rw e refl
]

decrement_pred-AddsStep :
    (twin : ℕ) (ct : ConversionType) (plies : ℕ) → AddsStep (decrement_pred twin ct plies)
unfolding decrement_pred
decrement_pred-AddsStep twin ct plies f pred (w, g) =
    elim (decrement_cases ct plies (load w twin pred)) [
      | inl e ↦ rw e refl
      | inr (inl (u, e)) ↦ rw (e, more_losses f g) refl
      | inr (inr (u, e)) ↦ rw e refl
    ]

each_pred-credit :
    (step : ℕ → Local → Local) (preds : List ℕ) (f : Found) (s : Local)
    → AddsStep step
    → each_pred step preds (credit f s) ≡ credit f (each_pred step preds s)
each_pred-credit step [] f s h = refl
each_pred-credit step (pred ∷ preds) f s h =
    rw (h f pred s) (each_pred-credit step preds f (step pred s) h)

pub process_win-Adds : (side : Side) (plies : ℕ) → Adds (process_win side plies)
process_win-Adds side plies f idx v s =
    each_pred-credit (mark_pred side.twin_slot (outcome_ct v) plies) (side.unmoves idx) f s
      (mark_pred-AddsStep side.twin_slot (outcome_ct v) plies)

pub process_loss-Adds :
    (side : Side) (ct : ConversionType) (plies : ℕ) → Adds (process_loss side ct plies)
process_loss-Adds side ct plies f idx v s =
    each_pred-credit (decrement_pred side.twin_slot ct plies) (side.unmoves idx) f s
      (decrement_pred-AddsStep side.twin_slot ct plies)

process_all-credit :
    (process : Process) (found_here : List (ℕ × MaybeDtcOutcome)) (f : Found) (s : Local)
    → Adds process
    → process_all process found_here (credit f s) ≡ credit f (process_all process found_here s)
process_all-credit process [] f s h = refl
process_all-credit process ((idx, v) ∷ rest) f s h =
    rw (h f idx v s) (process_all-credit process rest f (process idx v s) h)

process_all-append :
    (process : Process) (a b : List (ℕ × MaybeDtcOutcome)) (s : Local)
    → process_all process (a ++ b) s ≡ process_all process b (process_all process a s)
process_all-append process [] b s = refl
process_all-append process ((idx, v) ∷ a) b s = process_all-append process a b (process idx v s)

-- The matches in some ranges of one array.
abbrev pub matches_in :
    (MaybeDtcOutcome → Bool) → List MaybeDtcOutcome → List (ℕ × ℕ) → List (ℕ × MaybeDtcOutcome)
matches_in select values [] = []
matches_in select values ((start, end) ∷ blocks) =
    matches select values start (end - start) ++ matches_in select values blocks

pub matches_in-Same :
    (select : MaybeDtcOutcome → Bool) (w w' : Working) (slot : ℕ) (blocks : List (ℕ × ℕ))
    → Same select w w'
    → matches_in select (get_or w'.values slot []) blocks
      ≡ matches_in select (get_or w.values slot []) blocks
matches_in-Same select w w' slot [] h = refl
matches_in-Same select w w' slot ((start, end) ∷ blocks) h =
    rw
      (
        matches-Same select w w' slot start (end - start) h,
        matches_in-Same select w w' slot blocks h,
      )
      refl

pub scan_table-matches_in :
    (select : MaybeDtcOutcome → Bool) (process : Process) (slot : ℕ) (blocks : List (ℕ × ℕ))
    (w : Working)
    → Keeps select process
    → Adds process
    → scan_table select process slot blocks w
      ≡ process_all process (matches_in select (get_or w.values slot []) blocks) (w, nothing_found)
unfolding scan_table
scan_table-matches_in select process slot [] w h k = refl
scan_table-matches_in select process slot ((start, end) ∷ blocks) w h k =
    let found_here = matches select (get_or w.values slot []) start (end - start) in
    let (w', f) = process_all process found_here (w, nothing_found) in
    let same =
      matches_in-Same select w w' slot blocks
        (process_all-Same select process found_here (w, nothing_found) h) in
    let rest = matches_in select (get_or w.values slot []) blocks in
    rw
      (
        scan_table-matches_in select process slot blocks w' h k,
        process_all-append process found_here rest (w, nothing_found),
        same,
      )
      (sym (process_all-credit process rest f (w', nothing_found) k)
        ∙ ap (λ g. process_all process rest (w', g)) (merge-nothing_found f))
