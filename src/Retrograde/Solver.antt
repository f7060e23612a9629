-- ===== src/Retrograde/Solver.antt =====
-- The propagation loop of `solve_pair` in src/retrograde.rs: the scan of a table, phase W, the
-- sub-phases of phase L, and the rounds.
-- The workers of a scan are taken one after another, each with the blocks in their order; what
-- workers do to a cell at once is in Retrograde/Race.
pub mod Rules
pub mod Start
pub mod Pair
pub mod Budget
pub mod Terminates
pub mod Kept
pub mod Snapshot
pub mod Skipped
pub mod Covered
pub mod Sweep
pub mod Reference
pub mod Phases
mod Tests
use chess_egt.Common.{
  ℕ, zero, suc, ◌+◌, ◌-◌, ◌%◌, ◌^◌, Bool, true, false, not, ◌&&◌, ◌||◌, List, [], ◌∷◌, Option, none,
  some, ltb, ◌==◌, if◌then◌else◌, get_or, set,
}
use chess_egt.Common.Grid.{put, cell}
use chess_egt.Outcome.{
  ConversionType, promotion, capture, checkmate, MaybeDtcOutcome, is_loss, new_win,
}
use chess_egt.Retrograde.{
  WinUpdate, unchanged, newly_resolved, upgraded, ply, outcome_ct, mark_win, decrement, SummaryKind,
  loss_kind, win_kind, PlySummary, note, blocks_with,
}

pub record Found : Type 0 where
  pub wins : ℕ
  pub losses : ℕ

abbrev pub nothing_found : Found
nothing_found = record { wins = 0; losses = 0 }

pub merge_found : Found → Found → Found
merge_found a b = record { wins = a.wins + b.wins; losses = a.losses + b.losses }

pub is_nothing : Found → Bool
is_nothing f = f.wins == 0 && f.losses == 0

-- `WorkingPair` and the summaries, by slot.
pub record Working : Type 0 where
  pub values : List (List MaybeDtcOutcome)
  pub summaries : List PlySummary

-- An entry of `tables` with the predecessors that `quiet_unmoves` emits for an index of its table.
-- These are indices of the twin; the source panics at any other, and here it would read as INVALID.
pub record Side : Type 0 where
  pub slot : ℕ
  pub twin_slot : ℕ
  pub unmoves : ℕ → List ℕ

abbrev pub load : Working → ℕ → ℕ → MaybeDtcOutcome
load w slot idx = cell w.values slot idx 0

abbrev pub no_summary : PlySummary
no_summary = record { size = 0; blocks = [] }

abbrev pub summary : Working → ℕ → PlySummary
summary w slot = get_or w.summaries slot no_summary

abbrev pub record_at : Working → ℕ → ℕ → SummaryKind → ℕ → Working
record_at w slot idx kind plies = record w {
  summaries = set w.summaries slot (note (summary w slot) idx kind plies);
}

-- The working arrays with the counts of the worker.
abbrev pub Local : Type 0
Local = Working × Found

-- One predecessor in phase W.
abbrev pub mark_update : ℕ → ℕ → ConversionType → ℕ → WinUpdate → Local → Local
mark_update twin pred ct plies unchanged s = s
mark_update twin pred ct plies newly_resolved (w, found) =
    (record_at w twin pred (win_kind ct) plies, record found { wins = found.wins + 1 })
mark_update twin pred ct plies upgraded (w, found) =
    (record_at w twin pred (win_kind ct) plies, found)

pub mark_pred : ℕ → ConversionType → ℕ → ℕ → Local → Local
mark_pred twin ct plies pred (w, found) =
    let (v, update) = mark_win ct plies (load w twin pred) in
    mark_update twin pred ct plies update (record w { values = put w.values twin pred v }, found)

-- One predecessor in phase L.
abbrev pub decrement_update : ℕ → ℕ → ℕ → Bool → Local → Local
decrement_update twin pred plies false s = s
decrement_update twin pred plies true (w, found) =
    (record_at w twin pred loss_kind plies, record found { losses = found.losses + 1 })

pub decrement_pred : ℕ → ConversionType → ℕ → ℕ → Local → Local
decrement_pred twin ct plies pred (w, found) =
    let (v, resolved) = decrement ct plies (load w twin pred) in
    decrement_update twin pred plies resolved
      (record w { values = put w.values twin pred v }, found)

abbrev pub each_pred : (ℕ → Local → Local) → List ℕ → Local → Local
each_pred step [] s = s
each_pred step (pred ∷ preds) s = each_pred step preds (step pred s)

-- What a scan does with an index and its value.
abbrev pub Process : Type 0
Process = ℕ → MaybeDtcOutcome → Local → Local

abbrev pub process_win : Side → ℕ → Process
process_win side plies idx v =
    each_pred (mark_pred side.twin_slot (outcome_ct v) plies) (side.unmoves idx)

abbrev pub process_loss : Side → ConversionType → ℕ → Process
process_loss side ct plies idx v =
    each_pred (decrement_pred side.twin_slot ct plies) (side.unmoves idx)

-- The matches among `n` indices from `start` on.
abbrev pub matches :
    (MaybeDtcOutcome → Bool) → List MaybeDtcOutcome → ℕ → ℕ → List (ℕ × MaybeDtcOutcome)
matches select values start zero = []
matches select values start (suc n) =
    let v = get_or values start 0 in
    let rest = matches select values (start + 1) n in if select v then (start, v) ∷ rest else rest

abbrev pub process_all : Process → List (ℕ × MaybeDtcOutcome) → Local → Local
process_all process [] s = s
process_all process ((idx, v) ∷ rest) s = process_all process rest (process idx v s)

pub scan_table : (MaybeDtcOutcome → Bool) → Process → ℕ → List (ℕ × ℕ) → Working → Local
scan_table select process slot [] w = (w, nothing_found)
scan_table select process slot ((start, end) ∷ blocks) w =
    let found_here = matches select (get_or w.values slot []) start (end - start) in
    let (w', found) = process_all process found_here (w, nothing_found) in
    let (w'', rest) = scan_table select process slot blocks w' in (w'', merge_found found rest)

-- `plies - 1` on u16
abbrev pub before : ℕ → ℕ
before plies = (plies + (2 ^ 16 - 1)) % 2 ^ 16

abbrev pub found_at : List Found → ℕ → Found
found_at found slot = get_or found slot nothing_found

-- The working arrays, and `found` by slot.
abbrev pub Tally : Type 0
Tally = Working × List Found

-- A scan of one table, and its counts added to those of the twin.
abbrev pub scan_blocks : (MaybeDtcOutcome → Bool) → Process → Side → List (ℕ × ℕ) → Tally → Tally
scan_blocks select process side [] t = t
scan_blocks select process side (block ∷ blocks) (w, found) =
    let (w', newly) = scan_table select process side.slot (block ∷ blocks) w in
    (w', set found side.twin_slot (merge_found (found_at found side.twin_slot) newly))

abbrev pub scan_side : (MaybeDtcOutcome → Bool) → Process → Side → SummaryKind → ℕ → Tally → Tally
scan_side select process side kind plies (w, found) =
    scan_blocks select process side (blocks_with (summary w side.slot) kind (before plies))
      (w, found)

abbrev pub is_loss_at : ℕ → MaybeDtcOutcome → Bool
is_loss_at plies v = is_loss v && ply v == before plies

-- Phase W
pub win_phase : List Side → ℕ → List Found → Tally → Tally
win_phase [] plies previous t = t
win_phase (side ∷ sides) plies previous t =
    let scanned = scan_side (is_loss_at plies) (process_win side plies) side loss_kind plies t in
    win_phase sides plies previous
      (if (found_at previous side.slot).losses == 0 then t else scanned)

-- The sub-phase of phase L for one conversion type
pub loss_phase : List Side → ConversionType → ℕ → List Found → Tally → Tally
loss_phase [] ct plies previous t = t
loss_phase (side ∷ sides) ct plies previous t =
    let target = new_win ct (before plies) in
    let scanned =
      scan_side (λ v. v == target) (process_loss side ct plies) side (win_kind ct) plies t in
    loss_phase sides ct plies previous
      (if (found_at previous side.slot).wins == 0 then t else scanned)

abbrev pub loss_phases : List Side → ℕ → List Found → Tally → Tally
loss_phases sides plies previous t =
    loss_phase sides promotion plies previous
      (loss_phase sides capture plies previous (loss_phase sides checkmate plies previous t))

pub record Rounds : Type 0 where
  pub working : Working
  pub previous : List Found
  pub max_win : List ℕ
  pub max_loss : List ℕ
  pub plies : ℕ

abbrev pub maxima : (Found → ℕ) → List Side → ℕ → List Found → List ℕ → List ℕ
maxima count [] plies found max = max
maxima count (side ∷ sides) plies found max =
    maxima count sides plies found
      (if ltb 0 (count (found_at found side.slot)) then set max side.slot plies else max)

abbrev pub all_nothing : List Found → Bool
all_nothing [] = true
all_nothing (f ∷ fs) = is_nothing f && all_nothing fs

-- `found` before the phases: at ply 1, what conversions have resolved.
abbrev pub found_first : ℕ → List Found → List Found
found_first plies by_conversion =
    if plies == 1 then by_conversion else nothing_found ∷ nothing_found ∷ []

-- One round of the loop up to the test, with `found`.
pub round : List Side → List Found → Rounds → Rounds × List Found
round sides by_conversion r =
    let start : Tally = (r.working, found_first r.plies by_conversion) in
    let t = win_phase sides r.plies r.previous start in
    let (w, found) = loss_phases sides r.plies r.previous t in
    (
      record r {
        working = w;
        max_win = maxima (λ f. f.wins) sides r.plies found r.max_win;
        max_loss = maxima (λ f. f.losses) sides r.plies found r.max_loss;
      },
      found,
    )

abbrev pub next_round : Rounds → List Found → Rounds
next_round r found = record r { previous = found; plies = (r.plies + 1) % 2 ^ 16 }

-- The loop, on fuel.
pub propagate : ℕ → List Side → List Found → Rounds → Option Rounds
propagate zero sides by_conversion r = none
propagate (suc fuel) sides by_conversion r =
    let (r', found) = round sides by_conversion r in
    elim (all_nothing found) [
      | true ↦ some r'
      | false ↦ propagate fuel sides by_conversion (next_round r' found)
    ]
