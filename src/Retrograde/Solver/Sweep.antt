-- ===== src/Retrograde/Solver/Sweep.antt =====
-- A scan of src/retrograde.rs finds all that a sweep over the whole table would, and leaves the
-- summaries covering the values.
use chess_egt.Common.{
  ℕ, ◌-◌, ◌/◌, ◌^◌, ◌≤◌, ◌<◌, ◌≡◌, refl, sym, ap, ◌∙◌, Bool, true, false, List, [], ◌∷◌, inl, inr,
  ◌⊎◌, get_or, set, set-get_or, length, get_or_inside, arith,
}
use chess_egt.Outcome.{
  ConversionType, MaybeDtcOutcome, is_loss, is_win, is_unknown, new_win, new_loss, new_unknown,
  get_unknown_counter,
}
use chess_egt.Outcome.Word.{new_win_classes, new_loss_classes, new_unknown_classes}
use chess_egt.Retrograde.{
  ply, outcome_ct, SummaryKind, PlySummary, loss_kind, win_kind, blocks_with, bound_of, ply_bound,
}
use chess_egt.Retrograde.Update.{ply-outcome_ct, mark_win_cases}
use chess_egt.Retrograde.Countdown.{decrement_cases}
use chess_egt.Retrograde.Solver.{
  merge_found, nothing_found, found_at, Working, Local, Tally, load, summary, mark_pred,
  decrement_pred, each_pred, Process, process_all, scan_table, scan_blocks, scan_side, matches,
  Side, process_win, process_loss, before,
}
use chess_egt.Retrograde.Solver.Kept.{Keeps}
use chess_egt.Retrograde.Solver.Snapshot.{Adds, scan_table-matches_in, merge-nothing_found}
use chess_egt.Retrograde.Solver.Skipped.{matches_in-blocks_with}
use chess_egt.Retrograde.Solver.Covered.{
  IsCovered, Recorded, put-IsCovered, record_at-IsCovered, Fits,
}

-- Neither a win nor an unknown word is the word 0.
win_positive : (v : ℕ) → is_win v ≡ true → 0 < v
unfolding is_win
win_positive v e = ground arith

unknown_positive : (v : ℕ) → is_unknown v ≡ true → 0 < v
unfolding is_unknown
unknown_positive v e = ground arith

new_win-Fits :
    (ct : ConversionType) (plies : ℕ) → plies < 2 ^ 13 → Fits (new_win ct plies) (win_kind ct) plies
new_win-Fits ct plies h =
    let (p, c, q, d) = ply-outcome_ct ct plies in
    (
      λ l. absurd (let x : true ≡ false = sym l ∙ (new_win_classes ct plies).2 in cc),
      λ l. (ap win_kind (sym c), omega (arith, p, h)),
    )

new_loss-Fits :
    (ct : ConversionType) (plies : ℕ) → plies < 2 ^ 13 → Fits (new_loss ct plies) loss_kind plies
new_loss-Fits ct plies h =
    let (p, c, q, d) = ply-outcome_ct ct plies in
    (
      λ l. (refl, omega (arith, q, h)),
      λ l. absurd (let x : true ≡ false = sym l ∙ (new_loss_classes ct plies).1 in cc),
    )

same-IsCovered :
    (w : Working) (r p : ℕ)
    → IsCovered w
    → IsCovered (record w { values = set w.values r (set (get_or w.values r []) p (load w r p)) })
same-IsCovered w r p c = rw (set-get_or (get_or w.values r []) p 0, set-get_or w.values r []) c

-- A step or a process that keeps the summaries covering the values.
abbrev CoversStep : (ℕ → Local → Local) → Type 0
CoversStep step = (pred : ℕ) (s : Local) → IsCovered s.0 → IsCovered (step pred s).0

abbrev pub Covering : Process → Type 0
Covering process = (idx v : ℕ) (s : Local) → IsCovered s.0 → IsCovered (process idx v s).0

mark_pred-CoversStep :
    (twin : ℕ) (ct : ConversionType) (plies : ℕ)
    → plies < 2 ^ 13
    → CoversStep (mark_pred twin ct plies)
unfolding mark_pred
mark_pred-CoversStep twin ct plies h pred (w, found) c =
    let v = load w twin pred in
    let row = get_or w.values twin [] in
    elim (mark_win_cases ct plies v) [
      | inl e ↦ rw e (same-IsCovered w twin pred c)
      | inr (inl (u, e)) ↦ rw e (
          record_at-IsCovered w twin pred (new_win ct plies) plies (win_kind ct) c
            (get_or_inside row pred (unknown_positive v u)) h (new_win-Fits ct plies h))
      | inr (inr (win, e)) ↦ rw e (
          record_at-IsCovered w twin pred (new_win ct plies) plies (win_kind ct) c
            (get_or_inside row pred (win_positive v win)) h (new_win-Fits ct plies h))
    ]

decrement_pred-CoversStep :
    (twin : ℕ) (ct : ConversionType) (plies : ℕ)
    → plies < 2 ^ 13
    → CoversStep (decrement_pred twin ct plies)
unfolding decrement_pred
decrement_pred-CoversStep twin ct plies h pred (w, found) c =
    let v = load w twin pred in
    let row = get_or w.values twin [] in
    let next = get_unknown_counter v - 1 in
    elim (decrement_cases ct plies v) [
      | inl e ↦ rw e (same-IsCovered w twin pred c)
      | inr (inl (u, e)) ↦ rw e (
          record_at-IsCovered w twin pred (new_loss ct plies) plies loss_kind c
            (get_or_inside row pred (unknown_positive v u)) h (new_loss-Fits ct plies h))
      | inr (inr (u, e)) ↦ rw e (
          put-IsCovered w twin pred (new_unknown next) c (new_unknown_classes next).0
            (new_unknown_classes next).1)
    ]

each_pred-IsCovered :
    (step : ℕ → Local → Local) (preds : List ℕ) (s : Local)
    → CoversStep step
    → IsCovered s.0
    → IsCovered (each_pred step preds s).0
each_pred-IsCovered step [] s h c = c
each_pred-IsCovered step (pred ∷ preds) s h c =
    each_pred-IsCovered step preds (step pred s) h (h pred s c)

pub process_win-Covering :
    (side : Side) (plies : ℕ) → plies < 2 ^ 13 → Covering (process_win side plies)
process_win-Covering side plies h idx v s c =
    each_pred-IsCovered (mark_pred side.twin_slot (outcome_ct v) plies) (side.unmoves idx) s
      (mark_pred-CoversStep side.twin_slot (outcome_ct v) plies h) c

pub process_loss-Covering :
    (side : Side) (ct : ConversionType) (plies : ℕ)
    → plies < 2 ^ 13
    → Covering (process_loss side ct plies)
process_loss-Covering side ct plies h idx v s c =
    each_pred-IsCovered (decrement_pred side.twin_slot ct plies) (side.unmoves idx) s
      (decrement_pred-CoversStep side.twin_slot ct plies h) c

process_all-IsCovered :
    (process : Process) (found_here : List (ℕ × MaybeDtcOutcome)) (s : Local)
    → Covering process
    → IsCovered s.0
    → IsCovered (process_all process found_here s).0
process_all-IsCovered process [] s h c = c
process_all-IsCovered process ((idx, v) ∷ rest) s h c =
    process_all-IsCovered process rest (process idx v s) h (h idx v s c)

-- All matches of a table, processed with no regard to its summary.
abbrev pub sweep : (MaybeDtcOutcome → Bool) → Process → Side → Tally → Tally
sweep select process side (w, found) =
    let values = get_or w.values side.slot [] in
    let (w', newly) =
      process_all process (matches select values 0 (length values)) (w, nothing_found) in
    (w', set found side.twin_slot (merge_found (found_at found side.twin_slot) newly))

pub sweep-IsCovered :
    (select : MaybeDtcOutcome → Bool) (process : Process) (side : Side) (t : Tally)
    → Covering process
    → IsCovered t.0
    → IsCovered (sweep select process side t).0
sweep-IsCovered select process side (w, found) h c =
    let values = get_or w.values side.slot [] in
    process_all-IsCovered process (matches select values 0 (length values)) (w, nothing_found) h c

-- What is selected is of this kind and ply.
abbrev pub Seeks : (MaybeDtcOutcome → Bool) → SummaryKind → ℕ → Type 0
Seeks select kind q =
    (v : MaybeDtcOutcome)
    → select v ≡ true
    → (ply v ≡ q)
      × (((is_loss v ≡ true) × (kind ≡ loss_kind))
          ⊎ ((is_win v ≡ true) × (kind ≡ win_kind (outcome_ct v))))

scan_blocks_lem :
    (select : MaybeDtcOutcome → Bool) (process : Process) (side : Side) (blocks : List (ℕ × ℕ))
    (t : Tally)
    → let (w', newly) = scan_table select process side.slot blocks t.0 in
      scan_blocks select process side blocks t
      ≡ (w', set t.1 side.twin_slot (merge_found (found_at t.1 side.twin_slot) newly))
unfolding scan_table
scan_blocks_lem select process side [] (w, found) =
    rw
      (
        merge-nothing_found (found_at found side.twin_slot),
        set-get_or found side.twin_slot nothing_found,
      )
      refl
scan_blocks_lem select process side (b ∷ blocks) (w, found) = refl

bound_high :
    (s : PlySummary) (i v q : ℕ) (kind : SummaryKind)
    → Recorded s i v
    → q < 2 ^ 13
    → (ply v ≡ q)
      × (((is_loss v ≡ true) × (kind ≡ loss_kind))
          ⊎ ((is_win v ≡ true) × (kind ≡ win_kind (outcome_ct v))))
    → ply_bound q ≤ bound_of s (i / 4096) kind
bound_high s i v q kind (l, w) small (e, inl (t, k)) = rw k (omega (arith, l t, e, small))
bound_high s i v q kind (l, w) small (e, inr (t, k)) = rw k (omega (arith, w t, e, small))

-- With summaries that cover the values, a scan of the blocks that the summary gives does what the
-- sweep does.
pub scan_side-sweep :
    (select : MaybeDtcOutcome → Bool) (process : Process) (side : Side) (kind : SummaryKind)
    (plies : ℕ) (t : Tally)
    → IsCovered t.0
    → Keeps select process
    → Adds process
    → Seeks select kind (before plies)
    → before plies < 2 ^ 13
    → scan_side select process side kind plies t ≡ sweep select process side t
scan_side-sweep select process side kind plies (w, found) c keeps adds seeks small =
    let s = summary w side.slot in
    let values = get_or w.values side.slot [] in
    let high : (i : ℕ)
        → i < s.size
        → select (get_or values i 0) ≡ true
        → ply_bound (before plies) ≤ bound_of s (i / 4096) kind =
      λ i lt t.
        bound_high s i (get_or values i 0) (before plies) kind (c.recorded side.slot i) small
          (seeks (get_or values i 0) t) in
    let whole =
      matches_in-blocks_with select values s kind (before plies) (c.formed side.slot) high in
    let snapshot =
      scan_table-matches_in select process side.slot (blocks_with s kind (before plies)) w keeps
        adds in
    let size = c.aligned side.slot in
    scan_blocks_lem select process side (blocks_with s kind (before plies)) (w, found)
    ∙ rw (snapshot, whole, size) refl
