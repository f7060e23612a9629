-- ===== src/Retrograde/Solver/Kept.antt =====
-- What the steps of the passes of src/retrograde.rs leave as it is: a pass changes no value that its
-- scan looks for, and makes no new one.
use chess_egt.Common.{
  ℕ, zero, suc, ◌+◌, ◌-◌, ◌≡◌, refl, sym, ◌∙◌, Bool, true, false, List, [], ◌∷◌, inl, inr, get_or,
  Bool-cases,
}
use chess_egt.Common.Grid.{put, put_cases}
use chess_egt.Outcome.{
  ConversionType, MaybeDtcOutcome, is_loss, is_win, new_win, new_loss, new_unknown,
  get_unknown_counter,
}
use chess_egt.Retrograde.{outcome_ct, mark_win, decrement}
use chess_egt.Retrograde.Update.{mark_win_cases}
use chess_egt.Retrograde.Countdown.{decrement_cases}
use chess_egt.Outcome.Word.{
  new_win_classes, new_loss_classes, unknown_classes, new_unknown_classes, win_not_loss,
}
use chess_egt.Retrograde.Solver.{
  Working, Local, load, mark_pred, decrement_pred, each_pred, Process, process_all, matches, Side,
  process_win, process_loss,
}

-- Nothing that is selected has been written or changed.
abbrev pub Same : (MaybeDtcOutcome → Bool) → Working → Working → Type 0
Same select w w' =
    (slot i : ℕ)
    → (select (load w' slot i) ≡ select (load w slot i))
      × (select (load w slot i) ≡ true → load w' slot i ≡ load w slot i)

Same-refl : (select : MaybeDtcOutcome → Bool) (w : Working) → Same select w w
Same-refl select w slot i = (refl, λ e. refl)

Same-trans :
    (select : MaybeDtcOutcome → Bool) (a b c : Working)
    → Same select a b
    → Same select b c
    → Same select a c
Same-trans select a b c h k slot i =
    ((k slot i).0 ∙ (h slot i).0, λ e. (k slot i).1 ((h slot i).0 ∙ e) ∙ (h slot i).1 e)

-- A write of a word that is not selected over one that is not.
Same-put :
    (select : MaybeDtcOutcome → Bool) (w w' : Working) (r p v : ℕ)
    → w'.values ≡ put w.values r p v
    → (select v ≡ select (load w r p)) × (select (load w r p) ≡ true → v ≡ load w r p)
    → Same select w w'
Same-put select w w' r p v e (h, k) slot i = elim (put_cases w.values r p slot i v 0) [
  | inl same ↦ rw (e, same) (refl, λ t. refl)
  | inr (er, ei, inside, new) ↦ rw (e, new, sym er, sym ei) (h, k)
]

pub values-mark_pred :
    (twin : ℕ) (ct : ConversionType) (plies pred : ℕ) (s : Local)
    → (mark_pred twin ct plies pred s).0.values
      ≡ put s.0.values twin pred (mark_win ct plies (load s.0 twin pred)).0
unfolding mark_pred
values-mark_pred twin ct plies pred (w, found) = elim (mark_win_cases ct plies (load w twin pred)) [
  | inl e ↦ rw e refl
  | inr (inl (u, e)) ↦ rw e refl
  | inr (inr (u, e)) ↦ rw e refl
]

pub values-decrement_pred :
    (twin : ℕ) (ct : ConversionType) (plies pred : ℕ) (s : Local)
    → (decrement_pred twin ct plies pred s).0.values
      ≡ put s.0.values twin pred (decrement ct plies (load s.0 twin pred)).0
unfolding decrement_pred
values-decrement_pred twin ct plies pred (w, found) =
    elim (decrement_cases ct plies (load w twin pred)) [
      | inl e ↦ rw e refl
      | inr (inl (u, e)) ↦ rw e refl
      | inr (inr (u, e)) ↦ rw e refl
    ]

-- Phase W looks for losses, phase L for wins.
abbrev pub Selects : (MaybeDtcOutcome → Bool) → (MaybeDtcOutcome → Bool) → Type 0
Selects select class = (v : MaybeDtcOutcome) → select v ≡ true → class v ≡ true

not_selected :
    (select class : MaybeDtcOutcome → Bool) (v : MaybeDtcOutcome)
    → Selects select class
    → class v ≡ false
    → select v ≡ false
not_selected select class v h e = elim (Bool-cases (select v)) [
  | inl t ↦ let c = h v t in cc
  | inr f ↦ f
]

unselected_lem :
    (select : MaybeDtcOutcome → Bool) (v v' : MaybeDtcOutcome)
    → select v ≡ false
    → select v' ≡ false
    → (select v' ≡ select v) × (select v ≡ true → v' ≡ v)
unselected_lem select v v' e e' = (e' ∙ sym e, λ t. absurd (let x : true ≡ false = sym t ∙ e in cc))

mark_kept :
    (select : MaybeDtcOutcome → Bool) (ct : ConversionType) (plies v : ℕ)
    → Selects select is_loss
    → let v' = (mark_win ct plies v).0 in (select v' ≡ select v) × (select v ≡ true → v' ≡ v)
mark_kept select ct plies v h =
    let new = not_selected select is_loss (new_win ct plies) h (new_win_classes ct plies).2 in
    elim (mark_win_cases ct plies v) [
      | inl e ↦ rw e (refl, λ t. refl)
      | inr (inl (u, e)) ↦ rw e (
          unselected_lem select v (new_win ct plies)
            (not_selected select is_loss v h (unknown_classes v u).1) new)
      | inr (inr (win, e)) ↦ rw e (
          unselected_lem select v (new_win ct plies)
            (not_selected select is_loss v h (win_not_loss v win)) new)
    ]

decrement_kept :
    (select : MaybeDtcOutcome → Bool) (ct : ConversionType) (plies v : ℕ)
    → Selects select is_win
    → let v' = (decrement ct plies v).0 in (select v' ≡ select v) × (select v ≡ true → v' ≡ v)
decrement_kept select ct plies v h = elim (decrement_cases ct plies v) [
  | inl e ↦ rw e (refl, λ t. refl)
  | inr (inl (u, e)) ↦ rw e (
      unselected_lem select v (new_loss ct plies)
        (not_selected select is_win v h (unknown_classes v u).0)
        (not_selected select is_win (new_loss ct plies) h (new_loss_classes ct plies).1))
  | inr (inr (u, e)) ↦
      let next = new_unknown (get_unknown_counter v - 1) in
      rw e (
        unselected_lem select v next (not_selected select is_win v h (unknown_classes v u).0)
          (not_selected select is_win next h (new_unknown_classes (get_unknown_counter v - 1)).0))
]

-- A step or a process that leaves the selected cells as they are, and selects no others.
abbrev KeepsStep : (MaybeDtcOutcome → Bool) → (ℕ → Local → Local) → Type 0
KeepsStep select step = (pred : ℕ) (s : Local) → Same select s.0 (step pred s).0

abbrev pub Keeps : (MaybeDtcOutcome → Bool) → Process → Type 0
Keeps select process = (idx v : ℕ) (s : Local) → Same select s.0 (process idx v s).0

mark_pred-KeepsStep :
    (select : MaybeDtcOutcome → Bool) (twin : ℕ) (ct : ConversionType) (plies : ℕ)
    → Selects select is_loss
    → KeepsStep select (mark_pred twin ct plies)
mark_pred-KeepsStep select twin ct plies h pred s =
    Same-put select s.0 (mark_pred twin ct plies pred s).0 twin pred
      (mark_win ct plies (load s.0 twin pred)).0 (values-mark_pred twin ct plies pred s)
      (mark_kept select ct plies (load s.0 twin pred) h)

decrement_pred-KeepsStep :
    (select : MaybeDtcOutcome → Bool) (twin : ℕ) (ct : ConversionType) (plies : ℕ)
    → Selects select is_win
    → KeepsStep select (decrement_pred twin ct plies)
decrement_pred-KeepsStep select twin ct plies h pred s =
    Same-put select s.0 (decrement_pred twin ct plies pred s).0 twin pred
      (decrement ct plies (load s.0 twin pred)).0 (values-decrement_pred twin ct plies pred s)
      (decrement_kept select ct plies (load s.0 twin pred) h)

each_pred-Same :
    (select : MaybeDtcOutcome → Bool) (step : ℕ → Local → Local) (preds : List ℕ) (s : Local)
    → KeepsStep select step
    → Same select s.0 (each_pred step preds s).0
each_pred-Same select step [] s h = Same-refl select s.0
each_pred-Same select step (pred ∷ preds) s h =
    Same-trans select s.0 (step pred s).0 (each_pred step preds (step pred s)).0 (h pred s)
      (each_pred-Same select step preds (step pred s) h)

pub process_win-Keeps :
    (select : MaybeDtcOutcome → Bool) (side : Side) (plies : ℕ)
    → Selects select is_loss
    → Keeps select (process_win side plies)
process_win-Keeps select side plies h idx v s =
    each_pred-Same select (mark_pred side.twin_slot (outcome_ct v) plies) (side.unmoves idx) s
      (mark_pred-KeepsStep select side.twin_slot (outcome_ct v) plies h)

pub process_loss-Keeps :
    (select : MaybeDtcOutcome → Bool) (side : Side) (ct : ConversionType) (plies : ℕ)
    → Selects select is_win
    → Keeps select (process_loss side ct plies)
process_loss-Keeps select side ct plies h idx v s =
    each_pred-Same select (decrement_pred side.twin_slot ct plies) (side.unmoves idx) s
      (decrement_pred-KeepsStep select side.twin_slot ct plies h)

pub process_all-Same :
    (select : MaybeDtcOutcome → Bool) (process : Process) (found_here : List (ℕ × MaybeDtcOutcome))
    (s : Local)
    → Keeps select process
    → Same select s.0 (process_all process found_here s).0
process_all-Same select process [] s h = Same-refl select s.0
process_all-Same select process ((idx, v) ∷ rest) s h =
    Same-trans select s.0 (process idx v s).0 (process_all process rest (process idx v s)).0
      (h idx v s) (process_all-Same select process rest (process idx v s) h)

pub matches-Same :
    (select : MaybeDtcOutcome → Bool) (w w' : Working) (slot start n : ℕ)
    → Same select w w'
    → matches select (get_or w'.values slot []) start n
      ≡ matches select (get_or w.values slot []) start n
matches-Same select w w' slot start zero h = refl
matches-Same select w w' slot start (suc n) h =
    let (e, k) = h slot start in
    let rest = matches-Same select w w' slot (start + 1) n h in
    elim (Bool-cases (select (load w slot start))) [
      | inl t ↦ rw (e, t, k t, rest) refl
      | inr f ↦ rw (e, f, rest) refl
    ]
