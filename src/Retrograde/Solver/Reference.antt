-- ===== src/Retrograde/Solver/Reference.antt =====
-- The loop of `solve_pair`, src/retrograde.rs, against a loop that sweeps whole tables.
use chess_egt.Common.{
  ℕ, zero, suc, ◌+◌, ◌^◌, ◌≤◌, ◌<◌, ◌≡◌, refl, sym, ap, ◌∙◌, Bool, true, false, List, [], ◌∷◌,
  Option, none, some, inl, inr, arith, Bool-cases, ◌==◌, ==_iff, if◌then◌else◌,
}
use chess_egt.Outcome.{
  ConversionType, promotion, capture, checkmate, MaybeDtcOutcome, is_loss, is_win, new_win,
}
use chess_egt.Outcome.Word.{new_win_classes}
use chess_egt.Retrograde.{loss_kind, win_kind}
use chess_egt.Retrograde.Update.{ply-outcome_ct}
use chess_egt.Retrograde.Solver.{
  Found, Tally, Side, found_at, before, is_loss_at, process_win, process_loss, win_phase,
  loss_phase, Rounds, maxima, all_nothing, found_first, round, next_round, propagate,
}
use chess_egt.Retrograde.Solver.Kept.{Selects, process_win-Keeps, process_loss-Keeps}
use chess_egt.Retrograde.Solver.Snapshot.{process_win-Adds, process_loss-Adds}
use chess_egt.Retrograde.Solver.Covered.{IsCovered}
use chess_egt.Retrograde.Solver.Sweep.{
  sweep, sweep-IsCovered, scan_side-sweep, Seeks, process_win-Covering, process_loss-Covering,
}

abbrev pub sweep_wins : List Side → ℕ → List Found → Tally → Tally
sweep_wins [] plies previous t = t
sweep_wins (side ∷ sides) plies previous t =
    let swept = sweep (is_loss_at plies) (process_win side plies) side t in
    sweep_wins sides plies previous (if (found_at previous side.slot).losses == 0 then t else swept)

abbrev pub sweep_losses : List Side → ConversionType → ℕ → List Found → Tally → Tally
sweep_losses [] ct plies previous t = t
sweep_losses (side ∷ sides) ct plies previous t =
    let target = new_win ct (before plies) in
    let swept = sweep (λ v. v == target) (process_loss side ct plies) side t in
    sweep_losses sides ct plies previous
      (if (found_at previous side.slot).wins == 0 then t else swept)

abbrev pub sweep_round : List Side → List Found → Rounds → Rounds × List Found
sweep_round sides by_conversion r =
    let t0 = sweep_wins sides r.plies r.previous (r.working, found_first r.plies by_conversion) in
    let t1 = sweep_losses sides checkmate r.plies r.previous t0 in
    let t2 = sweep_losses sides capture r.plies r.previous t1 in
    let (w, found) = sweep_losses sides promotion r.plies r.previous t2 in
    (
      record r {
        working = w;
        max_win = maxima (λ f. f.wins) sides r.plies found r.max_win;
        max_loss = maxima (λ f. f.losses) sides r.plies found r.max_loss;
      },
      found,
    )

-- The loop with sweeps, on fuel.
abbrev pub sweep_all : ℕ → List Side → List Found → Rounds → Option Rounds
sweep_all zero sides by_conversion r = none
sweep_all (suc fuel) sides by_conversion r =
    let (r', found) = sweep_round sides by_conversion r in
    elim (all_nothing found) [
      | true ↦ some r'
      | false ↦ sweep_all fuel sides by_conversion (next_round r' found)
    ]

pub is_loss_at-Selects : (plies : ℕ) → Selects (is_loss_at plies) is_loss
is_loss_at-Selects plies v e = ground arith

is_loss_at-Seeks : (plies : ℕ) → Seeks (is_loss_at plies) loss_kind (before plies)
is_loss_at-Seeks plies v e = (ground arith, inl (is_loss_at-Selects plies v e, refl))

abbrev pub is_target : ConversionType → ℕ → MaybeDtcOutcome → Bool
is_target ct plies v = v == new_win ct (before plies)

pub is_target-Selects : (ct : ConversionType) (plies : ℕ) → Selects (is_target ct plies) is_win
is_target-Selects ct plies v e =
    let same = (==_iff v (new_win ct (before plies))).0 e in
    rw same (new_win_classes ct (before plies)).1

is_target-Seeks :
    (ct : ConversionType) (plies : ℕ)
    → before plies < 2 ^ 13
    → Seeks (is_target ct plies) (win_kind ct) (before plies)
is_target-Seeks ct plies h v e =
    let same = (==_iff v (new_win ct (before plies))).0 e in
    let (p, c, q, d) = ply-outcome_ct ct (before plies) in
    rw same (omega (arith, p, h), inr ((new_win_classes ct (before plies)).1, ap win_kind (sym c)))

either-IsCovered :
    (skip : Bool) (t t' : Tally)
    → IsCovered t.0
    → IsCovered t'.0
    → IsCovered (if skip then t else t').0
either-IsCovered true t t' c c' = c
either-IsCovered false t t' c c' = c'

win_phase-sweep_wins :
    (sides : List Side) (plies : ℕ) (previous : List Found) (t : Tally)
    → IsCovered t.0
    → 0 < plies
    → plies < 2 ^ 13
    → (win_phase sides plies previous t ≡ sweep_wins sides plies previous t)
      × IsCovered (sweep_wins sides plies previous t).0
unfolding win_phase
win_phase-sweep_wins [] plies previous t c p h = (refl, c)
win_phase-sweep_wins (side ∷ sides) plies previous t c p h =
    let swept = sweep (is_loss_at plies) (process_win side plies) side t in
    let skip = (found_at previous side.slot).losses == 0 in
    let t' : Tally = if skip then t else swept in
    let same =
      scan_side-sweep (is_loss_at plies) (process_win side plies) side loss_kind plies t c
        (process_win-Keeps (is_loss_at plies) side plies (is_loss_at-Selects plies))
        (process_win-Adds side plies) (is_loss_at-Seeks plies) (omega (arith, p, h)) in
    let covered =
      sweep-IsCovered (is_loss_at plies) (process_win side plies) side t
        (process_win-Covering side plies h) c in
    rw same
      (win_phase-sweep_wins sides plies previous t' (either-IsCovered skip t swept c covered) p h)

loss_phase-sweep_losses :
    (sides : List Side) (ct : ConversionType) (plies : ℕ) (previous : List Found) (t : Tally)
    → IsCovered t.0
    → 0 < plies
    → plies < 2 ^ 13
    → (loss_phase sides ct plies previous t ≡ sweep_losses sides ct plies previous t)
      × IsCovered (sweep_losses sides ct plies previous t).0
unfolding loss_phase
loss_phase-sweep_losses [] ct plies previous t c p h = (refl, c)
loss_phase-sweep_losses (side ∷ sides) ct plies previous t c p h =
    let swept = sweep (is_target ct plies) (process_loss side ct plies) side t in
    let skip = (found_at previous side.slot).wins == 0 in
    let t' : Tally = if skip then t else swept in
    let low : before plies < 2 ^ 13 = omega (arith, p, h) in
    let same =
      scan_side-sweep (is_target ct plies) (process_loss side ct plies) side (win_kind ct) plies t c
        (process_loss-Keeps (is_target ct plies) side ct plies (is_target-Selects ct plies))
        (process_loss-Adds side ct plies) (is_target-Seeks ct plies low) low in
    let covered =
      sweep-IsCovered (is_target ct plies) (process_loss side ct plies) side t
        (process_loss-Covering side ct plies h) c in
    rw same (
      loss_phase-sweep_losses sides ct plies previous t' (either-IsCovered skip t swept c covered) p
        h)

pub round-sweep_round :
    (sides : List Side) (by_conversion : List Found) (r : Rounds)
    → IsCovered r.working
    → 0 < r.plies
    → r.plies < 2 ^ 13
    → (round sides by_conversion r ≡ sweep_round sides by_conversion r)
      × IsCovered (sweep_round sides by_conversion r).0.working
unfolding round
round-sweep_round sides by_conversion r c p h =
    let start : Tally = (r.working, found_first r.plies by_conversion) in
    let t0 = sweep_wins sides r.plies r.previous start in
    let t1 = sweep_losses sides checkmate r.plies r.previous t0 in
    let t2 = sweep_losses sides capture r.plies r.previous t1 in
    let (e0, c0) = win_phase-sweep_wins sides r.plies r.previous start c p h in
    let (e1, c1) = loss_phase-sweep_losses sides checkmate r.plies r.previous t0 c0 p h in
    let (e2, c2) = loss_phase-sweep_losses sides capture r.plies r.previous t1 c1 p h in
    let (e3, c3) = loss_phase-sweep_losses sides promotion r.plies r.previous t2 c2 p h in
    (rw (e0, e1, e2, e3) refl, c3)

-- While the ply stays below 2 ^ 13, the loop over the blocks that the summaries give, each block
-- matched when a worker comes to it, has the same result as the loop that matches whole tables at
-- the start of each pass and looks at no summary: provided that the summaries cover the values at
-- the beginning, as they do after the initialization.
pub propagate-sweep_all :
    (fuel : ℕ) (sides : List Side) (by_conversion : List Found) (r : Rounds)
    → IsCovered r.working
    → 0 < r.plies
    → r.plies + fuel ≤ 2 ^ 13
    → propagate fuel sides by_conversion r ≡ sweep_all fuel sides by_conversion r
unfolding propagate
propagate-sweep_all zero sides by_conversion r c p h = refl
propagate-sweep_all (suc fuel) sides by_conversion r c p h =
    let (same, c') = round-sweep_round sides by_conversion r c p (omega (arith, h)) in
    let (r', found) = sweep_round sides by_conversion r in
    elim (Bool-cases (all_nothing found)) [
      | inl t ↦ rw (propagate, sweep_all, same, t) (ap (λ x. some x.0) same)
      | inr f ↦
          rw (propagate, sweep_all, same, f)
            (ap (λ x. propagate fuel sides by_conversion (next_round x.0 x.1)) same
              ∙ propagate-sweep_all fuel sides by_conversion (next_round r' found) c'
                  (omega (arith, h)) (omega (arith, h)))
    ]
