-- ===== src/Retrograde/Solver/Terminates.antt =====
-- The loop of `solve_pair`, src/retrograde.rs, ends: a round that does not end it resolves a
-- position, and there are finitely many.
use chess_egt.Common.{
  ℕ, zero, suc, ◌+◌, ◌*◌, ◌≤◌, ◌<◌, ◌≡◌, refl, ◌%◌, ◌^◌, Bool, true, false, List, [], ◌∷◌, inl, inr,
  some, if◌then◌else◌, set, arith, Bool-cases, ◌==◌,
}
use chess_egt.Outcome.{ConversionType, promotion, capture, checkmate, MaybeDtcOutcome, new_win}
use chess_egt.Retrograde.{SummaryKind, loss_kind, win_kind, blocks_with}
use chess_egt.Retrograde.Solver.{
  Found, Side, Process, Tally, merge_found, is_nothing, found_at, scan_table, scan_blocks,
  scan_side, summary, before, is_loss_at, process_win, process_loss, win_phase, loss_phase, Rounds,
  all_nothing, found_first, round, next_round, propagate,
}
use chess_egt.Retrograde.Solver.Budget.{
  unknowns, Spends, process_win-Spends, process_loss-Spends, scan_table-budget,
}

abbrev resolved : Found → ℕ
resolved f = f.wins + f.losses

abbrev pub total : List Found → ℕ
total [] = 0
total (f ∷ fs) = resolved f + total fs

total-set :
    (fs : List Found) (i : ℕ) (f : Found)
    → total (set fs i (merge_found (found_at fs i) f)) ≤ total fs + resolved f
unfolding merge_found
total-set [] i f = omega arith
total-set (g ∷ fs) zero f = omega arith
total-set (g ∷ fs) (suc i) f = omega (arith, total-set fs i f)

-- What is left to resolve, with what the round has counted.
abbrev left : Tally → ℕ
left (w, found) = unknowns w.values + total found

set-grows :
    (fs : List Found) (i : ℕ) (f : Found)
    → total fs ≤ total (set fs i (merge_found (found_at fs i) f))
unfolding merge_found
set-grows [] i f = omega arith
set-grows (g ∷ fs) zero f = omega arith
set-grows (g ∷ fs) (suc i) f = omega (arith, set-grows fs i f)

-- What is counted anew has been unknown.
abbrev Spent : Tally → Tally → Type 0
Spent t t' = (left t' ≤ left t) × (total t.1 ≤ total t'.1)

Spent-refl : (t : Tally) → Spent t t
Spent-refl t = (omega arith, omega arith)

Spent-trans : (a b c : Tally) → Spent a b → Spent b c → Spent a c
Spent-trans a b c (h, h') (k, k') = (omega (arith, h, k), omega (arith, h', k'))

scan_blocks-Spent :
    (select : MaybeDtcOutcome → Bool) (process : Process) (side : Side) (blocks : List (ℕ × ℕ))
    (t : Tally)
    → Spends process
    → Spent t (scan_blocks select process side blocks t)
scan_blocks-Spent select process side [] t h = Spent-refl t
scan_blocks-Spent select process side (b ∷ blocks) (w, found) h =
    let scanned = scan_table select process side.slot (b ∷ blocks) w in
    (
      omega (
        arith,
        scan_table-budget select process side.slot (b ∷ blocks) w h,
        total-set found side.twin_slot scanned.1,
      ),
      set-grows found side.twin_slot scanned.1,
    )

scan_side-Spent :
    (select : MaybeDtcOutcome → Bool) (process : Process) (side : Side) (kind : SummaryKind)
    (plies : ℕ) (t : Tally)
    → Spends process
    → Spent t (scan_side select process side kind plies t)
scan_side-Spent select process side kind plies (w, found) h =
    scan_blocks-Spent select process side (blocks_with (summary w side.slot) kind (before plies))
      (w, found) h

either-Spent :
    (skip : Bool) (t scanned : Tally) → Spent t scanned → Spent t (if skip then t else scanned)
either-Spent true t scanned h = Spent-refl t
either-Spent false t scanned h = h

win_phase-Spent :
    (sides : List Side) (plies : ℕ) (previous : List Found) (t : Tally)
    → Spent t (win_phase sides plies previous t)
unfolding win_phase
win_phase-Spent [] plies previous t = Spent-refl t
win_phase-Spent (side ∷ sides) plies previous t =
    let skip = (found_at previous side.slot).losses == 0 in
    let scanned = scan_side (is_loss_at plies) (process_win side plies) side loss_kind plies t in
    let t' : Tally = if skip then t else scanned in
    let here =
      scan_side-Spent (is_loss_at plies) (process_win side plies) side loss_kind plies t
        (process_win-Spends side plies) in
    Spent-trans t t' (win_phase sides plies previous t') (either-Spent skip t scanned here)
      (win_phase-Spent sides plies previous t')

loss_phase-Spent :
    (sides : List Side) (ct : ConversionType) (plies : ℕ) (previous : List Found) (t : Tally)
    → Spent t (loss_phase sides ct plies previous t)
unfolding loss_phase
loss_phase-Spent [] ct plies previous t = Spent-refl t
loss_phase-Spent (side ∷ sides) ct plies previous t =
    let skip = (found_at previous side.slot).wins == 0 in
    let select : MaybeDtcOutcome → Bool = λ v. v == new_win ct (before plies) in
    let scanned = scan_side select (process_loss side ct plies) side (win_kind ct) plies t in
    let t' : Tally = if skip then t else scanned in
    let here =
      scan_side-Spent select (process_loss side ct plies) side (win_kind ct) plies t
        (process_loss-Spends side ct plies) in
    Spent-trans t t' (loss_phase sides ct plies previous t') (either-Spent skip t scanned here)
      (loss_phase-Spent sides ct plies previous t')

-- A round takes at least as many positions from the unknown ones as it adds to the counts.
pub round_spends :
    (sides : List Side) (by_conversion : List Found) (r : Rounds)
    → let first = total (found_first r.plies by_conversion) in
      let (r', found) = round sides by_conversion r in
      (unknowns r'.working.values + total found ≤ unknowns r.working.values + first)
      × (first ≤ total found)
unfolding round
round_spends sides by_conversion r =
    let start : Tally = (r.working, found_first r.plies by_conversion) in
    let t0 = win_phase sides r.plies r.previous start in
    let t1 = loss_phase sides checkmate r.plies r.previous t0 in
    let t2 = loss_phase sides capture r.plies r.previous t1 in
    let (a, a') = win_phase-Spent sides r.plies r.previous start in
    let (b, b') = loss_phase-Spent sides checkmate r.plies r.previous t0 in
    let (c, c') = loss_phase-Spent sides capture r.plies r.previous t1 in
    let (d, d') = loss_phase-Spent sides promotion r.plies r.previous t2 in
    (omega (arith, a, b, c, d), omega (arith, a', b', c', d'))

total_positive : (found : List Found) → all_nothing found ≡ false → 0 < total found
unfolding is_nothing
total_positive [] e = cc
total_positive (f ∷ fs) e = elim (Bool-cases (all_nothing fs)) [
  | inl t ↦ ground (arith, rw t at e)
  | inr f' ↦ omega (arith, total_positive fs f')
]

-- The rounds that are enough for the unknown positions: two for each, as the ply may wrap around to
-- 1, where the conversions are counted once more, but in no two rounds in a row.
abbrev pub enough : Rounds → ℕ
enough r = 2 * unknowns r.working.values + (if r.plies == 1 then 2 else 1)

plies-round :
    (sides : List Side) (by_conversion : List Found) (r : Rounds)
    → (round sides by_conversion r).0.plies ≡ r.plies
unfolding round
plies-round sides by_conversion r = refl

none_first :
    (plies : ℕ) (by_conversion : List Found)
    → (plies == 1) ≡ false
    → total (found_first plies by_conversion) ≡ 0
none_first plies by_conversion e = rw e refl

after_first : (plies : ℕ) → (plies == 1) ≡ true → ((plies + 1) % 2 ^ 16 == 1) ≡ false
after_first plies e = ground arith

enough_step :
    (a a' f g : ℕ) (b b' : Bool)
    → a' + g ≤ a + f
    → f ≤ g
    → 0 < g
    → (b ≡ false → f ≡ 0)
    → (b ≡ true → b' ≡ false)
    → 2 * a' + (if b' then 2 else 1) < 2 * a + (if b then 2 else 1)
enough_step a a' f g true b' h k p z w = rw (w refl) (omega (arith, h, k))
enough_step a a' f g false true h k p z w = omega (arith, h, k, p, z refl)
enough_step a a' f g false false h k p z w = omega (arith, h, k, p, z refl)

enough-next_round :
    (sides : List Side) (by_conversion : List Found) (r : Rounds)
    → all_nothing (round sides by_conversion r).1 ≡ false
    → let (r', found) = round sides by_conversion r in enough (next_round r' found) < enough r
enough-next_round sides by_conversion r e =
    let (r', found) = round sides by_conversion r in
    let (h, k) = round_spends sides by_conversion r in
    let same = plies-round sides by_conversion r in
    enough_step (unknowns r.working.values) (unknowns r'.working.values)
      (total (found_first r.plies by_conversion)) (total found) (r.plies == 1)
      ((r'.plies + 1) % 2 ^ 16 == 1) h k (total_positive found e) (none_first r.plies by_conversion)
      (rw same (after_first r.plies))

-- With fuel of two rounds for each unknown position and two more, the loop ends: it gives a
-- result, and that is the state of a round that has resolved nothing.
pub propagate_ends :
    (fuel : ℕ) (sides : List Side) (by_conversion : List Found) (r : Rounds)
    → enough r ≤ fuel
    → (r' : Rounds) × (propagate fuel sides by_conversion r ≡ some r')
unfolding propagate
propagate_ends zero sides by_conversion r h = absurd (ground arith)
propagate_ends (suc fuel) sides by_conversion r h =
    elim (Bool-cases (all_nothing (round sides by_conversion r).1)) [
      | inl t ↦ ((round sides by_conversion r).0, rw (propagate, t) refl)
      | inr f ↦
          let (r', e) =
            propagate_ends fuel sides by_conversion
              (next_round (round sides by_conversion r).0 (round sides by_conversion r).1)
              (omega (arith, h, enough-next_round sides by_conversion r f)) in
          (r', rw (propagate, f, e) refl)
    ]
