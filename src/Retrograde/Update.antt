-- ===== src/Retrograde/Update.antt =====
-- One call after another of `mark_win` and `decrement`, src/retrograde.rs.
use chess_egt.Common.{
  ℕ, ◌^◌, ◌≤◌, ◌<◌, ◌≡◌, refl, List, [], ◌∷◌, true, false, ◌&&◌, some, none, ◌==◌, if◌then◌else◌,
  ◌⊎◌, inl, inr, Bool-cases, arith,
}
use chess_egt.Common.Bits.{bit_and_six}
use chess_egt.Outcome.{
  ConversionType, promotion, capture, checkmate, ct_rank, MaybeDtcOutcome, is_unknown, is_win,
  new_win, new_loss,
}
use chess_egt.Outcome.Word.{kept, new_win_lem, new_loss_lem, new_win_classes}
use chess_egt.Retrograde.{
  unchanged, newly_resolved, upgraded, ply, outcome_ct, ct_gt, mark_win_round, mark_win,
}

ply-new_win : (ct : ConversionType) (d : ℕ) → ply (new_win ct d) ≡ kept d
unfolding ply
ply-new_win checkmate d = omega (arith, new_win_lem checkmate d)
ply-new_win capture d = omega (arith, new_win_lem capture d)
ply-new_win promotion d = omega (arith, new_win_lem promotion d)

pub outcome_ct-new_win : (ct : ConversionType) (d : ℕ) → outcome_ct (new_win ct d) ≡ ct
unfolding outcome_ct
outcome_ct-new_win checkmate d =
    ground (arith, new_win_lem checkmate d, bit_and_six (new_win checkmate d))
outcome_ct-new_win capture d =
    ground (arith, new_win_lem capture d, bit_and_six (new_win capture d))
outcome_ct-new_win promotion d =
    ground (arith, new_win_lem promotion d, bit_and_six (new_win promotion d))

ply-new_loss : (ct : ConversionType) (d : ℕ) → ply (new_loss ct d) ≡ kept d
unfolding ply
ply-new_loss checkmate d = omega (arith, new_loss_lem checkmate d)
ply-new_loss capture d = omega (arith, new_loss_lem capture d)
ply-new_loss promotion d = omega (arith, new_loss_lem promotion d)

outcome_ct-new_loss : (ct : ConversionType) (d : ℕ) → outcome_ct (new_loss ct d) ≡ ct
unfolding outcome_ct
outcome_ct-new_loss checkmate d =
    ground (arith, new_loss_lem checkmate d, bit_and_six (new_loss checkmate d))
outcome_ct-new_loss capture d =
    ground (arith, new_loss_lem capture d, bit_and_six (new_loss capture d))
outcome_ct-new_loss promotion d =
    ground (arith, new_loss_lem promotion d, bit_and_six (new_loss promotion d))

-- The distance (modulo 2 ^ 13) and the conversion type are read back from a packed win and from a
-- packed loss.
pub ply-outcome_ct :
    (ct : ConversionType) (d : ℕ)
    → (ply (new_win ct d) ≡ kept d)
      × (outcome_ct (new_win ct d) ≡ ct)
      × (ply (new_loss ct d) ≡ kept d)
      × (outcome_ct (new_loss ct d) ≡ ct)
ply-outcome_ct ct d =
    (ply-new_win ct d, outcome_ct-new_win ct d, ply-new_loss ct d, outcome_ct-new_loss ct d)

-- The better of two conversion types for a win.
abbrev pub better : ConversionType → ConversionType → ConversionType
better a b = if ct_gt b a then b else a

abbrev pub best : ConversionType → List ConversionType → ConversionType
best a [] = a
best a (b ∷ bs) = best (better a b) bs

pub round_on_unknown :
    (ct : ConversionType) (plies v : ℕ)
    → is_unknown v ≡ true
    → mark_win_round ct plies v ≡ some (new_win ct plies, newly_resolved)
unfolding mark_win_round
round_on_unknown ct plies v u = rw u refl

-- Among wins of one ply, only the better conversion type is written.
pub round_on_win :
    (a b : ConversionType) (plies : ℕ)
    → plies < 2 ^ 13
    → mark_win_round b plies (new_win a plies)
      ≡ (if ct_gt b a then some (new_win b plies, upgraded) else none)
unfolding mark_win_round
round_on_win a b plies h =
    let (u, w, _) = new_win_classes a plies in
    rw (u, w, ply-new_win a plies, outcome_ct-new_win a plies) (ground arith)

mark_win_step :
    (a b : ConversionType) (plies : ℕ)
    → plies < 2 ^ 13
    → (mark_win b plies (new_win a plies)).0 ≡ new_win (better a b) plies
unfolding mark_win
mark_win_step a b plies h = rw (round_on_win a b plies h) (ground arith)

-- The calls of `mark_win` for one cell in some order: the word that is left.
abbrev pub mark_all : ℕ → List ConversionType → MaybeDtcOutcome → MaybeDtcOutcome
mark_all plies [] v = v
mark_all plies (ct ∷ cts) v = mark_all plies cts (mark_win ct plies v).0

mark_all_wins :
    (plies : ℕ) (cts : List ConversionType) (a : ConversionType)
    → plies < 2 ^ 13
    → mark_all plies cts (new_win a plies) ≡ new_win (best a cts) plies
mark_all_wins plies [] a h = refl
mark_all_wins plies (b ∷ cts) a h =
    rw (mark_win_step a b plies h) (mark_all_wins plies cts (better a b) h)

-- Whatever the order of the losses that reach an unknown position in one phase, the position ends
-- as a win at that ply with the best of their conversion types.
pub mark_all-best :
    (plies v : ℕ) (a : ConversionType) (cts : List ConversionType)
    → plies < 2 ^ 13
    → is_unknown v ≡ true
    → mark_all plies (a ∷ cts) v ≡ new_win (best a cts) plies
unfolding mark_win
mark_all-best plies v a cts h u = rw (round_on_unknown a plies v u) (mark_all_wins plies cts a h)

-- A word that is not unknown, and is no win at this ply, is left as it is.
pub mark_win_keeps :
    (ct : ConversionType) (plies v : ℕ)
    → is_unknown v ≡ false
    → (is_win v && ply v == plies) ≡ false
    → mark_win ct plies v ≡ (v, unchanged)
unfolding mark_win mark_win_round
mark_win_keeps ct plies v u w = ground arith

-- The first conversion type given is not better than the best.
pub best_bounds :
    (a : ConversionType) (cts : List ConversionType) → ct_rank a ≤ ct_rank (best a cts)
best_bounds a [] = omega arith
best_bounds a (b ∷ cts) = ground (arith, best_bounds (better a b) cts)

-- What a call of `mark_win` does: nothing, resolve an unknown word, or upgrade a win.
pub mark_win_cases :
    (ct : ConversionType) (plies v : ℕ)
    → (mark_win ct plies v ≡ (v, unchanged))
      ⊎ ((is_unknown v ≡ true) × (mark_win ct plies v ≡ (new_win ct plies, newly_resolved)))
      ⊎ ((is_win v ≡ true) × (mark_win ct plies v ≡ (new_win ct plies, upgraded)))
unfolding mark_win mark_win_round
mark_win_cases ct plies v = elim (Bool-cases (is_unknown v)) [
  | inl u ↦ inr (inl (u, rw u refl))
  | inr u ↦ elim (Bool-cases (is_win v && ply v == plies && ct_gt ct (outcome_ct v))) [
    | inl w ↦ inr (inr (ground (arith, w), rw (u, w) refl))
    | inr w ↦ inl (rw (u, w) refl)
  ]
]
