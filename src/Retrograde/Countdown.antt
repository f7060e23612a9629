-- ===== src/Retrograde/Countdown.antt =====
-- The move counter of a cell under calls of `decrement`, src/retrograde.rs.
use chess_egt.Common.{
  ℕ, zero, suc, ◌-◌, ◌^◌, ◌<◌, ◌≡◌, refl, List, [], ◌∷◌, true, false, some, ◌==◌, if◌then◌else◌,
  length, arith, get_elem?, ◌⊎◌, inl, inr, Bool-cases,
}
use chess_egt.Outcome.{
  ConversionType, MaybeDtcOutcome, is_unknown, get_unknown_counter, new_loss, new_unknown,
}
use chess_egt.Outcome.Word.{new_loss_classes, new_unknown_lem}
use chess_egt.Retrograde.{decrement_round, decrement}

-- The word that the calls leave, and how often a call returned true.
abbrev pub decrement_all : ℕ → List ConversionType → MaybeDtcOutcome → MaybeDtcOutcome × ℕ
decrement_all plies [] v = (v, 0)
decrement_all plies (ct ∷ cts) v =
    let (v', resolved) = decrement ct plies v in
    let (w, n) = decrement_all plies cts v' in (w, if resolved then suc n else n)

decrement_counts :
    (ct : ConversionType) (plies c : ℕ)
    → 1 < c
    → c < 2 ^ 13
    → decrement ct plies (new_unknown c) ≡ (new_unknown (c - 1), false)
unfolding decrement decrement_round
decrement_counts ct plies c p h =
    let (count, unknown) = new_unknown_lem c h in
    let test : (c == 0) ≡ false = ground arith in
    let more : (c == 1) ≡ false = ground arith in rw (unknown, count, test, more) refl

decrement_last :
    (ct : ConversionType) (plies : ℕ)
    → decrement ct plies (new_unknown 1) ≡ (new_loss ct plies, true)
unfolding decrement decrement_round
decrement_last ct plies =
    let (count, unknown) = new_unknown_lem 1 (omega arith) in rw (unknown, count) refl

decrement_resolved :
    (ct : ConversionType) (plies v : ℕ) → is_unknown v ≡ false → decrement ct plies v ≡ (v, false)
unfolding decrement decrement_round
decrement_resolved ct plies v u = rw u refl

-- While fewer calls are made than the counter holds, the counter falls by one at each, and no call
-- reports a loss.
pub decrement_all_few :
    (plies c : ℕ) (cts : List ConversionType)
    → length cts < c
    → c < 2 ^ 13
    → decrement_all plies cts (new_unknown c) ≡ (new_unknown (c - length cts), 0)
decrement_all_few plies c [] l h = let e : c - 0 ≡ c = omega arith in rw e refl
decrement_all_few plies c (ct ∷ cts) l h =
    let e : c - 1 - length cts ≡ c - suc (length cts) = omega arith in
    rw
      (
        decrement_counts ct plies c (omega arith) h,
        decrement_all_few plies (c - 1) cts (omega arith) (omega arith),
        e,
      )
      refl

resolved_stays :
    (plies v : ℕ) (cts : List ConversionType)
    → is_unknown v ≡ false
    → decrement_all plies cts v ≡ (v, 0)
resolved_stays plies v [] u = refl
resolved_stays plies v (ct ∷ cts) u =
    rw (decrement_resolved ct plies v u, resolved_stays plies v cts u) refl

-- The call that uses up the counter makes the cell a loss at that ply with its own conversion type;
-- just this call reports a loss, and all later calls change nothing.
pub decrement_all_loss :
    (plies c : ℕ) (cts : List ConversionType) (ct : ConversionType)
    → 0 < c
    → c < 2 ^ 13
    → get_elem? cts (c - 1) ≡ some ct
    → decrement_all plies cts (new_unknown c) ≡ (new_loss ct plies, 1)
decrement_all_loss plies zero cts ct p h e = elim p [ ]
decrement_all_loss plies (suc c) [] ct p h e = cc
decrement_all_loss plies (suc zero) (d ∷ cts) ct p h e =
    let same : d ≡ ct = ground arith in
    rw
      (
        decrement_last d plies,
        resolved_stays plies (new_loss d plies) cts (new_loss_classes d plies).0,
        same,
      )
      refl
decrement_all_loss plies (suc (suc c)) (d ∷ cts) ct p h e =
    let down : suc (suc c) - 1 ≡ suc c = omega arith in
    let down' : suc c - 1 ≡ c = omega arith in
    rw
      (
        decrement_counts d plies (suc (suc c)) (omega arith) h,
        down,
        decrement_all_loss plies (suc c) cts ct (omega arith) (omega arith)
            (rw down' (rw down at e)),
      )
      refl

-- What a call of `decrement` does: nothing on a word that is not unknown, resolve one, or count.
pub decrement_cases :
    (ct : ConversionType) (plies v : ℕ)
    → (decrement ct plies v ≡ (v, false))
      ⊎ ((is_unknown v ≡ true) × (decrement ct plies v ≡ (new_loss ct plies, true)))
      ⊎ ((is_unknown v ≡ true)
          × (decrement ct plies v ≡ (new_unknown (get_unknown_counter v - 1), false)))
unfolding decrement decrement_round
decrement_cases ct plies v = elim (Bool-cases (is_unknown v)) [
  | inr u ↦ inl (rw u refl)
  | inl u ↦ elim (Bool-cases (get_unknown_counter v == 1)) [
    | inl last ↦ inr (inl (u, rw (u, last) refl))
    | inr more ↦ inr (inr (u, rw (u, more) refl))
  ]
]
