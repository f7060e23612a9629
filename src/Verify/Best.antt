-- ===== src/Verify/Best.antt =====
-- What `best_outcome` of src/lib.rs returns: the greatest value of a move.
use Prim.Native.Nat.{Ordering}
use chess_egt.Common.{
  ◌≡◌, ◌≢◌, refl, sym, ap, ◌∙◌, true, false, List, [], ◌∷◌, Option, none, some, ◌⊎◌, inl, inr,
  Bool-cases, EgtResult, ok, err, ◌>>=◌, EgtResult-cases,
}
use chess_egt.Outcome.{DtcOutcome, cmp, move_value}
use chess_egt.Outcome.Order.{swap, cmp_refl, cmp-swap, cmp_trans}
use chess_egt.Retrograde.Solver.Rules.{Chess}
use chess_egt.Verify.{is_more, better_value, best_from, best_outcome, or_internal}

-- `a` is not greater than `b`.
abbrev pub AtMost : DtcOutcome → DtcOutcome → Type 0
AtMost a b = cmp a b ≢ Ordering.gt

AtMost-refl : (a : DtcOutcome) → AtMost a a
AtMost-refl a e = let x : Ordering.eq ≡ Ordering.gt = sym (cmp_refl a) ∙ e in cc

more_back : (c : Ordering) → is_more c ≡ true → swap c ≢ Ordering.gt
more_back Ordering.lt t e = cc
more_back Ordering.eq t e = cc
more_back Ordering.gt t e = cc

not_more : (c : Ordering) → is_more c ≡ false → c ≢ Ordering.gt
not_more Ordering.lt t e = cc
not_more Ordering.eq t e = cc
not_more Ordering.gt t e = cc

abbrev Bound : Option DtcOutcome → DtcOutcome → Type 0
Bound none b = Unit
Bound (some a) b = AtMost a b

abbrev Source : Option DtcOutcome → DtcOutcome → Type 0
Source none b = ⊥
Source (some a) b = b ≡ a

better_value-Bound :
    (v : DtcOutcome) (o : Option DtcOutcome)
    → AtMost v (better_value v o)
      × Bound o (better_value v o)
      × ((better_value v o ≡ v) ⊎ Source o (better_value v o))
better_value-Bound v none = (AtMost-refl v, tt, inl refl)
better_value-Bound v (some best) = elim (Bool-cases (is_more (cmp v best))) [
  | inl t ↦
      let back : AtMost best v = λ e. more_back (cmp v best) t (sym (cmp-swap v best) ∙ e) in
      rw t (AtMost-refl v, back, inl refl)
  | inr f ↦ rw f (not_more (cmp v best) f, AtMost-refl best, inr refl)
]

Bound-trans : (o : Option DtcOutcome) (a b : DtcOutcome) → Bound o a → AtMost a b → Bound o b
Bound-trans none a b h k = tt
Bound-trans (some x) a b h k = cmp_trans x a b h k

found_some :
    (r : EgtResult (Option DtcOutcome)) (best : DtcOutcome)
    → (r >>= or_internal) ≡ ok best
    → r ≡ ok (some best)
found_some (ok none) best e = cc
found_some (ok (some b)) best e = let same : b ≡ best = cc in ap (λ x. ok (some x)) same
found_some (err x) best e = cc

module _ (chess : Chess) (probe_outcome : chess.Position → EgtResult DtcOutcome) where
  -- The outcome is the value of one of the moves.
  abbrev pub Reached : chess.Position → List chess.Move → DtcOutcome → Type 0
  Reached position [] best = ⊥
  Reached position (m ∷ ms) best =
      ((s : DtcOutcome) × (probe_outcome (chess.play_unchecked position m) ≡ ok s)
        × (best ≡ move_value (chess.kind m) s))
      ⊎ Reached position ms best

  -- All successors have an outcome, and no move has a greater value.
  abbrev pub NoneGreater : chess.Position → List chess.Move → DtcOutcome → Type 0
  NoneGreater position [] best = Unit
  NoneGreater position (m ∷ ms) best =
      ((s : DtcOutcome) × (probe_outcome (chess.play_unchecked position m) ≡ ok s)
        × AtMost (move_value (chess.kind m) s) best)
      × NoneGreater position ms best

  best_from_lem :
      (position : chess.Position) (ms : List chess.Move) (o : Option DtcOutcome) (b : DtcOutcome)
      → best_from chess probe_outcome position ms o ≡ ok (some b)
      → Bound o b × NoneGreater position ms b × (Source o b ⊎ Reached position ms b)
  best_from_lem position [] none b e = cc
  best_from_lem position [] (some a) b e =
      let same : a ≡ b = cc in (rw same (AtMost-refl b), tt, inl (sym same))
  best_from_lem position (m ∷ ms) o b e =
      elim (EgtResult-cases (probe_outcome (chess.play_unchecked position m))) [
        | inr (x, failed) ↦ let e' = rw failed at e in cc
        | inl (s, found) ↦
            let v = move_value (chess.kind m) s in
            let next = better_value v o in
            let (bound, rest, from) = best_from_lem position ms (some next) b (rw found at e) in
            let (vb, ob, choice) = better_value-Bound v o in
            (
              Bound-trans o next b ob bound,
              ((s, found, cmp_trans v next b vb bound), rest),
              elim from [
                | inr r ↦ inr (inr r)
                | inl same ↦ elim choice [
                  | inl is_v ↦ inr (inl (s, found, same ∙ is_v))
                  | inr is_old ↦ inl (rw (sym same) at is_old)
                ]
              ],
            )
      ]

  -- When `best_outcome` has a result, then that is the value of a move, all successors have been
  -- found, and no move has a greater value.
  pub best_outcome_lem :
      (position : chess.Position) (ms : List chess.Move) (best : DtcOutcome)
      → best_outcome chess probe_outcome position ms ≡ ok best
      → Reached position ms best × NoneGreater position ms best
  unfolding best_outcome
  best_outcome_lem position ms best e =
      let (bound, none_greater, from) =
        best_from_lem position ms none best
          (found_some (best_from chess probe_outcome position ms none) best e) in
      (elim from [ inl old ↦ absurd old | inr reached ↦ reached ], none_greater)
