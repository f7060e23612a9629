-- ===== src/Retrograde/Race/Result.antt =====
-- The end of a race on one cell with `WorkingPair::mark_win`, src/retrograde.rs.
use chess_egt.Common.{
  ℕ, ◌^◌, ◌≤◌, ◌<◌, ◌≡◌, refl, ap, ◌∙◌, sym, List, [], ◌∷◌, true, Bool-cases, some, none, ◌⊎◌, inl,
  inr, arith,
}
use chess_egt.Outcome.{ConversionType, ct_rank, is_unknown, new_win}
use chess_egt.Outcome.Order.{ct_rank_injective}
use chess_egt.Retrograde.{ct_gt}
use chess_egt.Retrograde.Update.{better, best, best_bounds}
use chess_egt.Retrograde.Race.{
  ready, holding, returned, Worker, Reach, resolvers, types_of, all_ready, AllReturned,
}
use chess_egt.Retrograde.Race.Status.{Status, rank_of, Has, Written}
use chess_egt.Retrograde.Race.Invariant.{AllOk, holds, types_kept}

better_one : (a b : ConversionType) → (better a b ≡ a) ⊎ (better a b ≡ b)
better_one a b = elim (Bool-cases (ct_gt b a)) [ inl t ↦ inr (rw t refl) | inr f ↦ inl (rw f refl) ]

Has_better :
    (x a b : ConversionType) (cts : List ConversionType)
    → (better a b ≡ a) ⊎ (better a b ≡ b)
    → Has x (better a b ∷ cts)
    → Has x (a ∷ b ∷ cts)
Has_better x a b cts (inl o) (inl e) = inl (sym o ∙ e)
Has_better x a b cts (inr o) (inl e) = inr (inl (sym o ∙ e))
Has_better x a b cts o (inr h) = inr (inr h)

best_Has : (a : ConversionType) (cts : List ConversionType) → Has (best a cts) (a ∷ cts)
best_Has a [] = inl refl
best_Has a (b ∷ cts) =
    Has_better (best a (b ∷ cts)) a b cts (better_one a b) (best_Has (better a b) cts)

best_upper :
    (x a : ConversionType) (cts : List ConversionType)
    → Has x (a ∷ cts)
    → ct_rank x ≤ ct_rank (best a cts)
best_upper x a [] (inl e) = omega (arith, ap ct_rank e)
best_upper x a [] (inr h) = elim h [ ]
best_upper x a (b ∷ cts) (inl e) = ground (arith, ap ct_rank e, best_bounds (better a b) cts)
best_upper x a (b ∷ cts) (inr (inl e)) = ground (arith, ap ct_rank e, best_bounds (better a b) cts)
best_upper x a (b ∷ cts) (inr (inr h)) = best_upper x (better a b) cts (inr h)

module _ (plies v : ℕ) where
  below :
      (s : Status) (x : ConversionType) (ws : List Worker)
      → AllOk plies v s ws
      → AllReturned ws
      → Has x (types_of ws)
      → ct_rank x < rank_of s
  below s x [] ok all h = elim h [ ]
  below s x ((ct, ready) ∷ ws) ok all h = elim all [ ]
  below s x ((ct, holding raw) ∷ ws) ok all h = elim all [ ]
  below s x ((ct, returned u) ∷ ws) ok all (inl e) = omega (arith, ok.0, ap ct_rank e)
  below s x ((ct, returned u) ∷ ws) ok all (inr h) = below s x ws ok.1 all h

  ends :
      (s : Status) (a : ConversionType) (cts : List ConversionType)
      → ct_rank (best a cts) < rank_of s
      → Written s (a ∷ cts)
      → s ≡ some (best a cts)
  ends none a cts lt w = absurd (omega arith)
  ends (some b) a cts lt w =
      ap some (ct_rank_injective b (best a cts) (omega (arith, best_upper b a cts w)))

-- However the atomic accesses of the workers interleave, and however often a swap fails: once
-- every worker has returned, an unknown cell holds a win at this ply with the best of the conversion types
-- offered, and exactly one worker has been told that it resolved the cell.
pub race_result :
    (plies v : ℕ) (a : ConversionType) (cts : List ConversionType) {cell : ℕ} {ws : List Worker}
    → plies < 2 ^ 13
    → is_unknown v ≡ true
    → Reach plies v (all_ready (a ∷ cts)) cell ws
    → AllReturned ws
    → (cell ≡ new_win (best a cts) plies) × (resolvers ws ≡ 1)
race_result plies v a cts {ws = ws} small unknown r all =
    let h = holds plies v small unknown (a ∷ cts) r in
    let types = types_kept plies v small unknown (a ∷ cts) r in
    let lt = below plies v h.status (best a cts) ws h.all_ok all (rw types (best_Has a cts)) in
    let e = ends plies v h.status a cts lt (rw types at h.from) in (rw e at h.cell, rw e at h.count)
