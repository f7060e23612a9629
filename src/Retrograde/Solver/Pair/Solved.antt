-- ===== src/Retrograde/Solver/Pair/Solved.antt =====
-- `solve_pair` of src/retrograde.rs as a whole.
use Prim.Native.String.{String}
use chess_egt.Common.{
  ℕ, ◌+◌, ◌*◌, ◌^◌, ◌≤◌, ◌<◌, ◌≡◌, refl, ap, Option, none, some, EgtResult, arith,
}
use chess_egt.Outcome.{MaybeDtcOutcome}
use chess_egt.Retrograde.Solver.{Rounds}
use chess_egt.Retrograde.Solver.Terminates.{propagate_ends}
use chess_egt.Retrograde.Solver.Reference.{sweep_all, propagate-sweep_all}
use chess_egt.Retrograde.Solver.Rules.{Chess, Egt, Run, returns, fails, panics, then_run}
use chess_egt.Retrograde.Solver.Start.Bounds.{Holds, then_run-Holds}
use chess_egt.Retrograde.Solver.Pair.{
  Prepared, tables, prepared, PairResult, pair_result, first_round, sides, solve_by, solve_pair,
}
use chess_egt.Retrograde.Solver.Pair.Ready.{pair_size, IsPrepared, prepared-IsPrepared}

-- Two continuations that agree wherever the first part leads.
then_run-agree {ℓ} :
    {A B : Type 0} (P : A → Type ℓ) (x : Run A) (f g : A → Run B)
    → Holds P x
    → ((a : A) → P a → f a ≡ g a)
    → then_run x f ≡ then_run x g
then_run-agree P (returns a) f g p h = h a p
then_run-agree P (fails e) f g p h = refl
then_run-agree P panics f g p h = refl

module _ (chess : Chess) (probe : chess.Position → EgtResult MaybeDtcOutcome)
    (reserve : ℕ → Option String) where
  abbrev Ended : Option PairResult → Type 0
  Ended o = (r : PairResult) × (o ≡ some r)

  pair_result-Ended :
      (p : Prepared) (o : Option Rounds) (r : Rounds) → o ≡ some r → Ended (pair_result p o)
  pair_result-Ended p none r e = cc
  pair_result-Ended p (some r') r e = (_, refl)

  solve_pair-Ended :
      (fuel : ℕ) (a : Egt chess) (b : Option (Egt chess))
      → 2 * pair_size a b + 2 ≤ fuel
      → Holds Ended (solve_pair chess probe reserve fuel a b)
  unfolding solve_pair solve_by
  solve_pair-Ended fuel a b h =
      let es = tables chess a b in
      then_run-Holds (IsPrepared (pair_size a b)) Ended (prepared chess probe reserve es) _
        (prepared-IsPrepared chess probe reserve a b)
        (λ p ready.
          let (r, e) =
            propagate_ends fuel (sides chess es) p.found_by_conversion (first_round p)
              (omega (arith, ready.1, h)) in
          pair_result-Ended p _ r e)

  -- The rounds of `solve_pair` end: with fuel of two rounds for each index of the tables and two
  -- more, it never runs out; when the initialization neither fails nor panics, it has a result.
  pub solve_pair_ends :
      (fuel : ℕ) (a : Egt chess) (b : Option (Egt chess)) (o : Option PairResult)
      → 2 * pair_size a b + 2 ≤ fuel
      → solve_pair chess probe reserve fuel a b ≡ returns o
      → (r : PairResult) × (o ≡ some r)
  solve_pair_ends fuel a b o h e = let ended = solve_pair-Ended fuel a b h in rw e at ended

  -- For up to 2 ^ 13 - 1 rounds, `solve_pair` is the same as with a loop that sweeps whole tables at
  -- the start of each pass and looks at no summary.
  pub solve_pair-sweep_all :
      (fuel : ℕ) (a : Egt chess) (b : Option (Egt chess))
      → fuel < 2 ^ 13
      → solve_pair chess probe reserve fuel a b ≡ solve_by chess probe reserve (sweep_all fuel) a b
  unfolding solve_pair solve_by
  solve_pair-sweep_all fuel a b h =
      let es = tables chess a b in
      then_run-agree (IsPrepared (pair_size a b)) (prepared chess probe reserve es) _ _
        (prepared-IsPrepared chess probe reserve a b)
        (λ p ready.
          ap (λ o. returns (pair_result p o))
            (propagate-sweep_all fuel (sides chess es) p.found_by_conversion (first_round p) ready.0
              (omega arith) (omega (arith, h))))
