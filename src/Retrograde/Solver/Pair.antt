-- ===== src/Retrograde/Solver/Pair.antt =====
-- `WorkingPair::new`, `quiet_unmoves` and `solve_pair` of src/retrograde.rs.
-- The allocator is a function that gives the text of its error, if there is one.
pub mod Ready
pub mod Solved
use Prim.Native.String.{String, ◌++◌ as ◌<>◌}
use chess_egt.Common.{
  ℕ, ◌*◌, ◌^◌, Bool, true, false, not, ◌&&◌, List, [], ◌∷◌, ◌++◌, Option, none, some, ltb,
  if◌then◌else◌, set, replicate, EgtResult, ok, err, ◌>>=◌, working_memory_allocation,
}
use chess_egt.Outcome.{MaybeDtcOutcome, invalid_word}
use chess_egt.TableId.{from_elements, canonicalized, twin as twin_key}
use chess_egt.Retrograde.{PlySummary, new_summary}
use chess_egt.Retrograde.Solver.{Found, nothing_found, Working, Side, Rounds, propagate}
use chess_egt.Retrograde.Solver.Rules.{
  Chess, Egt, Run, returns, then_run, run, kings_on_long_diagonal, InvalidCounts,
}
use chess_egt.Retrograde.Solver.Start.{InitCounts, initialize_table, no_counts}

allocation_context : String → String
allocation_context table = "table " <> table <> " working values"

abbrev reserved : ℕ → String → Option String → EgtResult (List MaybeDtcOutcome)
reserved len context none = ok (replicate len invalid_word)
reserved len context (some reason) = err (working_memory_allocation context (len * 2) reason)

-- One array of `WorkingPair::new`
unfoldable pub new_array : (ℕ → Option String) → String → ℕ → EgtResult (List MaybeDtcOutcome)
unfolding allocation_context
new_array reserve table len =
    let context = allocation_context table in
    if ltb (len * 2) (2 ^ 64)
    then reserved len context (reserve len)
    else err (working_memory_allocation context (len * 2) "allocation size overflow")

unfoldable pub new_pair :
    (ℕ → Option String) → List (String × ℕ) → EgtResult (List (List MaybeDtcOutcome))
new_pair reserve [] = ok []
new_pair reserve ((table, len) ∷ tables) =
    new_array reserve table len
    >>= (λ values. new_pair reserve tables >>= (λ rest. ok (values ∷ rest)))

module _ (chess : Chess) where
  abbrev pred_index : Egt chess → Bool → chess.Position → ℕ
  pred_index twin mirrored pred_position =
      if mirrored
      then twin.reflected_position_to_index pred_position
      else twin.position_to_index pred_position

  abbrev reflected_index : Option ℕ → List ℕ
  reflected_index none = []
  reflected_index (some idx) = idx ∷ []

  -- The indices that are emitted for the predecessors
  abbrev emit_all : Egt chess → Bool → Bool → List chess.Position → List ℕ
  emit_all twin mirrored use_diagonal_symmetry [] = []
  emit_all twin mirrored use_diagonal_symmetry (pred_position ∷ rest) =
      let pred_idx = pred_index twin mirrored pred_position in
      let more = reflected_index (twin.diagonal_symmetric pred_idx) in
      pred_idx ∷ (if use_diagonal_symmetry then more else [])
      ++ emit_all twin mirrored use_diagonal_symmetry rest

  unfoldable pub quiet_unmoves : Egt chess → Egt chess → Bool → ℕ → List ℕ
  quiet_unmoves table twin mirrored local_index =
      let position = table.position_from_index_unchecked local_index in
      let use_diagonal_symmetry =
        twin.is_pawnless && not (kings_on_long_diagonal (chess.kings position)) in
      emit_all twin mirrored use_diagonal_symmetry (
        if table.is_pawnless
        then chess.pawnless_quiet_unmoves position
        else chess.pawnful_quiet_unmoves position)

  -- An entry of `tables`.
  pub record TableEntry : Type 0 where
    pub table : Egt chess
    pub twin : Egt chess
    pub slot : ℕ
    pub twin_slot : ℕ

  unfoldable pub tables : Egt chess → Option (Egt chess) → List TableEntry
  tables a none = record { table = a; twin = a; slot = 0; twin_slot = 0 } ∷ []
  tables a (some b) =
      record { table = a; twin = b; slot = 0; twin_slot = 1 }
      ∷ record { table = b; twin = a; slot = 1; twin_slot = 0 }
      ∷ []

  abbrev pub sizes : List TableEntry → List (String × ℕ)
  sizes [] = []
  sizes (e ∷ es) = (e.table.tablename, e.table.index_range) ∷ sizes es

  abbrev pub new_summaries : List TableEntry → List PlySummary
  new_summaries [] = []
  new_summaries (e ∷ es) = new_summary e.table.index_range ∷ new_summaries es

  -- Whether the twin's pawns are canonical only after a reflection.
  unfoldable pub is_mirrored : Egt chess → Bool
  is_mirrored table = (canonicalized (twin_key (from_elements table.elements))).1

  abbrev pub sides : List TableEntry → List Side
  sides [] = []
  sides (e ∷ es) =
      record {
        slot = e.slot;
        twin_slot = e.twin_slot;
        unmoves = quiet_unmoves e.table e.twin (is_mirrored e.table);
      }
      ∷ sides es

-- The state between the initialization of two tables.
pub record Prepared : Type 0 where
  pub working : Working
  pub previous : List Found
  pub found_by_conversion : List Found
  pub invalid : List InvalidCounts

abbrev pub prepare : ℕ → Prepared → List MaybeDtcOutcome × PlySummary × InitCounts → Prepared
prepare slot p (values, summary, counts) = record {
  working = record {
    values = set p.working.values slot values;
    summaries = set p.working.summaries slot summary;
  };
  previous = set p.previous slot (record { wins = 0; losses = counts.checkmates });
  found_by_conversion = set p.found_by_conversion slot counts.found;
  invalid = set p.invalid slot counts.invalid;
}

abbrev pub unprepared : List (List MaybeDtcOutcome) → List PlySummary → Prepared
unprepared values summaries = record {
  working = record { values = values; summaries = summaries };
  previous = nothing_found ∷ nothing_found ∷ [];
  found_by_conversion = nothing_found ∷ nothing_found ∷ [];
  invalid = no_counts.invalid ∷ no_counts.invalid ∷ [];
}

pub record PairResult : Type 0 where
  pub values : List (List MaybeDtcOutcome)
  pub invalid_counts : List InvalidCounts
  pub max_win : List ℕ
  pub max_loss : List ℕ

abbrev pub first_round : Prepared → Rounds
first_round p = record {
  working = p.working;
  previous = p.previous;
  max_win = 0 ∷ 0 ∷ [];
  max_loss = 0 ∷ 0 ∷ [];
  plies = 1;
}

abbrev pub pair_result : Prepared → Option Rounds → Option PairResult
pair_result p none = none
pair_result p (some r) = some (record {
  values = r.working.values;
  invalid_counts = p.invalid;
  max_win = r.max_win;
  max_loss = r.max_loss;
})

module _ (chess : Chess) (probe : chess.Position → EgtResult MaybeDtcOutcome)
    (reserve : ℕ → Option String) where
  unfoldable pub prepare_all : List (TableEntry chess) → Prepared → Run Prepared
  prepare_all [] p = returns p
  prepare_all (e ∷ es) p =
      then_run (initialize_table chess e.table probe) (λ t. prepare_all es (prepare e.slot p t))

  unfoldable pub prepared : List (TableEntry chess) → Run Prepared
  prepared es =
      then_run (run (new_pair reserve (sizes chess es)))
        (λ values. prepare_all es (unprepared values (new_summaries chess es)))

  -- `solve_pair`, with its loop as an argument
  unfoldable pub solve_by :
      (List Side → List Found → Rounds → Option Rounds)
      → Egt chess
      → Option (Egt chess)
      → Run (Option PairResult)
  solve_by loop a b =
      let es = tables chess a b in
      then_run (prepared es)
        (λ p. returns (pair_result p (loop (sides chess es) p.found_by_conversion (first_round p))))

  -- With the fuel of its loop
  unfoldable pub solve_pair : ℕ → Egt chess → Option (Egt chess) → Run (Option PairResult)
  solve_pair fuel = solve_by (propagate fuel)
