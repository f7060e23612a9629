-- ===== src/Retrograde/Race.antt =====
-- Workers that race on one cell with `WorkingPair::mark_win`, src/retrograde.rs. A step is one
-- atomic access by one worker: the load, a swap that succeeds, or a swap that fails, which a weak
-- compare-and-exchange may do at any time.
pub mod Status
pub mod Invariant
pub mod Result
pub mod Finish
use chess_egt.Common.{
  ℕ, zero, suc, ◌+◌, ◌^◌, ◌≤◌, ◌<◌, ◌≡◌, refl, ap, ◌∙◌, sym, List, [], ◌∷◌, map, Bool, true, false,
  Bool-cases, Option, some, none, ◌⊎◌, inl, inr, if◌then◌else◌, arith,
}
use chess_egt.Outcome.{ConversionType, MaybeDtcOutcome, ct_rank, is_unknown, new_win}
use chess_egt.Retrograde.{WinUpdate, unchanged, newly_resolved, upgraded, mark_win_round}

-- Before the load; with a word in hand; after the return.
pub data Phase : Type 0 where
  ready : Phase
  holding : MaybeDtcOutcome → Phase
  returned : WinUpdate → Phase

abbrev pub Worker : Type 0
Worker = ConversionType × Phase

-- One access by a worker with conversion type `ct`: the cell and the worker's phase, before and
-- after.
pub data Turn (plies : ℕ) (ct : ConversionType)
    : MaybeDtcOutcome → Phase → MaybeDtcOutcome → Phase → Type 0 where
  load : (cell : ℕ) → Turn plies ct cell ready cell (holding cell)
  give_up :
      (cell raw : ℕ)
      → mark_win_round ct plies raw ≡ none
      → Turn plies ct cell (holding raw) cell (returned unchanged)
  swap :
      (cell raw word : ℕ) (result : WinUpdate)
      → mark_win_round ct plies raw ≡ some (word, result)
      → cell ≡ raw
      → Turn plies ct cell (holding raw) word (returned result)
  retry :
      (cell raw word : ℕ) (result : WinUpdate)
      → mark_win_round ct plies raw ≡ some (word, result)
      → Turn plies ct cell (holding raw) cell (holding cell)

pub data Step (plies : ℕ)
    : MaybeDtcOutcome → List Worker → MaybeDtcOutcome → List Worker → Type 0 where
  here :
      {cell cell' : ℕ} {p p' : Phase} (ct : ConversionType) (ws : List Worker)
      → Turn plies ct cell p cell' p'
      → Step plies cell ((ct, p) ∷ ws) cell' ((ct, p') ∷ ws)
  there :
      {cell cell' : ℕ} {ws ws' : List Worker} (w : Worker)
      → Step plies cell ws cell' ws'
      → Step plies cell (w ∷ ws) cell' (w ∷ ws')

pub data Reach (plies : ℕ) (cell : MaybeDtcOutcome) (ws : List Worker)
    : MaybeDtcOutcome → List Worker → Type 0 where
  start : Reach plies cell ws cell ws
  then_step :
      {c c' : ℕ} {vs vs' : List Worker}
      → Reach plies cell ws c vs
      → Step plies c vs c' vs'
      → Reach plies cell ws c' vs'

abbrev pub fresh : WinUpdate → ℕ
fresh newly_resolved = 1
fresh unchanged = 0
fresh upgraded = 0

-- How many workers have been told that they resolved the cell.
abbrev pub resolvers : List Worker → ℕ
resolvers [] = 0
resolvers ((ct, ready) ∷ ws) = resolvers ws
resolvers ((ct, holding raw) ∷ ws) = resolvers ws
resolvers ((ct, returned u) ∷ ws) = fresh u + resolvers ws

abbrev pub types_of : List Worker → List ConversionType
types_of = map (λ w. w.0)

abbrev pub all_ready : List ConversionType → List Worker
all_ready = map (λ ct. (ct, ready))

abbrev pub AllReturned : List Worker → Type 0
AllReturned [] = Unit
AllReturned ((ct, ready) ∷ ws) = ⊥
AllReturned ((ct, holding raw) ∷ ws) = ⊥
AllReturned ((ct, returned u) ∷ ws) = AllReturned ws
