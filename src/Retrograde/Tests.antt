-- ===== src/Retrograde/Tests.antt =====
-- Runs of the solver's shared state, and the theorems on it at concrete inputs.
use chess_egt.Common.{◌+◌, ◌*◌, ◌≤◌, ◌⊎◌, ◌/◌, ◌≡◌, refl, List, [], ◌∷◌, ◌↔◌, some, arith}
use chess_egt.Outcome.{
  promotion, capture, checkmate, new_win, new_loss, new_unknown, is_unknown, is_win,
}
use chess_egt.Retrograde.{
  ply, outcome_ct, newly_resolved, upgraded, mark_win, mark_win_round, better_loss_ct, loss_kind,
  win_kind, blocks_with, note, new_summary,
}
use chess_egt.Retrograde.Update
use chess_egt.Retrograde.Countdown
use chess_egt.Retrograde.Race.{
  ready, holding, returned, Reach, start, then_step, here, there, load, swap, retry, resolvers,
  AllReturned,
}
use chess_egt.Retrograde.Race.Result
use chess_egt.Retrograde.Race.Finish
use chess_egt.Retrograde.Summary.Blocks

upgrade : mark_win checkmate 9 (new_win capture 9) ≡ (new_win checkmate 9, upgraded)
unfolding mark_win new_win is_unknown is_win ply outcome_ct
upgrade = refl

least_preferred : better_loss_ct (some capture) checkmate ≡ capture
unfolding better_loss_ct
least_preferred = refl

two_blocks : blocks_with (note (new_summary 5000) 4500 loss_kind 3) loss_kind 2 ≡ (4096, 5000) ∷ []
unfolding blocks_with note new_summary
two_blocks = refl

decrement_all_loss_example :
    Countdown.decrement_all 9 (capture ∷ checkmate ∷ promotion ∷ []) (new_unknown 2)
    ≡ (new_loss checkmate 9, 1)
decrement_all_loss_example =
    Countdown.decrement_all_loss 9 2 (capture ∷ checkmate ∷ promotion ∷ []) checkmate (omega arith)
      (omega arith) refl

-- The capture resolves the cell; the checkmate, which has loaded the unknown word before that, fails
-- once and then upgrades it.
mixed_run :
    Reach 9 16
      ((capture, ready) ∷ (checkmate, ready) ∷ [])
      74
      ((capture, returned newly_resolved) ∷ (checkmate, returned upgraded) ∷ [])
unfolding mark_win_round new_win is_unknown is_win ply outcome_ct
mixed_run =
    let r1 = then_step start (here capture ((checkmate, ready) ∷ []) (load 16)) in
    let r2 = then_step r1 (there (capture, holding 16) (here checkmate [] (load 16))) in
    let r3 =
      then_step r2
        (here capture ((checkmate, holding 16) ∷ []) (swap 16 16 76 newly_resolved refl refl)) in
    let r4 = then_step r3 (
      there (capture, returned newly_resolved)
        (here checkmate [] (retry 76 16 74 newly_resolved refl))) in
    then_step r4 (
      there (capture, returned newly_resolved)
        (here checkmate [] (swap 76 76 74 upgraded refl refl)))

race_result_example :
    (74 ≡ new_win (Update.best capture (checkmate ∷ [])) 9)
    × (resolvers ((capture, returned newly_resolved) ∷ (checkmate, returned upgraded) ∷ []) ≡ 1)
unfolding is_unknown
race_result_example =
    Result.race_result 9 16 capture (checkmate ∷ []) (omega arith) refl mixed_run tt

race_ends_example :
    (Finish.accesses mixed_run ≤ 5 * 2 + Finish.failures mixed_run)
    × (AllReturned ((capture, returned newly_resolved) ∷ (checkmate, returned upgraded) ∷ [])
        ⊎ Finish.Goes 9 74
            ((capture, returned newly_resolved) ∷ (checkmate, returned upgraded) ∷ []))
race_ends_example = Finish.race_ends 9 16 (capture ∷ checkmate ∷ []) mixed_run

abbrev entries : List Blocks.Entry
entries =
    record { at = 4500; kind = loss_kind; plies = 3 }
    ∷ record { at = 7; kind = win_kind capture; plies = 5 }
    ∷ []

blocks_with-note_all_example :
    Blocks.Covers 4200 (blocks_with (Blocks.note_all 5000 entries) loss_kind 2)
    ↔ Blocks.Noted (4200 / 4096) loss_kind 2 entries
blocks_with-note_all_example =
    Blocks.blocks_with-note_all 5000 entries 4200 2 loss_kind
      (omega arith, omega arith, (omega arith, omega arith, tt)) (omega arith) (omega arith)
