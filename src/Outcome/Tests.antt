-- ===== src/Outcome/Tests.antt =====
-- Runs of the outcome functions, and the theorems on them at concrete inputs.
use Prim.Native.Nat.{Ordering}
use chess_egt.Common.{
  ◌≡◌, compare, ◌↔◌, refl, true, false, not, ◌&&◌, ◌||◌, ◌==◌, bit_and, ok, err, corrupted_outcome,
  arith,
}
use chess_egt.Outcome.{
  capture, checkmate, win, draw, loss, cmp, MoveKind, move_value, is_assigned, is_invalid,
  is_unknown, is_win, is_loss, new_win, new_loss, draw_word, to_outcome_at,
}
use chess_egt.Outcome.Order
use chess_egt.Outcome.Value
use chess_egt.Outcome.Word

win_word : new_win capture 9 ≡ 76
unfolding new_win
win_word = refl

corrupted : to_outcome_at 8 3 ≡ err (corrupted_outcome 8 3)
unfolding to_outcome_at
corrupted = refl

abbrev quiet : MoveKind
quiet = record { is_capture = false; is_promotion = false }

abbrev taking : MoveKind
taking = record { is_capture = true; is_promotion = false }

taking_wins : move_value taking (loss checkmate 4) ≡ win capture 1
unfolding move_value
taking_wins = refl

unpack-pack_example :
    (to_outcome_at (new_win capture 9) 5 ≡ ok (win capture 9))
    × (to_outcome_at (new_loss capture 9) 5 ≡ ok (loss capture 9))
    × (to_outcome_at draw_word 5 ≡ ok draw)
unpack-pack_example = Word.unpack-pack capture 9 5

pack-unpack_example : Word.Packs 76 (win capture 9)
unfolding to_outcome_at
pack-unpack_example = Word.pack-unpack 76 0 (win capture 9) (omega arith) refl

word_classes_example :
    (is_assigned 8 ≡ not (is_invalid 8 || is_unknown 8))
    × (is_invalid 8 && is_unknown 8 ≡ false)
    × ((to_outcome_at 8 3 ≡ err (corrupted_outcome 8 3)) ↔ (is_assigned 8 ≡ false))
    × (is_assigned 8 ≡ (is_win 8 || is_loss 8 || bit_and 8 7 == 1))
    × (is_win 8 && is_loss 8 ≡ false)
word_classes_example = Word.word_classes 8 3

cmp-worth_example :
    (cmp (win capture 4) (win checkmate 5)
      ≡ compare (Order.worth (win capture 4)) (Order.worth (win checkmate 5)))
    × ((cmp (win capture 4) (win checkmate 5) ≡ Ordering.eq) ↔ (win capture 4 ≡ win checkmate 5))
cmp-worth_example = Order.cmp-worth (win capture 4) (win checkmate 5) (omega arith) (omega arith)

quiet_reverses_example :
    cmp (move_value quiet (loss capture 4)) (move_value quiet (loss capture 3))
    ≡ cmp (loss capture 3) (loss capture 4)
quiet_reverses_example =
    Value.quiet_reverses quiet (loss capture 3) (loss capture 4) refl (omega arith) (omega arith)
