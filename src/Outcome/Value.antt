-- ===== src/Outcome/Value.antt =====
-- What a move is worth, given the outcome of the position that it leads to: `move_value` of
-- src/lib.rs.
use Prim.Native.Nat.{Ordering}
use chess_egt.Common.{◌^◌, ◌<◌, ◌≡◌, ◌≢◌, true, false, arith}
use chess_egt.Outcome.{DtcOutcome, win, draw, loss, cmp, MoveKind, is_conversion, move_value}

-- The distance is one that a word of thirteen bits can hold.
abbrev IsStored : DtcOutcome → Type 0
IsStored (win ct n) = n < 2 ^ 13
IsStored draw = Unit
IsStored (loss ct n) = n < 2 ^ 13

-- A quiet move reverses the order of stored outcomes exactly: comparing what it makes of `b` and
-- of `a` gives what comparing `a` and `b` gives.
pub quiet_reverses :
    (m : MoveKind) (a b : DtcOutcome)
    → is_conversion m ≡ false
    → IsStored a
    → IsStored b
    → cmp (move_value m b) (move_value m a) ≡ cmp a b
unfolding cmp move_value
quiet_reverses m (win c n) (win d k) q h h' = ground arith
quiet_reverses m a b q h h' = ground arith

-- A capture or a promotion turns an outcome that is no better for the opponent into a value that
-- is no worse for the mover.
pub conversion_reverses :
    (m : MoveKind) (a b : DtcOutcome)
    → is_conversion m ≡ true
    → cmp a b ≢ Ordering.gt
    → cmp (move_value m b) (move_value m a) ≢ Ordering.gt
unfolding cmp move_value
conversion_reverses m (win c n) (win d k) q h = ground arith
conversion_reverses m a b q h = ground arith
