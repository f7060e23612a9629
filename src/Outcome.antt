-- ===== src/Outcome.antt =====
-- `ConversionType`, `DtcOutcome`, its order and `move_value` of src/lib.rs, and the packed word
-- `MaybeDtcOutcome` of src/egt_file.rs: three low bits of tag under a distance of thirteen bits.
pub mod Order
pub mod Word
pub mod Value
mod Tests
use Prim.Native.Nat.{Ordering}
use chess_egt.Common.{
  ℕ, ◌+◌, ◌*◌, ◌/◌, ◌%◌, ◌^◌, compare, bit_and, bit_or, Bool, true, false, not, ◌&&◌, ◌||◌, ◌==◌,
  if◌then◌else◌, EgtResult, ok, err, corrupted_outcome,
}

pub data ConversionType : Type 0 where
  promotion capture checkmate : ConversionType

pub data DtcOutcome : Type 0 where
  win : ConversionType → ℕ → DtcOutcome
  draw : DtcOutcome
  loss : ConversionType → ℕ → DtcOutcome

-- The derived order: as the constructors are listed.
abbrev pub ct_rank : ConversionType → ℕ
ct_rank promotion = 0
ct_rank capture = 1
ct_rank checkmate = 2

abbrev pub then_cmp : Ordering → Ordering → Ordering
then_cmp Ordering.lt d = Ordering.lt
then_cmp Ordering.eq d = d
then_cmp Ordering.gt d = Ordering.gt

abbrev cmp_ct : ConversionType → ConversionType → Ordering
cmp_ct a b = compare (ct_rank a) (ct_rank b)

-- `DtcOutcome::cmp`
unfoldable pub cmp : DtcOutcome → DtcOutcome → Ordering
cmp (win ct1 n1) (win ct2 n2) = then_cmp (compare n2 n1) (cmp_ct ct1 ct2)
cmp draw draw = Ordering.eq
cmp (loss ct1 n1) (loss ct2 n2) = then_cmp (compare n1 n2) (cmp_ct ct2 ct1)
cmp (win ct n) draw = Ordering.gt
cmp draw (win ct n) = Ordering.lt
cmp (win ct n) (loss ct' n') = Ordering.gt
cmp (loss ct n) (win ct' n') = Ordering.lt
cmp draw (loss ct n) = Ordering.gt
cmp (loss ct n) draw = Ordering.lt

-- The kind of a move, as far as the value of a position depends on it.
pub record MoveKind : Type 0 where
  pub is_capture : Bool
  pub is_promotion : Bool

abbrev pub is_conversion : MoveKind → Bool
is_conversion m = m.is_capture || m.is_promotion

abbrev conversion_type : MoveKind → ConversionType
conversion_type m = if m.is_capture then capture else promotion

abbrev converted : ConversionType → DtcOutcome → DtcOutcome
converted ct (loss _ _) = win ct 1
converted ct draw = draw
converted ct (win _ _) = loss ct 1

-- `n + 1` on u16
abbrev next_ply : ℕ → ℕ
next_ply n = (n + 1) % 2 ^ 16

abbrev delayed : DtcOutcome → DtcOutcome
delayed (loss ct n) = win ct (next_ply n)
delayed draw = draw
delayed (win ct n) = loss ct (next_ply n)

unfoldable pub move_value : MoveKind → DtcOutcome → DtcOutcome
move_value m successor_outcome =
    if is_conversion m
    then converted (conversion_type m) successor_outcome
    else delayed successor_outcome

-- A u16.
abbrev pub MaybeDtcOutcome : Type 0
MaybeDtcOutcome = ℕ

abbrev pub invalid_word : MaybeDtcOutcome
invalid_word = 0

abbrev pub draw_word : MaybeDtcOutcome
draw_word = 1

unfoldable pub is_assigned : MaybeDtcOutcome → Bool
is_assigned v = not (bit_and v 7 == 0)

unfoldable pub is_invalid : MaybeDtcOutcome → Bool
is_invalid v = v == 0

unfoldable pub is_unknown : MaybeDtcOutcome → Bool
is_unknown v = (bit_and v 7 == 0) && not (v / 2 ^ 3 == 0)

unfoldable pub get_unknown_counter : MaybeDtcOutcome → ℕ
get_unknown_counter v = v / 2 ^ 3

unfoldable pub is_draw : MaybeDtcOutcome → Bool
is_draw v = v == 1

unfoldable pub is_win : MaybeDtcOutcome → Bool
is_win v = let tag = bit_and v 7 in tag == 2 || tag == 4 || tag == 6

unfoldable pub is_loss : MaybeDtcOutcome → Bool
is_loss v = let tag = bit_and v 7 in tag == 3 || tag == 5 || tag == 7

-- `x << 3` on u16
abbrev shl3 : ℕ → ℕ
shl3 x = x * 2 ^ 3 % 2 ^ 16

abbrev win_bits : ConversionType → ℕ
win_bits checkmate = 2
win_bits capture = 4
win_bits promotion = 6

abbrev loss_bits : ConversionType → ℕ
loss_bits checkmate = 3
loss_bits capture = 5
loss_bits promotion = 7

unfoldable pub new_win : ConversionType → ℕ → MaybeDtcOutcome
new_win ct distance = bit_or (win_bits ct) (shl3 distance)

unfoldable pub new_loss : ConversionType → ℕ → MaybeDtcOutcome
new_loss ct distance = bit_or (loss_bits ct) (shl3 distance)

unfoldable pub new_unknown : ℕ → MaybeDtcOutcome
new_unknown counter = shl3 counter

unfoldable pub to_outcome_at : MaybeDtcOutcome → ℕ → EgtResult DtcOutcome
to_outcome_at v index =
    let n = v / 2 ^ 3 in
    let tag = bit_and v 7 in
    if tag == 1
    then ok draw
    else if tag == 2
    then ok (win checkmate n)
    else if tag == 4
    then ok (win capture n)
    else if tag == 6
    then ok (win promotion n)
    else if tag == 3
    then ok (loss checkmate n)
    else if tag == 5
    then ok (loss capture n)
    else if tag == 7
    then ok (loss promotion n)
    else err (corrupted_outcome v index)
