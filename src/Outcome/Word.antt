-- ===== src/Outcome/Word.antt =====
-- Packing and unpacking of outcome words, src/egt_file.rs.
use chess_egt.Common.{
  refl, ℕ, ◌+◌, ◌*◌, ◌%◌, ◌^◌, ◌<◌, ◌≡◌, ◌↔◌, true, false, not, ◌||◌, ◌&&◌, ◌==◌, bit_and, arith,
  ok, err, corrupted_outcome,
}
use chess_egt.Common.Bits.{bit_and_seven, bit_or-Tags}
use chess_egt.Outcome.{
  ConversionType, promotion, capture, checkmate, DtcOutcome, win, draw, loss, MaybeDtcOutcome,
  draw_word, is_draw, is_assigned, is_invalid, is_unknown, get_unknown_counter, is_win, is_loss,
  new_win, new_loss, new_unknown, to_outcome_at,
}

-- A distance as the shift by three keeps it.
abbrev pub kept : ℕ → ℕ
kept d = d % 2 ^ 13

shl3_lem : (d : ℕ) → d * 2 ^ 3 % 2 ^ 16 ≡ kept d * 8
shl3_lem d = omega arith

pub new_win_lem :
    (ct : ConversionType) (d : ℕ)
    → new_win ct d ≡ kept d * 8 + elim ct [ checkmate ↦ 2 | capture ↦ 4 | promotion ↦ 6 ]
unfolding new_win
new_win_lem checkmate d = rw (shl3_lem d) (bit_or-Tags (kept d)).0
new_win_lem capture d = rw (shl3_lem d) (bit_or-Tags (kept d)).2
new_win_lem promotion d = rw (shl3_lem d) (bit_or-Tags (kept d)).4

pub new_loss_lem :
    (ct : ConversionType) (d : ℕ)
    → new_loss ct d ≡ kept d * 8 + elim ct [ checkmate ↦ 3 | capture ↦ 5 | promotion ↦ 7 ]
unfolding new_loss
new_loss_lem checkmate d = rw (shl3_lem d) (bit_or-Tags (kept d)).1
new_loss_lem capture d = rw (shl3_lem d) (bit_or-Tags (kept d)).3
new_loss_lem promotion d = rw (shl3_lem d) (bit_or-Tags (kept d)).5

-- What is packed is unpacked, with the distance modulo 2 ^ 13.
to_outcome_at-new_win :
    (ct : ConversionType) (d i : ℕ) → to_outcome_at (new_win ct d) i ≡ ok (win ct (kept d))
unfolding to_outcome_at
to_outcome_at-new_win checkmate d i =
    ground (arith, new_win_lem checkmate d, bit_and_seven (new_win checkmate d))
to_outcome_at-new_win capture d i =
    ground (arith, new_win_lem capture d, bit_and_seven (new_win capture d))
to_outcome_at-new_win promotion d i =
    ground (arith, new_win_lem promotion d, bit_and_seven (new_win promotion d))

to_outcome_at-new_loss :
    (ct : ConversionType) (d i : ℕ) → to_outcome_at (new_loss ct d) i ≡ ok (loss ct (kept d))
unfolding to_outcome_at
to_outcome_at-new_loss checkmate d i =
    ground (arith, new_loss_lem checkmate d, bit_and_seven (new_loss checkmate d))
to_outcome_at-new_loss capture d i =
    ground (arith, new_loss_lem capture d, bit_and_seven (new_loss capture d))
to_outcome_at-new_loss promotion d i =
    ground (arith, new_loss_lem promotion d, bit_and_seven (new_loss promotion d))

-- A packed outcome of either side is unpacked to the same conversion type and to the distance
-- modulo 2 ^ 13, hence to itself when the distance is below 2 ^ 13; a draw is unpacked to a draw.
pub unpack-pack :
    (ct : ConversionType) (d i : ℕ)
    → (to_outcome_at (new_win ct d) i ≡ ok (win ct (kept d)))
      × (to_outcome_at (new_loss ct d) i ≡ ok (loss ct (kept d)))
      × (to_outcome_at draw_word i ≡ ok draw)
unfolding to_outcome_at
unpack-pack ct d i =
    (to_outcome_at-new_win ct d i, to_outcome_at-new_loss ct d i, ground (arith, bit_and_seven 1))

-- What a successful unpacking says about the word.
abbrev pub Packs : MaybeDtcOutcome → DtcOutcome → Type 0
Packs v (win ct n) = (v ≡ new_win ct n) × (is_win v ≡ true) × (n < 2 ^ 13)
Packs v draw = (v % 8 ≡ 1) × (is_assigned v ≡ true)
Packs v (loss ct n) = (v ≡ new_loss ct n) × (is_loss v ≡ true) × (n < 2 ^ 13)

-- Packing what a u16 word unpacks to gives the word again: a win or a loss read from a word is
-- packed into that same word, its distance fits thirteen bits, and `is_win` or `is_loss` says so;
-- a draw is read only from words whose low bits are 001.
pub pack-unpack : (v i : ℕ) (o : DtcOutcome) → v < 2 ^ 16 → to_outcome_at v i ≡ ok o → Packs v o
unfolding to_outcome_at is_win is_loss is_assigned
pack-unpack v i (win checkmate n) h e = ground (arith, bit_and_seven v, new_win_lem checkmate n)
pack-unpack v i (win capture n) h e = ground (arith, bit_and_seven v, new_win_lem capture n)
pack-unpack v i (win promotion n) h e = ground (arith, bit_and_seven v, new_win_lem promotion n)
pack-unpack v i draw h e = ground (arith, bit_and_seven v)
pack-unpack v i (loss checkmate n) h e = ground (arith, bit_and_seven v, new_loss_lem checkmate n)
pack-unpack v i (loss capture n) h e = ground (arith, bit_and_seven v, new_loss_lem capture n)
pack-unpack v i (loss promotion n) h e = ground (arith, bit_and_seven v, new_loss_lem promotion n)

-- Every word is invalid, unknown or assigned, and just one of these; unpacking fails exactly on
-- the words that are not assigned, and reports the word and its index; an assigned word with other
-- low bits than 001 is a win or a loss, and not both.
pub word_classes :
    (v i : ℕ)
    → (is_assigned v ≡ not (is_invalid v || is_unknown v))
      × (is_invalid v && is_unknown v ≡ false)
      × ((to_outcome_at v i ≡ err (corrupted_outcome v i)) ↔ (is_assigned v ≡ false))
      × (is_assigned v ≡ (is_win v || is_loss v || bit_and v 7 == 1))
      × (is_win v && is_loss v ≡ false)
unfolding to_outcome_at is_win is_loss is_assigned is_invalid is_unknown
word_classes v i = (
  ground (arith, bit_and_seven v),
  ground (arith, bit_and_seven v),
  ground (arith, bit_and_seven v),
  ground (arith, bit_and_seven v),
  ground (arith, bit_and_seven v),
)

-- The words that `new_win` and `new_loss` build are not unknown and not invalid.
pub new_win_classes :
    (ct : ConversionType) (d : ℕ)
    → (is_unknown (new_win ct d) ≡ false)
      × (is_win (new_win ct d) ≡ true)
      × (is_loss (new_win ct d) ≡ false)
unfolding is_unknown is_win is_loss
new_win_classes checkmate d =
    ground (arith, new_win_lem checkmate d, bit_and_seven (new_win checkmate d))
new_win_classes capture d = ground (arith, new_win_lem capture d, bit_and_seven (new_win capture d))
new_win_classes promotion d =
    ground (arith, new_win_lem promotion d, bit_and_seven (new_win promotion d))

pub new_loss_classes :
    (ct : ConversionType) (d : ℕ)
    → (is_unknown (new_loss ct d) ≡ false)
      × (is_win (new_loss ct d) ≡ false)
      × (is_loss (new_loss ct d) ≡ true)
unfolding is_unknown is_win is_loss
new_loss_classes checkmate d =
    ground (arith, new_loss_lem checkmate d, bit_and_seven (new_loss checkmate d))
new_loss_classes capture d =
    ground (arith, new_loss_lem capture d, bit_and_seven (new_loss capture d))
new_loss_classes promotion d =
    ground (arith, new_loss_lem promotion d, bit_and_seven (new_loss promotion d))

-- A counter from 1 to 2 ^ 13 - 1 is kept by the unknown word.
pub new_unknown_lem :
    (c : ℕ)
    → c < 2 ^ 13
    → (get_unknown_counter (new_unknown c) ≡ c) × (is_unknown (new_unknown c) ≡ not (c == 0))
unfolding new_unknown get_unknown_counter is_unknown
new_unknown_lem c h = (omega arith, ground (arith, bit_and_seven (c * 2 ^ 3 % 2 ^ 16)))

-- An unknown u16 word is its counter, which is from 1 to 2 ^ 13 - 1.
unknown_counter :
    (v : ℕ)
    → v < 2 ^ 16
    → is_unknown v ≡ true
    → (v ≡ new_unknown (get_unknown_counter v))
      × (0 < get_unknown_counter v)
      × (get_unknown_counter v < 2 ^ 13)
unfolding new_unknown get_unknown_counter is_unknown
unknown_counter v h u = ground (arith, bit_and_seven v)

-- An unknown word is no win and no loss, and neither is what `new_unknown` builds.
pub unknown_classes : (v : ℕ) → is_unknown v ≡ true → (is_win v ≡ false) × (is_loss v ≡ false)
unfolding is_unknown is_win is_loss
unknown_classes v u = (ground arith, ground arith)

pub new_unknown_classes :
    (c : ℕ) → (is_win (new_unknown c) ≡ false) × (is_loss (new_unknown c) ≡ false)
unfolding new_unknown is_win is_loss
new_unknown_classes c =
    let tag = bit_and_seven (c * 2 ^ 3 % 2 ^ 16) in (ground (arith, tag), ground (arith, tag))

pub draw_classes : (v : ℕ) → is_draw v ≡ true → (is_win v ≡ false) × (is_loss v ≡ false)
unfolding is_draw is_win is_loss
draw_classes v d = let e : v ≡ 1 = ground (arith, d) in rw e (refl, refl)

pub win_not_loss : (v : ℕ) → is_win v ≡ true → is_loss v ≡ false
unfolding is_win is_loss
win_not_loss v w = ground arith
