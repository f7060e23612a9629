-- ===== src/Retrograde/Solver/Start/Value.antt =====
-- The initial value that conversions and a move counter call for, in `initialize_table` of src/retrograde.rs.
use chess_egt.Common.{
  ℕ, ◌+◌, ◌-◌, ◌*◌, ◌%◌, ◌^◌, ◌≤◌, ◌<◌, ◌≡◌, refl, ap, false, List, [], ◌∷◌, none, some, ◌⊎◌, inl,
  inr, length, ◌==◌, arith, Bool-cases, Option-cases, dec_lt,
}
use chess_egt.Outcome.{
  ConversionType, ct_rank, MaybeDtcOutcome, is_win, is_loss, new_win, new_loss, new_unknown,
}
use chess_egt.Retrograde.{loss_rank}
use chess_egt.Retrograde.Solver.Rules.{
  Chess, returns, u16_length, adjusts, count_moves, symmetry_adjusted_move_counter,
  kings_on_long_diagonal,
}
use chess_egt.Retrograde.Solver.Start.{Conversions, Chunk, initial_value, add_win, add_loss}
use chess_egt.Retrograde.Solver.Start.Convert.{
  IsTop, IsTopOf, Conversion, winning, losing, convert_all, win_conv-convert_all,
  loss_conv-convert_all, counter-convert_all,
}

-- The value that the conversions and the number of moves call for: a win by the preferred winning
-- conversion; without one, a loss by the preferred losing conversion if all moves are of that kind;
-- otherwise unknown, with the moves that are left.
abbrev pub Justified : List Conversion → ℕ → MaybeDtcOutcome → Type 0
Justified list n w =
    ((ct : ConversionType) × IsTop ct_rank ct (winning list) × (w ≡ new_win ct 1))
    ⊎ ((winning list ≡ [])
        × (length (losing list) ≡ n)
        × ((ct : ConversionType) × IsTop loss_rank ct (losing list) × (w ≡ new_loss ct 1)))
    ⊎ ((winning list ≡ [])
        × (length (losing list) < n)
        × (w ≡ new_unknown (n - length (losing list))))

abbrev pub Valued : List Conversion → ℕ → Chunk → Conversions → Type 0
Valued list n c v =
    (w : MaybeDtcOutcome) × (c' : Chunk) × (initial_value c v ≡ returns (w, c'))
    × Justified list n w

Valued-by_win :
    (list : List Conversion) (n : ℕ) (c : Chunk) (v : Conversions) (ct : ConversionType)
    → v.win_conv ≡ some ct
    → IsTop ct_rank ct (winning list)
    → Valued list n c v
unfolding initial_value
Valued-by_win list n c v ct e top = (new_win ct 1, add_win c ct, rw e refl, inl (ct, top, refl))

Valued-by_loss :
    (list : List Conversion) (n : ℕ) (c : Chunk) (v : Conversions) (ct : ConversionType)
    → v.win_conv ≡ none
    → winning list ≡ []
    → v.counter ≡ 0
    → length (losing list) ≡ n
    → v.loss_conv ≡ some ct
    → IsTop loss_rank ct (losing list)
    → Valued list n c v
unfolding initial_value
Valued-by_loss list n c v ct e none_won z all el top =
    (new_loss ct 1, add_loss c, rw (e, z, el) refl, inr (inl (none_won, all, (ct, top, refl))))

Valued-unknown :
    (list : List Conversion) (n : ℕ) (c : Chunk) (v : Conversions)
    → v.win_conv ≡ none
    → winning list ≡ []
    → v.counter ≡ n - length (losing list)
    → length (losing list) < n
    → Valued list n c v
unfolding initial_value
Valued-unknown list n c v e none_won left more =
    let test : (n - length (losing list) == 0) ≡ false = ground (arith, more) in
    (
      new_unknown (n - length (losing list)),
      c,
      rw (e, left, test) refl,
      inr (inr (none_won, more, refl)),
    )

Valued-without_win :
    (list : List Conversion) (n : ℕ) (c : Chunk) (v : Conversions)
    → 0 < n
    → length (losing list) ≤ n
    → v.counter ≡ n - length (losing list)
    → v.win_conv ≡ none
    → winning list ≡ []
    → IsTopOf loss_rank v.loss_conv (losing list)
    → Valued list n c v
Valued-without_win list n c v p le left e none_won top = elim (dec_lt (length (losing list)) n) [
  | yes more ↦ Valued-unknown list n c v e none_won left more
  | no all ↦ elim (Option-cases v.loss_conv) [
    | inl el ↦ let empty = ap length (rw el at top) in absurd (omega (arith, empty, p, all))
    | inr (ct, el) ↦
        Valued-by_loss list n c v ct e none_won (omega (arith, left, all)) (omega (arith, le, all))
          el (rw el at top)
  ]
]

pub convert_all-Valued :
    (list : List Conversion) (n : ℕ) (c : Chunk)
    → 0 < n
    → n < 2 ^ 16
    → length (losing list) ≤ n
    → Valued list n c (convert_all list (record { counter = n; win_conv = none; loss_conv = none }))
convert_all-Valued list n c p h le =
    let start : Conversions = record { counter = n; win_conv = none; loss_conv = none } in
    let v = convert_all list start in
    let won = win_conv-convert_all list start in
    elim (Option-cases v.win_conv) [
      | inl e ↦
          Valued-without_win list n c v p le (counter-convert_all list start le h) e (rw e at won)
            (loss_conv-convert_all list start)
      | inr (ct, e) ↦ Valued-by_win list n c v ct e (rw e at won)
    ]

pub length-losing : (list : List Conversion) → length (losing list) ≤ length list
length-losing [] = omega arith
length-losing ((ct, v) ∷ rest) = elim (Bool-cases (is_loss v)) [
  | inl l ↦ rw l (omega (arith, length-losing rest))
  | inr l ↦ elim (Bool-cases (is_win v)) [
    | inl w ↦ rw (l, w) (omega (arith, length-losing rest))
    | inr w ↦ rw (l, w) (omega (arith, length-losing rest))
  ]
]

module _ (chess : Chess) where
  pub u16_length_lem : (ms : List chess.Move) → length ms < 2 ^ 16 → u16_length chess ms ≡ length ms
  u16_length_lem [] h = refl
  u16_length_lem (m ∷ ms) h = omega (arith, u16_length_lem ms (omega (arith, h)), h)

  count_moves_bounds :
      (kings : List ℕ) (ms : List chess.Move) (c : ℕ)
      → c + 2 * length ms < 2 ^ 16
      → (c + length ms ≤ count_moves chess kings ms c)
        × (count_moves chess kings ms c ≤ c + 2 * length ms)
  count_moves_bounds kings [] c h = (omega arith, omega arith)
  count_moves_bounds kings (m ∷ ms) c h = elim (Bool-cases (adjusts chess kings m)) [
    | inl t ↦
        let e : (c + 2) % 2 ^ 16 ≡ c + 2 = omega (arith, h) in
        let (low, high) = count_moves_bounds kings ms (c + 2) (omega (arith, h)) in
        rw (t, e) (omega (arith, low), omega (arith, high))
    | inr f ↦
        let e : (c + 1) % 2 ^ 16 ≡ c + 1 = omega (arith, h) in
        let (low, high) = count_moves_bounds kings ms (c + 1) (omega (arith, h)) in
        rw (f, e) (omega (arith, low), omega (arith, high))
  ]

  pub symmetry_adjusted_move_counter_bounds :
      (position : chess.Position) (ms : List chess.Move)
      → 2 * length ms < 2 ^ 16
      → (length ms ≤ symmetry_adjusted_move_counter chess position ms)
        × (symmetry_adjusted_move_counter chess position ms ≤ 2 * length ms)
  unfolding symmetry_adjusted_move_counter
  symmetry_adjusted_move_counter_bounds position ms h =
      let same = u16_length_lem ms (omega (arith, h)) in
      let (low, high) = count_moves_bounds (chess.kings position) ms 0 (omega (arith, h)) in
      elim (Bool-cases (kings_on_long_diagonal (chess.kings position))) [
        | inl t ↦ rw t (omega (arith, same), omega (arith, same))
        | inr f ↦ rw f (omega (arith, low), omega (arith, high))
      ]
