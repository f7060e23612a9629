-- ===== src/Retrograde/Solver/Start/Position.antt =====
-- What `initialize_table` of src/retrograde.rs makes of a position: the probes of its conversions,
-- and the value.
use chess_egt.Common.{
  ◌*◌, ◌^◌, ◌≤◌, ◌<◌, ◌≡◌, refl, true, false, List, [], ◌∷◌, none, inl, inr, length, if◌then◌else◌,
  EgtError, EgtResult, ok, err, EgtResult-cases, ◌>>=◌, arith, Bool-cases,
}
use chess_egt.Outcome.{
  ConversionType, promotion, capture, checkmate, draw_word, MaybeDtcOutcome, is_conversion,
  new_loss,
}
use chess_egt.Retrograde.Solver.Rules.{Chess, Egt, returns, fails}
use chess_egt.Retrograde.Solver.Start.{
  Conversions, Chunk, conversions, first_counter, position_value, convert, no_moves,
}
use chess_egt.Retrograde.Solver.Start.Convert.{Conversion, convert_all}
use chess_egt.Retrograde.Solver.Start.Value.{
  Justified, convert_all-Valued, length-losing, symmetry_adjusted_move_counter_bounds,
  u16_length_lem,
}

module _ (chess : Chess) (egt : Egt chess)
    (probe : chess.Position → EgtResult MaybeDtcOutcome) where
  first_counter_bounds :
      (position : chess.Position) (ms : List chess.Move)
      → 2 * length ms < 2 ^ 16
      → (length ms ≤ first_counter chess egt probe position ms)
        × (first_counter chess egt probe position ms ≤ 2 * length ms)
  first_counter_bounds position ms h = elim (Bool-cases egt.is_pawnless) [
    | inl t ↦ rw t (symmetry_adjusted_move_counter_bounds chess position ms h)
    | inr f ↦
        let same = u16_length_lem chess ms (omega (arith, h)) in
        rw f (omega (arith, same), omega (arith, same))
  ]

  abbrev type_of : chess.Move → ConversionType
  type_of m = if (chess.kind m).is_capture then capture else promotion

  -- The conversions among the moves, each with the outcome that its probe gives; the error of the
  -- first probe that fails.
  abbrev pub probes : chess.Position → List chess.Move → EgtResult (List Conversion)
  probes position [] = ok []
  probes position (m ∷ ms) =
      let rest = probes position ms in
      if is_conversion (chess.kind m)
      then probe (chess.play_unchecked position m)
        >>= (λ v. rest >>= (λ list. ok ((type_of m, v) ∷ list)))
      else rest

  length-probes :
      (position : chess.Position) (ms : List chess.Move) (list : List Conversion)
      → probes position ms ≡ ok list
      → length list ≤ length ms
  length-probes position [] list e = let same : [] ≡ list = cc in rw (← same) (omega arith)
  length-probes position (m ∷ ms) list e = elim (Bool-cases (is_conversion (chess.kind m))) [
    | inr f ↦ let e' = rw f at e in omega (arith, length-probes position ms list e')
    | inl t ↦ elim (EgtResult-cases (probe (chess.play_unchecked position m))) [
      | inr (x, bad) ↦ let e' = rw (t, bad) at e in cc
      | inl (v, good) ↦ elim (EgtResult-cases (probes position ms)) [
        | inr (x, bad) ↦ let e' = rw (t, good, bad) at e in cc
        | inl (rest, fine) ↦
            let e' = rw (t, good, fine) at e in
            let same : (type_of m, v) ∷ rest ≡ list = cc in
            rw (← same) (omega (arith, length-probes position ms rest fine))
      ]
    ]
  ]

  conversions-probes :
      (position : chess.Position) (ms : List chess.Move) (c : Conversions)
      → conversions chess egt probe position ms c
        ≡ (probes position ms >>= (λ list. ok (convert_all list c)))
  unfolding conversions
  conversions-probes position [] c = refl
  conversions-probes position (m ∷ ms) c = elim (Bool-cases (is_conversion (chess.kind m))) [
    | inr f ↦ rw (conversions, f) (conversions-probes position ms c)
    | inl t ↦ elim (EgtResult-cases (probe (chess.play_unchecked position m))) [
      | inr (x, bad) ↦ rw (conversions, t, bad) refl
      | inl (v, good) ↦ elim (EgtResult-cases (probes position ms)) [
        | inr (x, bad) ↦
            let ih = conversions-probes position ms (convert (type_of m) v c) in
            let ih' = rw bad at ih in rw (conversions, t, good, bad) ih'
        | inl (rest, fine) ↦
            let ih = conversions-probes position ms (convert (type_of m) v c) in
            let ih' = rw fine at ih in rw (conversions, t, good, fine) ih'
      ]
    ]
  ]

  -- What the value of a position should be.
  abbrev pub CalledFor :
      chess.Position → List chess.Move → List Conversion → MaybeDtcOutcome → Type 0
  CalledFor position [] list w =
      w ≡ (if chess.is_check position then new_loss checkmate 0 else draw_word)
  CalledFor position (m ∷ ms) list w =
      Justified list (first_counter chess egt probe position (m ∷ ms)) w

  abbrev pub Settled :
      chess.Position → List chess.Move → Chunk → EgtResult (List Conversion) → Type 0
  Settled position ms c (ok list) =
      (w : MaybeDtcOutcome) × (c' : Chunk) × (position_value chess egt probe position ms c
        ≡ returns (w, c'))
      × CalledFor position ms list w
  Settled position ms c (err e) = position_value chess egt probe position ms c ≡ fails e

  position_value-Settled :
      (position : chess.Position) (m : chess.Move) (ms : List chess.Move) (list : List Conversion)
      (c : Chunk)
      → length (m ∷ ms) < 4096
      → probes position (m ∷ ms) ≡ ok list
      → Settled position (m ∷ ms) c (ok list)
  position_value-Settled position m ms list c h p =
      let n = first_counter chess egt probe position (m ∷ ms) in
      let start : Conversions = record { counter = n; win_conv = none; loss_conv = none } in
      let (low, high) = first_counter_bounds position (m ∷ ms) (omega (arith, h)) in
      let few = length-probes position (m ∷ ms) list p in
      let (w, c', e, j) =
        convert_all-Valued list n c (omega (arith, low)) (omega (arith, high, h))
          (omega (arith, length-losing list, few, low)) in
      let all = conversions-probes position (m ∷ ms) start in
      let all' = rw p at all in (w, c', rw all' e, j)

  position_value-fails :
      (position : chess.Position) (m : chess.Move) (ms : List chess.Move) (x : EgtError) (c : Chunk)
      → probes position (m ∷ ms) ≡ err x
      → Settled position (m ∷ ms) c (err x)
  position_value-fails position m ms x c p =
      let n = first_counter chess egt probe position (m ∷ ms) in
      let start : Conversions = record { counter = n; win_conv = none; loss_conv = none } in
      let all = conversions-probes position (m ∷ ms) start in let all' = rw p at all in rw all' refl

  no_moves_lem : (position : chess.Position) (c : Chunk) → Settled position [] c (ok [])
  unfolding no_moves
  no_moves_lem position c = elim (Bool-cases (chess.is_check position)) [
    | inl t ↦ (new_loss checkmate 0, (no_moves true c).1, rw t refl, rw t refl)
    | inr f ↦ (draw_word, (no_moves false c).1, rw f refl, rw f refl)
  ]

  -- A position with at most 4095 legal moves never panics. If the probe of one of its conversions
  -- fails, its value is the error of the first that does. Otherwise it is given a value: without
  -- legal moves, a loss by checkmate at ply 0 if the side to move is in check and a draw if not;
  -- with legal moves, the value that the probed conversions and the move counter call for.
  pub position_value_lem :
      (position : chess.Position) (ms : List chess.Move) (c : Chunk)
      → length ms < 4096
      → Settled position ms c (probes position ms)
  position_value_lem position [] c h = no_moves_lem position c
  position_value_lem position (m ∷ ms) c h = elim (EgtResult-cases (probes position (m ∷ ms))) [
    | inl (list, p) ↦ rw p (position_value-Settled position m ms list c h p)
    | inr (x, p) ↦ rw p (position_value-fails position m ms x c p)
  ]
