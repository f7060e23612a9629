-- ===== src/Retrograde/Solver/Start/Bounds.antt =====
-- The bounds that a cell of `initialize_table`, src/retrograde.rs, leaves for its block.
use chess_egt.Common.{
  ℕ, ◌≤◌, ◌<◌, ◌≡◌, refl, sym, ◌∙◌, max, Bool, true, false, List, [], ◌∷◌, Option, none, some, inl,
  inr, length, length-set, get_or, get_or-set_self, get_or-set_cases, set, EgtResult, arith,
  Bool-cases, Option-cases, ◌==◌,
}
use chess_egt.Outcome.{
  ConversionType, checkmate, MaybeDtcOutcome, invalid_word, draw_word, is_win, is_loss, new_win,
  new_loss, new_unknown,
}
use chess_egt.Outcome.Word.{new_win_classes, new_loss_classes, new_unknown_classes}
use chess_egt.Retrograde.{ply, outcome_ct, SummaryKind, loss_kind, win_kind, index, BlockSummary}
use chess_egt.Retrograde.Update.{ply-outcome_ct}
use chess_egt.Retrograde.Summary.{index_lt}
use chess_egt.Retrograde.Solver.Rules.{
  Chess, Egt, Decoded, decoded, rejected, Run, returns, fails, panics, then_run, run,
  InvalidPosition,
}
use chess_egt.Retrograde.Solver.Start.{
  Conversions, Chunk, initial_value, value_at_zero, no_moves, invalid_index, conversions,
  position_value, decoded_value, initialize_cell, add_win, add_loss, first_counter, is_redundant,
}

-- What holds of the result, if there is one.
abbrev pub Holds {ℓ κ} : {A : Type ℓ} → (A → Type κ) → Run A → Type κ
Holds P (returns a) = P a
Holds P (fails e) = Unit
Holds P panics = Unit

pub then_run-Holds {ℓ κ λ' μ} :
    {A : Type ℓ} {B : Type κ} (Q : A → Type λ') (P : B → Type μ) (x : Run A) (f : A → Run B)
    → Holds Q x
    → ((a : A) → Q a → Holds P (f a))
    → Holds P (then_run x f)
then_run-Holds Q P (returns a) f q h = h a q
then_run-Holds Q P (fails e) f q h = tt
then_run-Holds Q P panics f q h = tt

pub always-Holds {ℓ} : {A : Type ℓ} (x : Run A) → Holds (λ a. Unit {0}) x
always-Holds (returns a) = tt
always-Holds (fails e) = tt
always-Holds panics = tt

abbrev pub Four : BlockSummary → Type 0
Four bounds = (length bounds ≡ 4) × ((k : SummaryKind) → get_or bounds (index k) 0 ≤ 2)

abbrev pub Grows : BlockSummary → BlockSummary → Type 0
Grows a b = (k : SummaryKind) → get_or a (index k) 0 ≤ get_or b (index k) 0

abbrev pub CoveredBy : BlockSummary → MaybeDtcOutcome → Type 0
CoveredBy bounds v =
    (is_loss v ≡ true → ply v < get_or bounds (index loss_kind) 0)
    × (is_win v ≡ true → ply v < get_or bounds (index (win_kind (outcome_ct v))) 0)

pub CoveredBy-Grows :
    (a b : BlockSummary) (v : MaybeDtcOutcome) → Grows a b → CoveredBy a v → CoveredBy b v
CoveredBy-Grows a b v g (l, w) =
    (λ e. omega (arith, l e, g loss_kind), λ e. omega (arith, w e, g (win_kind (outcome_ct v))))

pub neither-CoveredBy :
    (bounds : BlockSummary) (v : MaybeDtcOutcome)
    → is_loss v ≡ false
    → is_win v ≡ false
    → CoveredBy bounds v
neither-CoveredBy bounds v l w = (
  λ e. absurd (let x : true ≡ false = sym e ∙ l in cc),
  λ e. absurd (let x : true ≡ false = sym e ∙ w in cc),
)

-- What a cell leaves of the chunk, with its value.
abbrev pub Kept : Chunk → MaybeDtcOutcome × Chunk → Type 0
Kept c (v, c') =
    Four c.ply_bounds
    → Four c'.ply_bounds × Grows c.ply_bounds c'.ply_bounds × CoveredBy c'.ply_bounds v

set-Four :
    (bounds : BlockSummary) (k : SummaryKind) (n : ℕ)
    → Four bounds
    → n ≤ 2
    → get_or bounds (index k) 0 ≤ n
    → Four (set bounds (index k) n)
      × Grows bounds (set bounds (index k) n)
      × (get_or (set bounds (index k) n) (index k) 0 ≡ n)
set-Four bounds k n (l, small) h above = (
  (
    length-set bounds (index k) n ∙ l,
    λ k'. elim (get_or-set_cases bounds (index k) (index k') n 0) [
      | inl e ↦ rw e (small k')
      | inr (same, inside, e) ↦ rw e h
    ],
  ),
  λ k'. elim (get_or-set_cases bounds (index k) (index k') n 0) [
    | inl e ↦ rw e (omega arith)
    | inr (same, inside, e) ↦ rw (e, sym same) above
  ],
  get_or-set_self bounds (index k) n 0 (omega (arith, l, index_lt k)),
)

unchanged-Kept :
    (c c' : Chunk) (v : MaybeDtcOutcome)
    → c'.ply_bounds ≡ c.ply_bounds
    → is_loss v ≡ false
    → is_win v ≡ false
    → Kept c (v, c')
unchanged-Kept c c' v e l w four =
    (rw e four, rw e (λ k. omega arith), neither-CoveredBy c'.ply_bounds v l w)

win-Kept :
    (c c' : Chunk) (ct : ConversionType)
    → c'.ply_bounds ≡ set c.ply_bounds (index (win_kind ct)) 2
    → Kept c (new_win ct 1, c')
win-Kept c c' ct e four =
    let (four', grows, at) =
      set-Four c.ply_bounds (win_kind ct) 2 four (omega arith) (four.1 (win_kind ct)) in
    let (p, kind, q, d) = ply-outcome_ct ct 1 in
    rw e (
      four',
      grows,
      (
        λ l. absurd (let x : true ≡ false = sym l ∙ (new_win_classes ct 1).2 in cc),
        λ l. rw kind (omega (arith, p, at)),
      ),
    )

loss-Kept :
    (c c' : Chunk) (ct : ConversionType) (n : ℕ) (bound : ℕ)
    → n < bound
    → bound ≤ 2
    → get_or c.ply_bounds 0 0 ≤ bound
    → c'.ply_bounds ≡ set c.ply_bounds (index loss_kind) bound
    → Kept c (new_loss ct n, c')
loss-Kept c c' ct n bound lt small above e four =
    let (four', grows, at) = set-Four c.ply_bounds loss_kind bound four small above in
    let (p, d, q, kind) = ply-outcome_ct ct n in
    rw e (
      four',
      grows,
      (
        λ l. omega (arith, q, at, lt, small),
        λ l. absurd (let x : true ≡ false = sym l ∙ (new_loss_classes ct n).1 in cc),
      ),
    )

value_at_zero-Kept : (c : Chunk) (o : Option ConversionType) → Holds (Kept c) (value_at_zero c o)
value_at_zero-Kept c none = tt
value_at_zero-Kept c (some ct) =
    λ four. loss-Kept c (add_loss c) ct 1 2 (omega arith) (omega arith) (four.1 loss_kind) refl four

initial_value-Kept : (c : Chunk) (v : Conversions) → Holds (Kept c) (initial_value c v)
unfolding initial_value
initial_value-Kept c v = elim (Option-cases v.win_conv) [
  | inr (ct, e) ↦ rw e (win-Kept c (add_win c ct) ct refl)
  | inl e ↦ elim (Bool-cases (v.counter == 0)) [
    | inl z ↦ rw (e, z) (value_at_zero-Kept c v.loss_conv)
    | inr z ↦
        let (w, l) = new_unknown_classes v.counter in
        rw (e, z) (unchanged-Kept c c (new_unknown v.counter) refl l w)
  ]
]

draw_neither : (is_loss draw_word ≡ false) × (is_win draw_word ≡ false)
unfolding is_loss is_win
draw_neither = (refl, refl)

pub invalid_neither : (is_loss invalid_word ≡ false) × (is_win invalid_word ≡ false)
unfolding is_loss is_win
invalid_neither = (refl, refl)

no_moves-Kept : (check : Bool) (c : Chunk) → Kept c (no_moves check c)
unfolding no_moves
no_moves-Kept true c four =
    let n = max (get_or c.ply_bounds 0 0) 1 in
    let small = four.1 loss_kind in
    loss-Kept c (no_moves true c).1 checkmate 0 n (omega arith) (omega (arith, small)) (omega arith)
      refl four
no_moves-Kept false c four =
    unchanged-Kept c (no_moves false c).1 draw_word refl draw_neither.0 draw_neither.1 four

invalid_index-Kept :
    (redundant : Bool) (reason : InvalidPosition) (c : Chunk)
    → Kept c (invalid_word, invalid_index redundant reason c)
unfolding invalid_index
invalid_index-Kept true reason c =
    unchanged-Kept c c invalid_word refl invalid_neither.0 invalid_neither.1
invalid_index-Kept false reason c =
    unchanged-Kept c (invalid_index false reason c) invalid_word refl invalid_neither.0
      invalid_neither.1

module _ (chess : Chess) (egt : Egt chess)
    (probe : chess.Position → EgtResult MaybeDtcOutcome) where
  position_value-Kept :
      (position : chess.Position) (legals : List chess.Move) (c : Chunk)
      → Holds (Kept c) (position_value chess egt probe position legals c)
  position_value-Kept position [] c = no_moves-Kept (chess.is_check position) c
  position_value-Kept position (m ∷ ms) c =
      let start : Conversions = record {
        counter = first_counter chess egt probe position (m ∷ ms);
        win_conv = none;
        loss_conv = none;
      } in
      let converted = run (conversions chess egt probe position (m ∷ ms) start) in
      then_run-Holds (λ a. Unit {0}) (Kept c) converted (initial_value c) (always-Holds converted)
        (λ v u. initial_value-Kept c v)

  decoded_value-Kept :
      (idx : ℕ) (c : Chunk) (d : Decoded chess)
      → Holds (Kept c) (decoded_value chess egt probe idx c d)
  decoded_value-Kept idx c (rejected reason) =
      invalid_index-Kept (is_redundant idx (egt.diagonal_symmetric idx)) reason c
  decoded_value-Kept idx c (decoded position) =
      position_value-Kept position (chess.legal_moves position) c

  pub initialize_cell-Kept :
      (idx : ℕ) (c : Chunk) → Holds (Kept c) (initialize_cell chess egt probe idx c)
  unfolding initialize_cell
  initialize_cell-Kept idx c =
      let d = run (egt.position_from_index_with_reason idx) in
      then_run-Holds (λ a. Unit {0}) (Kept c) d (decoded_value chess egt probe idx c)
        (always-Holds d) (λ a u. decoded_value-Kept idx c a)
