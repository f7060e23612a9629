-- ===== src/Verify/Block.antt =====
-- What `verify_block` of src/lib.rs checks.
use Prim.Native.String.{String}
use chess_egt.Common.{
  ℕ, ◌+◌, ◌≡◌, refl, true, false, List, [], ◌∷◌, Option, none, some, inl, inr, Bool-cases,
  if◌then◌else◌, EgtResult, ok, err, ◌>>=◌, ◌>>◌, arith,
}
use chess_egt.Outcome.{
  checkmate, DtcOutcome, win, draw, loss, MaybeDtcOutcome, is_invalid, to_outcome_at,
}
use chess_egt.Outcome.Order.{ct_rank_injective}
use chess_egt.Retrograde.Solver.Rules.{Chess}
use chess_egt.Verify.{
  Texts, same_outcome, best_outcome, expect, verify_outcome, verify_decoded, verify_cells,
  verify_block,
}
use chess_egt.Verify.Best.{Reached, NoneGreater, best_outcome_lem}

same_outcome_lem : (a b : DtcOutcome) → same_outcome a b ≡ true → a ≡ b
same_outcome_lem (win a n) (win b m) e = ground (arith, ct_rank_injective a b)
same_outcome_lem draw draw e = refl
same_outcome_lem (loss a n) (loss b m) e = ground (arith, ct_rank_injective a b)
same_outcome_lem (win a n) draw e = cc
same_outcome_lem (win a n) (loss b m) e = cc
same_outcome_lem draw (win b m) e = cc
same_outcome_lem draw (loss b m) e = cc
same_outcome_lem (loss a n) (win b m) e = cc
same_outcome_lem (loss a n) draw e = cc

bind-ok :
    {A B : Type 0} (x : EgtResult A) (f : A → EgtResult B) (b : B)
    → (x >>= f) ≡ ok b
    → (a : A) × (x ≡ ok a) × (f a ≡ ok b)
bind-ok (ok a) f b e = (a, refl, e)
bind-ok (err r) f b e = cc

both-ok : (x y : EgtResult (Unit {0})) → (x >> y) ≡ ok tt → (x ≡ ok tt) × (y ≡ ok tt)
both-ok (ok u) y e = (refl, e)
both-ok (err r) y e = cc

module _ (chess : Chess) (probe_outcome : chess.Position → EgtResult DtcOutcome)
    (endgame tablename : String) (position_from_index : ℕ → Option chess.Position)
    (texts : Texts chess) where
  -- The outcome of a position by its moves.
  abbrev pub IsValue : chess.Position → List chess.Move → DtcOutcome → Type 0
  IsValue position [] outcome =
      outcome ≡ (if chess.is_check position then loss checkmate 0 else draw)
  IsValue position (m ∷ ms) outcome =
      Reached chess probe_outcome position (m ∷ ms) outcome
      × NoneGreater chess probe_outcome position (m ∷ ms) outcome

  -- A word at an index: invalid just where no position is, and otherwise the value of the position.
  abbrev pub Consistent : ℕ → MaybeDtcOutcome → Option chess.Position → Type 0
  Consistent local_idx v none = is_invalid v ≡ true
  Consistent local_idx v (some position) =
      (is_invalid v ≡ false)
      × ((outcome : DtcOutcome) × (to_outcome_at v local_idx ≡ ok outcome)
          × IsValue position (chess.legal_moves position) outcome)

  abbrev pub AllConsistent : ℕ → List MaybeDtcOutcome → Type 0
  AllConsistent local_idx [] = Unit
  AllConsistent local_idx (v ∷ vs) =
      Consistent local_idx v (position_from_index local_idx) × AllConsistent (local_idx + 1) vs

  expect_lem :
      (local_idx : ℕ) (reason : String) (outcome expected : DtcOutcome)
      → expect chess probe_outcome endgame tablename position_from_index texts local_idx reason
          outcome expected
        ≡ ok tt
      → outcome ≡ expected
  expect_lem local_idx reason outcome expected e =
      elim (Bool-cases (same_outcome outcome expected)) [
        | inl t ↦ same_outcome_lem outcome expected t
        | inr f ↦ let e' = rw f at e in cc
      ]

  verify_outcome_lem :
      (local_idx : ℕ) (position : chess.Position) (legals : List chess.Move) (outcome : DtcOutcome)
      → verify_outcome chess probe_outcome endgame tablename position_from_index texts local_idx
          position legals outcome
        ≡ ok tt
      → IsValue position legals outcome
  verify_outcome_lem local_idx position [] outcome e = elim (Bool-cases (chess.is_check position)) [
    | inl t ↦ let e' = rw t at e in rw t (expect_lem local_idx _ outcome (loss checkmate 0) e')
    | inr f ↦ let e' = rw f at e in rw f (expect_lem local_idx _ outcome draw e')
  ]
  verify_outcome_lem local_idx position (m ∷ ms) outcome e =
      let (best, found, expected) =
        bind-ok (best_outcome chess probe_outcome position (m ∷ ms)) _ tt e in
      let same = expect_lem local_idx _ outcome best expected in
      rw same (best_outcome_lem chess probe_outcome position (m ∷ ms) best found)

  verify_decoded_lem :
      (local_idx : ℕ) (v : MaybeDtcOutcome) (decoded : Option chess.Position)
      → verify_decoded chess probe_outcome endgame tablename position_from_index texts local_idx v
          decoded
        ≡ ok tt
      → Consistent local_idx v decoded
  verify_decoded_lem local_idx v none e = elim (Bool-cases (is_invalid v)) [
    | inl t ↦ t
    | inr f ↦ let e' = rw f at e in cc
  ]
  verify_decoded_lem local_idx v (some position) e = elim (Bool-cases (is_invalid v)) [
    | inl t ↦ let e' = rw t at e in cc
    | inr f ↦
        let e' = rw f at e in
        let (outcome, unpacked, checked) = bind-ok (to_outcome_at v local_idx) _ tt e' in
        (
          f,
          (
            outcome,
            unpacked,
            verify_outcome_lem local_idx position (chess.legal_moves position) outcome checked,
          ),
        )
  ]

  verify_cells_lem :
      (local_idx : ℕ) (words : List MaybeDtcOutcome)
      → verify_cells chess probe_outcome endgame tablename position_from_index texts local_idx words
        ≡ ok tt
      → AllConsistent local_idx words
  unfolding verify_cells
  verify_cells_lem local_idx [] e = tt
  verify_cells_lem local_idx (v ∷ vs) e =
      let (here, rest) = both-ok _ _ e in
      (
        verify_decoded_lem local_idx v (position_from_index local_idx) here,
        verify_cells_lem (local_idx + 1) vs rest,
      )

  -- When `verify_block` accepts a block, each of its words is as the game says: invalid just where
  -- the index has no position; else it unpacks to a loss at ply 0 in checkmate, to a draw in
  -- stalemate, and otherwise to the value of a move that no other move exceeds.
  pub verify_block_lem :
      (read_chunk : ℕ → ℕ → EgtResult (List MaybeDtcOutcome)) (start end : ℕ)
      → verify_block chess probe_outcome endgame tablename position_from_index texts read_chunk
          start end
        ≡ ok tt
      → (words : List MaybeDtcOutcome) × (read_chunk start end ≡ ok words)
        × AllConsistent start words
  unfolding verify_block
  verify_block_lem read_chunk start end e =
      let (words, found, checked) = bind-ok (read_chunk start end) _ tt e in
      (words, found, verify_cells_lem start words checked)
