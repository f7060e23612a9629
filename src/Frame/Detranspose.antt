-- ===== src/Frame/Detranspose.antt =====
-- `detranspose_frame` undoes `transpose_frame` on the words that a finished table holds,
-- src/egt_file.rs.
use mathlib.Core.List.{append_assoc}
use chess_egt.Common.{
  ℕ, suc, ◌+◌, ◌*◌, ◌%◌, ◌^◌, ◌≤◌, ◌<◌, ◌≡◌, ◌≢◌, refl, ap, ◌∙◌, sym, List, [], ◌∷◌, ◌++◌, true,
  false, Bool-cases, some, inl, inr, length, set, get_elem?, replicate, length-append, length-map,
  set-append, get_elem?-append, arith,
}
use chess_egt.Outcome.{
  ConversionType, promotion, capture, checkmate, invalid_word, draw_word, new_win, new_loss,
}
use chess_egt.Outcome.Word.{new_win_lem, new_loss_lem}
use chess_egt.Frame.{is_short, high_byte, transpose_frame, detranspose_loop, detranspose_frame}
use chess_egt.Frame.Transpose.{lows, highs, transpose_frame_lem}

-- A u16 word that is invalid_word or draw_word, or whose low byte is neither 0 nor 1.
abbrev pub IsStorable : ℕ → Type 0
IsStorable v = (v < 2 ^ 16) × (is_short v ≡ is_short (v % 2 ^ 8))

abbrev AllStorable : List ℕ → Type 0
AllStorable [] = Unit
AllStorable (v ∷ vs) = IsStorable v × AllStorable vs

whole : (v : ℕ) → v < 2 ^ 16 → v % 2 ^ 8 + high_byte v * 2 ^ 8 ≡ v
whole v h = omega arith

short_word : (v : ℕ) → is_short v ≡ true → v % 2 ^ 8 ≡ v
short_word v h = ground arith

short_round :
    (t : List ℕ) (left i j : ℕ) (out : List ℕ) (b : ℕ)
    → get_elem? t i ≡ some b
    → is_short b ≡ true
    → detranspose_loop t (suc left) i j out ≡ detranspose_loop t left (i + 1) j (set out i b)
unfolding detranspose_loop
short_round t left i j out b e s = rw (e, s)

long_round :
    (t : List ℕ) (left i j : ℕ) (out : List ℕ) (b h : ℕ)
    → get_elem? t i ≡ some b
    → is_short b ≡ false
    → get_elem? t j ≡ some h
    → detranspose_loop t (suc left) i j out
      ≡ detranspose_loop t left (i + 1) (j + 1) (set out i (b + h * 2 ^ 8))
unfolding detranspose_loop
long_round t left i j out b h e s e' = rw (e, s, e')

-- One word is written behind those that are out.
write_word :
    (out : List ℕ) (n i v : ℕ)
    → i ≡ length out
    → set (out ++ replicate (suc n) 0) i v ≡ (out ++ v ∷ []) ++ replicate n 0
write_word out n i v e =
    rw e (set-append out 0 v (replicate n 0) ∙ sym (append_assoc out (v ∷ []) (replicate n 0)))

-- The loop at a round: the words before are out, and the rest of the frame is still to read.
detranspose_loop_lem :
    (t vals before after rest out : List ℕ) (i j : ℕ)
    → t ≡ before ++ (lows vals ++ (after ++ (highs vals ++ rest)))
    → i ≡ length before
    → j ≡ length before + length vals + length after
    → length out ≡ length before
    → AllStorable vals
    → detranspose_loop t (length vals) i j (out ++ replicate (length vals) 0) ≡ some (out ++ vals)
detranspose_loop_lem t [] before after rest out i j et ei ej eo s = unfold detranspose_loop in refl
detranspose_loop_lem t (v ∷ vals) before after rest out i j et ei ej eo s =
    let b = v % 2 ^ 8 in
    let n = length vals in
    let size = length-append {0} before (b ∷ []) in
    let size' = length-append {0} out (v ∷ []) in
    let regrouped = ap some (append_assoc out (v ∷ []) vals) in
    let written = write_word out n i v (omega arith) in
    let read : (behind : List ℕ) → t ≡ before ++ (b ∷ behind) → get_elem? t i ≡ some b =
      λ behind e. rw (e, ei) (get_elem?-append before b behind) in
    elim (Bool-cases (is_short v)) [
      | inl sh ↦
          let et' : t ≡ before ++ (b ∷ (lows vals ++ (after ++ (highs vals ++ rest)))) =
            rw sh at et in
          let ih =
            detranspose_loop_lem t vals (before ++ b ∷ []) after rest (out ++ v ∷ []) (i + 1) j
              (et' ∙ sym (append_assoc before (b ∷ []) _)) (omega arith) (omega arith) (omega arith)
              s.1 in
          short_round t n i j _ b (read _ et') (sym s.0.1 ∙ sh)
          ∙ rw (short_word v sh, written) (ih ∙ regrouped)
      | inr l ↦
          let h = high_byte v in
          let et' : t ≡ before ++ (b ∷ (lows vals ++ (after ++ (h ∷ (highs vals ++ rest))))) =
            rw l at et in
          let front = before ++ (b ∷ (lows vals ++ after)) in
          let shape : t ≡ front ++ (h ∷ (highs vals ++ rest)) = et' ∙ simp append_assoc in
          let len : j ≡ length front = omega (
            arith,
            length-append {0} before (b ∷ (lows vals ++ after)),
            length-append {0} (lows vals) after,
            length-map {0, 0} vals (λ (w : ℕ). w % 2 ^ 8),
          ) in
          let high : get_elem? t j ≡ some h =
            rw (shape, len) (get_elem?-append front h (highs vals ++ rest)) in
          let ih =
            detranspose_loop_lem t vals (before ++ b ∷ []) (after ++ h ∷ []) rest (out ++ v ∷ [])
              (i + 1) (j + 1) (et' ∙ simp append_assoc) (omega arith)
              (omega (arith, length-append {0} after (h ∷ []))) (omega arith) s.1 in
          long_round t n i j _ b h (read _ et') (sym s.0.1 ∙ l) high
          ∙ rw (whole v s.0.0, written) (ih ∙ regrouped)
    ]

-- A frame of storable words is read back from its transposed form word for word: no read is out of
-- range and no word changes.
pub detranspose_frame-transpose_frame :
    (vals : List ℕ)
    → AllStorable vals
    → detranspose_frame (transpose_frame vals) (length vals) ≡ some vals
unfolding detranspose_frame
detranspose_frame-transpose_frame vals s =
    detranspose_loop_lem (transpose_frame vals) vals [] [] _ [] 0 (length vals)
      (transpose_frame_lem vals) refl (omega arith) refl s

new_win-IsStorable : (ct : ConversionType) (d : ℕ) → IsStorable (new_win ct d)
new_win-IsStorable checkmate d = ground (arith, new_win_lem checkmate d)
new_win-IsStorable capture d = ground (arith, new_win_lem capture d)
new_win-IsStorable promotion d = ground (arith, new_win_lem promotion d)

new_loss-IsStorable : (ct : ConversionType) (d : ℕ) → IsStorable (new_loss ct d)
new_loss-IsStorable checkmate d = ground (arith, new_loss_lem checkmate d)
new_loss-IsStorable capture d = ground (arith, new_loss_lem capture d)
new_loss-IsStorable promotion d = ground (arith, new_loss_lem promotion d)

one_word : (b h : ℕ) → is_short b ≡ true → detranspose_frame (b ∷ h ∷ []) 1 ≡ some (b ∷ [])
unfolding detranspose_frame
one_word b h s = short_round (b ∷ h ∷ []) 0 0 1 (0 ∷ []) b refl s

-- What a finished table holds is storable: invalid_word, draw_word, and every packed win and loss.
pub finished_words-IsStorable :
    (ct : ConversionType) (d : ℕ)
    → IsStorable invalid_word
      × IsStorable draw_word
      × IsStorable (new_win ct d)
      × IsStorable (new_loss ct d)
finished_words-IsStorable ct d =
    ((omega arith, refl), (omega arith, refl), new_win-IsStorable ct d, new_loss-IsStorable ct d)

-- A u16 word above 1 whose low byte is 0 or 1 is not read back: only its low byte is.
pub detranspose_frame_loses_word :
    (v : ℕ)
    → v < 2 ^ 16
    → 1 < v
    → v % 2 ^ 8 ≤ 1
    → (detranspose_frame (transpose_frame (v ∷ [])) 1 ≡ some (v % 2 ^ 8 ∷ []))
      × (detranspose_frame (transpose_frame (v ∷ [])) 1 ≢ some (v ∷ []))
detranspose_frame_loses_word v h big low =
    let long : is_short v ≡ false = ground arith in
    let bytes : transpose_frame (v ∷ []) ≡ v % 2 ^ 8 ∷ high_byte v ∷ [] =
      transpose_frame_lem (v ∷ []) ∙ rw long refl in
    let read : detranspose_frame (transpose_frame (v ∷ [])) 1 ≡ some (v % 2 ^ 8 ∷ []) =
      rw bytes (one_word (v % 2 ^ 8) (high_byte v) (ground arith)) in
    (read, λ e. absurd (ground arith))
