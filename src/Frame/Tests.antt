-- ===== src/Frame/Tests.antt =====
-- Runs of the frame transposition, and the theorems on it at concrete inputs.
use chess_egt.Common.{◌≡◌, ◌≢◌, ◌%◌, ◌^◌, refl, [], ◌∷◌, some, none, arith}
use chess_egt.Frame.{transpose_frame, detranspose_frame}
use chess_egt.Frame.Detranspose.{IsStorable}
use chess_egt.Frame.Detranspose

transposed : transpose_frame (76 ∷ 0 ∷ 1 ∷ 0x123 ∷ []) ≡ 76 ∷ 0 ∷ 1 ∷ 0x23 ∷ 0 ∷ 1 ∷ 0 ∷ 0 ∷ []
unfolding transpose_frame
transposed = refl

too_short : detranspose_frame (76 ∷ 0 ∷ []) 3 ≡ none
unfolding detranspose_frame
too_short = refl

detranspose_frame-transpose_frame_example :
    detranspose_frame (transpose_frame (76 ∷ 0 ∷ 1 ∷ [])) 3 ≡ some (76 ∷ 0 ∷ 1 ∷ [])
detranspose_frame-transpose_frame_example =
    Detranspose.detranspose_frame-transpose_frame (76 ∷ 0 ∷ 1 ∷ [])
      ((omega arith, refl), ((omega arith, refl), ((omega arith, refl), tt)))

detranspose_frame_loses_word_example :
    (detranspose_frame (transpose_frame (256 ∷ [])) 1 ≡ some (256 % 2 ^ 8 ∷ []))
    × (detranspose_frame (transpose_frame (256 ∷ [])) 1 ≢ some (256 ∷ []))
detranspose_frame_loses_word_example =
    Detranspose.detranspose_frame_loses_word 256 (omega arith) (omega arith) (omega arith)
