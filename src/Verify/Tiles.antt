-- ===== src/Verify/Tiles.antt =====
-- The blocks of `verify_egt`, src/lib.rs, take each index of the table once.
use chess_egt.Common.{
  append_assoc, ℕ, zero, suc, ◌+◌, ◌-◌, ◌≤◌, ◌<◌, ◌≡◌, refl, sym, ap, ◌∙◌, min, List, [], ◌∷◌, ◌++◌,
  inl, inr, ltb, ltb→lt, Bool-cases, arith, dec_le,
}
use chess_egt.Verify.{step_by, blocks_of, frames_of, verify_blocks}

-- `n` numbers from `start` on
abbrev pub indices : ℕ → ℕ → List ℕ
indices start zero = []
indices start (suc n) = start ∷ indices (start + 1) n

-- The indices that some ranges take, one range after another.
abbrev pub taken : List (ℕ × ℕ) → List ℕ
taken [] = []
taken ((start, end) ∷ blocks) = indices start (end - start) ++ taken blocks

indices-append : (start a b : ℕ) → indices start (a + b) ≡ indices start a ++ indices (start + a) b
indices-append start zero b =
    let here : start + 0 ≡ start = omega arith in
    let all : 0 + b ≡ b = omega arith in rw here (ap (indices start) all)
indices-append start (suc a) b =
    let here : start + suc a ≡ start + 1 + a = omega arith in
    let all : suc a + b ≡ suc (a + b) = omega arith in
    rw (here, all) (ap (◌∷◌ start) (indices-append (start + 1) a b))

taken-append : (a b : List (ℕ × ℕ)) → taken (a ++ b) ≡ taken a ++ taken b
taken-append [] b = refl
taken-append ((start, end) ∷ a) b =
    rw (taken-append a b) (sym (append_assoc (indices start (end - start)) (taken a) (taken b)))

-- A range cut after at most `step` indices.
indices_cut :
    (start end step : ℕ)
    → start < end
    → indices start (min (start + step) end - start)
        ++ indices (start + step) (end - (start + step))
      ≡ indices start (end - start)
indices_cut start end step lt = elim (dec_le (start + step) end) [
  | yes le ↦
      let a : min (start + step) end - start ≡ step = omega (arith, le) in
      let b : end - start ≡ step + (end - (start + step)) = omega (arith, le) in
      rw (a, b) (sym (indices-append start step (end - (start + step))))
  | no gt ↦
      let a : min (start + step) end - start ≡ end - start = omega (arith, gt) in
      let b : end - (start + step) ≡ 0 = omega (arith, gt) in
      let c : end - start + 0 ≡ end - start = omega arith in
      rw (a, b) (sym (indices-append start (end - start) 0) ∙ ap (indices start) c)
]

taken-blocks_of :
    (n start end size : ℕ)
    → 0 < size
    → end - start ≤ n
    → taken (blocks_of size end (step_by n start end size)) ≡ indices start (end - start)
taken-blocks_of zero start end size p h = let e : end - start ≡ 0 = omega (arith, h) in rw e refl
taken-blocks_of (suc n) start end size p h = elim (Bool-cases (ltb start end)) [
  | inl t ↦
      let lt = ltb→lt start end t in
      rw (t, taken-blocks_of n (start + size) end size p (omega (arith, h, p)))
        (indices_cut start end size lt)
  | inr f ↦ let e : end - start ≡ 0 = ground (arith, f) in rw (f, e) refl
]

taken-frames_of :
    (n start range frame block : ℕ)
    → 0 < frame
    → 0 < block
    → range - start ≤ n
    → taken (frames_of range frame block (step_by n start range frame))
      ≡ indices start (range - start)
taken-frames_of zero start range frame block p q h =
    let e : range - start ≡ 0 = omega (arith, h) in rw e refl
taken-frames_of (suc n) start range frame block p q h = elim (Bool-cases (ltb start range)) [
  | inl t ↦
      let end = min (start + frame) range in
      let here = blocks_of block end (step_by end start end block) in
      let rest = frames_of range frame block (step_by n (start + frame) range frame) in
      rw
        (
          t,
          taken-append here rest,
          taken-blocks_of end start end block q (omega arith),
          taken-frames_of n (start + frame) range frame block p q (omega (arith, h, p)),
        )
        (indices_cut start range frame (ltb→lt start range t))
  | inr f ↦ let e : range - start ≡ 0 = ground (arith, f) in rw (f, e) refl
]

-- With frames that are not empty, the blocks, one after another, take the indices of the table from
-- 0 on, each once and in order.
pub verify_blocks_lem :
    (local_range frame_size : ℕ)
    → 0 < frame_size
    → taken (verify_blocks local_range frame_size) ≡ indices 0 local_range
unfolding verify_blocks
verify_blocks_lem local_range frame_size p =
    let whole : local_range - 0 ≡ local_range = omega arith in
    taken-frames_of local_range 0 local_range frame_size (min 4096 frame_size) p (omega (arith, p))
      (omega arith)
    ∙ ap (indices 0) whole
