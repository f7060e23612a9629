-- ===== src/Frame/Transpose.antt =====
-- What `transpose_frame` writes: the low bytes of all words, the high bytes of the long words, and
-- zeros, src/egt_file.rs.
use mathlib.Core.List.{append_assoc}
use chess_egt.Common.{
  ℕ, zero, suc, ◌+◌, ◌-◌, ◌*◌, ◌%◌, ◌^◌, ◌≤◌, ◌≡◌, refl, ap, ◌∙◌, sym, List, [], ◌∷◌, ◌++◌, map,
  Bool-cases, inl, inr, if◌then◌else◌, length, set, replicate, length-append, length-replicate,
  set-append, arith,
}
use chess_egt.Common.Bits.{bit_and_byte}
use chess_egt.Frame.{is_short, low_byte, high_byte, transpose_loop, transpose_frame}

abbrev pub lows : List ℕ → List ℕ
lows = map (λ v. v % 2 ^ 8)

abbrev pub highs : List ℕ → List ℕ
highs [] = []
highs (v ∷ vs) = if is_short v then highs vs else high_byte v ∷ highs vs

length-highs-le : (vs : List ℕ) → length (highs vs) ≤ length vs
length-highs-le [] = omega arith
length-highs-le (v ∷ vs) = ground (arith, length-highs-le vs)

low_byte_lem : (v : ℕ) → low_byte v ≡ v % 2 ^ 8
low_byte_lem v = omega (arith, bit_and_byte v)

abbrev pub zeros : ℕ → List ℕ
zeros m = replicate m 0

regroup :
    (before middle after rest : List ℕ) (lo hi : ℕ)
    → (before ++ lo ∷ []) ++ (middle ++ ((after ++ hi ∷ []) ++ rest))
      ≡ before ++ (lo ∷ (middle ++ (after ++ (hi ∷ rest))))
regroup before middle after rest lo hi = simp append_assoc

-- Two writes: one behind `before`, one behind `after`.
two_writes :
    (before middle after rest : List ℕ) (i j lo hi : ℕ)
    → i ≡ length before
    → j ≡ length before + suc (length middle) + length after
    → set (set (before ++ (0 ∷ (middle ++ (after ++ (0 ∷ rest))))) i lo) j hi
      ≡ before ++ (lo ∷ (middle ++ (after ++ (hi ∷ rest))))
two_writes before middle after rest i j lo hi ei ej =
    let front = before ++ lo ∷ (middle ++ after) in
    let len : j ≡ length front =
      omega (
        arith,
        length-append {0} before (lo ∷ (middle ++ after)),
        length-append {0} middle after,
      ) in
    let shape : (x : ℕ) → front ++ x ∷ rest ≡ before ++ (lo ∷ (middle ++ (after ++ (x ∷ rest)))) =
      λ x. simp append_assoc in
    let first : set (before ++ (0 ∷ (middle ++ (after ++ (0 ∷ rest))))) i lo ≡ front ++ 0 ∷ rest =
      rw ei (set-append before 0 lo (middle ++ (after ++ (0 ∷ rest))) ∙ sym (shape 0)) in
    rw (first, len) (set-append front 0 hi rest ∙ shape hi)

-- The buffer at a round: what the words before left, and zeros to write on.
transpose_loop_lem :
    (vals before after rest : List ℕ) (i j : ℕ)
    → i ≡ length before
    → j ≡ length before + length vals + length after
    → transpose_loop vals i j
        (before ++ (zeros (length vals) ++ (after ++ (zeros (length (highs vals)) ++ rest))))
      ≡ before ++ (lows vals ++ (after ++ (highs vals ++ rest)))
unfolding transpose_loop
transpose_loop_lem [] before after rest i j ei ej = refl
transpose_loop_lem (v ∷ vals) before after rest i j ei ej = elim (Bool-cases (is_short v)) [
  | inl s ↦
      let x = v % 2 ^ 8 in
      let tail_before = zeros (length vals) ++ (after ++ (zeros (length (highs vals)) ++ rest)) in
      let write : set (before ++ (0 ∷ tail_before)) i x ≡ before ++ x ∷ tail_before =
        rw ei (set-append before 0 x tail_before) in
      let ih =
        transpose_loop_lem vals (before ++ x ∷ []) after rest (i + 1) j
          (omega (arith, length-append {0} before (x ∷ [])))
          (omega (arith, length-append {0} before (x ∷ []))) in
      rw (s, write)
        (ap (transpose_loop vals (i + 1) j) (sym (append_assoc before (x ∷ []) tail_before))
          ∙ ih
          ∙ append_assoc before (x ∷ []) _)
  | inr l ↦
      let lo = low_byte v in
      let hi = high_byte v in
      let middle = zeros (length vals) in
      let more = zeros (length (highs vals)) ++ rest in
      let ih =
        transpose_loop_lem vals (before ++ lo ∷ []) (after ++ hi ∷ []) rest (i + 1) (j + 1)
          (omega (arith, length-append {0} before (lo ∷ [])))
          (omega (arith, length-append {0} before (lo ∷ []), length-append {0} after (hi ∷ []))) in
      let len : length middle ≡ length vals = length-replicate (length vals) 0 in
      rw (l, two_writes before middle after more i j lo hi ei (omega arith))
        (ap (transpose_loop vals (i + 1) (j + 1)) (sym (regroup before middle after more lo hi))
          ∙ ih
          ∙ regroup before (lows vals) after (highs vals ++ rest) lo hi
          ∙ ap (λ (t : ℕ). before ++ (t ∷ (lows vals ++ (after ++ (hi ∷ (highs vals ++ rest))))))
              (low_byte_lem v))
]

zeros_split : (a b c : ℕ) → c ≡ a + b → zeros c ≡ zeros a ++ zeros b
zeros_split zero b c e = let e' : c ≡ b = omega arith in rw e' refl
zeros_split (suc a) b zero e = absurd (omega arith)
zeros_split (suc a) b (suc c) e = ap (◌∷◌ 0) (zeros_split a b c (omega arith))

pub transpose_frame_lem :
    (vals : List ℕ)
    → transpose_frame vals ≡ lows vals ++ (highs vals ++ zeros (length vals - length (highs vals)))
unfolding transpose_frame
transpose_frame_lem vals =
    let n = length vals in
    let h = length (highs vals) in
    let room : zeros (n * 2) ≡ zeros n ++ (zeros h ++ zeros (n - h)) =
      zeros_split n n (n * 2) (omega arith)
      ∙ ap (λ (t : List ℕ). zeros n ++ t)
          (zeros_split h (n - h) n (omega (arith, length-highs-le vals))) in
    rw room (transpose_loop_lem vals [] [] (zeros (n - h)) 0 n refl (omega arith))
