-- ===== src/Finalization/Tally.antt =====
-- What a fold over the records of src/finalization_stats.rs, and over its merged batches, leaves in
-- a counter and in a list.
use mathlib.Core.List.{append-nil}
use chess_egt.Common.{
  ℕ, ◌+◌, ◌%◌, ◌^◌, ◌≡◌, refl, sym, ◌∙◌, Bool, List, [], ◌∷◌, ◌++◌, map, Option, if◌then◌else◌,
  arith, append_assoc,
}
use chess_egt.Stats.{add64}
use chess_egt.Finalization.{
  TableStats, Cell, Maxima, record_outcome, record_all, merge_part, merge_all, default_stats,
}

abbrev pub bit : Bool → ℕ
bit b = if b then 1 else 0

abbrev pub raised : Bool → ℕ → ℕ
raised b n = if b then add64 n 1 else n

raised_lem : (b : Bool) (k n : ℕ) → k ≡ n % 2 ^ 64 → raised b k ≡ (n + bit b) % 2 ^ 64
raised_lem b k n e = ground (arith, e)

-- The number of cells that satisfy a test.
abbrev pub tally : (Cell → Bool) → List Cell → ℕ
tally p [] = 0
tally p (c ∷ cells) = bit (p c) + tally p cells

abbrev pub only : Bool → ℕ → List ℕ
only b i = if b then i ∷ [] else []

-- The indices of the cells that satisfy a test, in order.
abbrev pub picked : (Cell → Bool) → List Cell → List ℕ
picked p [] = []
picked p (c ∷ cells) = only (p c) c.1 ++ picked p cells

abbrev pub all_cells : List (List Cell) → List Cell
all_cells [] = []
all_cells (b ∷ batches) = b ++ all_cells batches

tally-append : (p : Cell → Bool) (xs ys : List Cell) → tally p (xs ++ ys) ≡ tally p xs + tally p ys
tally-append p [] ys = omega arith
tally-append p (c ∷ xs) ys = omega (arith, tally-append p xs ys)

picked-append :
    (p : Cell → Bool) (xs ys : List Cell) → picked p (xs ++ ys) ≡ picked p xs ++ picked p ys
picked-append p [] ys = refl
picked-append p (c ∷ xs) ys =
    rw (picked-append p xs ys) (sym (append_assoc (only (p c) c.1) (picked p xs) (picked p ys)))

-- The records of one batch
abbrev pub batch_of : (ℕ → Option ℕ) → Maxima → List Cell → TableStats
batch_of diagonal_symmetric maxima cells = record_all diagonal_symmetric maxima cells default_stats

module _ (diagonal_symmetric : ℕ → Option ℕ) (maxima : Maxima) (Fine : TableStats → Type 0)
    (start : Fine default_stats)
    (recorded : (c : Cell) (s : TableStats)
      → Fine s
      → Fine (record_outcome diagonal_symmetric maxima c s))
    (joined : (t s : TableStats) → Fine t → Fine s → Fine (merge_part t s)) where
  record_all-Fine :
      (cells : List Cell) (s : TableStats)
      → Fine s
      → Fine (record_all diagonal_symmetric maxima cells s)
  unfolding record_all
  record_all-Fine [] s h = h
  record_all-Fine (c ∷ cells) s h = record_all-Fine cells _ (recorded c s h)

  pub merge_all-Fine :
      (batches : List (List Cell)) (t : TableStats)
      → Fine t
      → Fine (merge_all t (map (batch_of diagonal_symmetric maxima) batches))
  unfolding merge_all
  merge_all-Fine [] t h = h
  merge_all-Fine (b ∷ batches) t h =
      merge_all-Fine batches _
        (joined t (batch_of diagonal_symmetric maxima b) h (record_all-Fine b default_stats start))

  module _ (count : TableStats → ℕ) (p : Cell → Bool) (none_yet : count default_stats ≡ 0)
      (step : (c : Cell) (s : TableStats)
        → Fine s
        → count (record_outcome diagonal_symmetric maxima c s) ≡ raised (p c) (count s))
      (join : (t s : TableStats)
        → Fine t
        → Fine s
        → count (merge_part t s) ≡ add64 (count t) (count s)) where
    record_all-tally :
        (cells : List Cell) (s : TableStats) (n : ℕ)
        → Fine s
        → count s ≡ n % 2 ^ 64
        → count (record_all diagonal_symmetric maxima cells s) ≡ (n + tally p cells) % 2 ^ 64
    unfolding record_all
    record_all-tally [] s n h e = omega (arith, e)
    record_all-tally (c ∷ cells) s n h e =
        let next =
          record_all-tally cells _ (n + bit (p c)) (recorded c s h)
            (step c s h ∙ raised_lem (p c) (count s) n e) in
        omega (arith, next)

    pub merge_all-tally :
        (batches : List (List Cell)) (t : TableStats) (n : ℕ)
        → Fine t
        → count t ≡ n % 2 ^ 64
        → count (merge_all t (map (batch_of diagonal_symmetric maxima) batches))
          ≡ (n + tally p (all_cells batches)) % 2 ^ 64
    unfolding merge_all
    merge_all-tally [] t n h e = omega (arith, e)
    merge_all-tally (b ∷ batches) t n h e =
        let fine = record_all-Fine b default_stats start in
        let one = record_all-tally b default_stats 0 start (omega (arith, none_yet)) in
        let next =
          merge_all-tally batches _ (n + tally p b)
            (joined t (batch_of diagonal_symmetric maxima b) h fine)
            (omega (arith, join t (batch_of diagonal_symmetric maxima b) h fine, e, one)) in
        omega (arith, next, tally-append p b (all_cells batches))

  module _ (list : TableStats → List ℕ) (p : Cell → Bool) (none_yet : list default_stats ≡ [])
      (step : (c : Cell) (s : TableStats)
        → list (record_outcome diagonal_symmetric maxima c s) ≡ list s ++ only (p c) c.1)
      (join : (t s : TableStats) → list (merge_part t s) ≡ list t ++ list s) where
    record_all-picked :
        (cells : List Cell) (s : TableStats)
        → list (record_all diagonal_symmetric maxima cells s) ≡ list s ++ picked p cells
    unfolding record_all
    record_all-picked [] s = sym (append-nil (list s))
    record_all-picked (c ∷ cells) s =
        rw (record_all-picked cells (record_outcome diagonal_symmetric maxima c s), step c s)
          (append_assoc (list s) (only (p c) c.1) (picked p cells))

    pub merge_all-picked :
        (batches : List (List Cell)) (t : TableStats)
        → list (merge_all t (map (batch_of diagonal_symmetric maxima) batches))
          ≡ list t ++ picked p (all_cells batches)
    unfolding merge_all
    merge_all-picked [] t = sym (append-nil (list t))
    merge_all-picked (b ∷ batches) t =
        let one : list (batch_of diagonal_symmetric maxima b) ≡ picked p b =
          rw (record_all-picked b default_stats, none_yet) refl in
        rw
          (
            merge_all-picked batches (merge_part t (batch_of diagonal_symmetric maxima b)),
            join t (batch_of diagonal_symmetric maxima b),
            one,
            picked-append p b (all_cells batches),
          )
          (append_assoc (list t) (picked p b) (picked p (all_cells batches)))
