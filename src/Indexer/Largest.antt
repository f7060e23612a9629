-- ===== src/Indexer/Largest.antt =====
-- The binary search of `index_to_cpidx`, src/egt/indexer.rs.
use chess_egt.Common.{
  ℕ, zero, suc, ◌+◌, ◌-◌, ◌≤◌, ◌<◌, ◌≡◌, refl, ◌∙◌, List, [], ◌∷◌, get_or, length, take,
  length-take, arith, dec_lt,
}
use chess_egt.Indexer.{choose_row, lower_bound, largest}
use chess_egt.Indexer.Choose.{choose, choose_small}
use chess_egt.Indexer.Table.{choose_row-length, choose_row_lem}

lower_bound-le : (xs : List ℕ) (t : ℕ) → lower_bound xs t ≤ length xs
unfolding lower_bound
lower_bound-le [] t = omega arith
lower_bound-le (x ∷ xs) t = ground (arith, lower_bound-le xs t)

lower_bound_before : (xs : List ℕ) (t j : ℕ) → j < lower_bound xs t → get_or xs j 0 < t
unfolding lower_bound
lower_bound_before [] t j h = absurd (omega arith)
lower_bound_before (x ∷ xs) t zero h = ground arith
lower_bound_before (x ∷ xs) t (suc j) h = ground (arith, lower_bound_before xs t j)

lower_bound_at :
    (xs : List ℕ) (t : ℕ) → lower_bound xs t < length xs → t ≤ get_or xs (lower_bound xs t) 0
unfolding lower_bound
lower_bound_at [] t h = absurd (omega arith)
lower_bound_at (x ∷ xs) t h = ground (arith, lower_bound_at xs t)

get_or-take : (n j : ℕ) (xs : List ℕ) → j < n → get_or (take n xs) j 0 ≡ get_or xs j 0
get_or-take zero j xs h = elim h [ ]
get_or-take (suc n) j [] h = refl
get_or-take (suc n) zero (x ∷ xs) h = refl
get_or-take (suc n) (suc j) (x ∷ xs) h = get_or-take n j xs (omega arith)

largest_lem : (k n x : ℕ) → largest k n x ≡ lower_bound (take n (choose_row k)) (x + 1) - 1
unfolding largest
largest_lem k n x = ground arith

module _ (row : List ℕ) (f : ℕ → ℕ) (n x : ℕ) (len : length row ≡ n)
    (entry : (j : ℕ) → j < n → get_or row j 0 ≡ f j) (low : f 0 ≤ x) (high : x < f n)
    (pos : 0 < n) where
  search_at :
      (p : ℕ) → lower_bound row (x + 1) ≡ p → (p - 1 < n) × (f (p - 1) ≤ x) × (x < f (suc (p - 1)))
  search_at zero e =
      let first : x + 1 ≤ get_or row 0 0 = rw e at (lower_bound_at row (x + 1) (omega arith)) in
      absurd (omega (arith, entry 0 pos))
  search_at (suc c) e =
      let below : c < n = omega (arith, lower_bound-le row (x + 1)) in
      let here : f c ≤ x =
        omega (arith, entry c below, lower_bound_before row (x + 1) c (omega arith)) in
      let next : x < f (suc c) = elim (dec_lt (suc c) n) [
        | yes lt ↦
            let after : x + 1 ≤ get_or row (suc c) 0 =
              rw e at (lower_bound_at row (x + 1) (omega arith)) in
            omega (arith, entry (suc c) lt)
        | no ge ↦ let end : suc c ≡ n = omega arith in rw end high
      ] in
      let back : suc c - 1 ≡ c = omega arith in rw back (below, here, next)

-- The column that the search finds: the last one below `n` whose entry is not above `x`.
pub largest_bounds :
    (k n x : ℕ)
    → 0 < k
    → k ≤ 8
    → 0 < n
    → n ≤ 64
    → x < choose n k
    → (largest k n x < n) × (choose (largest k n x) k ≤ x) × (x < choose (suc (largest k n x)) k)
largest_bounds k n x p h q b lt =
    let row = take n (choose_row k) in
    let len : length row ≡ n =
      omega (arith, length-take n (choose_row k), choose_row-length k (omega arith)) in
    rw (largest_lem k n x) (
      search_at row (λ j. choose j k) n x len
        (λ j l. get_or-take n j (choose_row k) l ∙ choose_row_lem k j (omega arith) (omega arith))
        (omega (arith, choose_small 0 k p)) lt q (lower_bound row (x + 1)) refl)
