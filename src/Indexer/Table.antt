-- ===== src/Indexer/Table.antt =====
-- The table `N_CHOOSE_K` of src/egt/indexer.rs holds the binomial coefficients.
use chess_egt.Common.{
  ℕ, zero, suc, ◌+◌, ◌-◌, ◌≤◌, ◌<◌, ◌≡◌, refl, ◌∙◌, sym, List, [], ◌∷◌, get_or, set, length,
  replicate, length-set, if◌then◌else◌, ◌==◌, arith,
}
use chess_egt.Indexer.{fill_row, choose_row, n_choose_k}
use chess_egt.Indexer.Choose.{choose, choose_small, choose_mono}

pub get_or-set :
    (xs : List ℕ) (i j v : ℕ)
    → i < length xs
    → get_or (set xs i v) j 0 ≡ (if i == j then v else get_or xs j 0)
get_or-set [] i j v h = elim h [ ]
get_or-set (x ∷ xs) zero zero v h = refl
get_or-set (x ∷ xs) zero (suc j) v h = ground arith
get_or-set (x ∷ xs) (suc i) zero v h = ground arith
get_or-set (x ∷ xs) (suc i) (suc j) v h = ground (arith, get_or-set xs i j v (omega arith))

get_or-replicate : (n i v : ℕ) → i < n → get_or (replicate n v) i 0 ≡ v
get_or-replicate zero i v h = elim h [ ]
get_or-replicate (suc n) zero v h = refl
get_or-replicate (suc n) (suc i) v h = get_or-replicate n i v (omega arith)

-- Row `k + 1` below column `n`, and zeros from there on.
record IsFilled (k n : ℕ) (row : List ℕ) : Type 0 where
  size : length row ≡ 65
  below : (j : ℕ) → j < n → get_or row j 0 ≡ choose j (suc k)

choose_step : (n k : ℕ) → 0 < n → choose n (suc k) ≡ choose (n - 1) k + choose (n - 1) (suc k)
choose_step zero k h = elim h [ ]
choose_step (suc n) k h = let e : suc n - 1 ≡ n = omega arith in rw e refl

module _ (k : ℕ) (prev : List ℕ) (is_row : (j : ℕ) → j < 65 → get_or prev j 0 ≡ choose j k) where
  fill_step :
      (n : ℕ) (row : List ℕ)
      → 0 < n
      → n < 65
      → IsFilled k n row
      → IsFilled k (n + 1) (set row n (get_or prev (n - 1) 0 + get_or row (n - 1) 0))
  fill_step n row p h f = record {
    size = length-set row n _ ∙ f.size;
    below = λ j lt.
        rw
          (get_or-set row n j (get_or prev (n - 1) 0 + get_or row (n - 1) 0)
            (omega (arith, f.size)))
          (ground (
            arith,
            is_row (n - 1) (omega arith),
            f.below (n - 1) (omega arith),
            f.below j,
            choose_step n k p,
          ));
  }

  fill_all :
      (left n : ℕ) (row : List ℕ)
      → 0 < n
      → left + n ≡ 65
      → IsFilled k n row
      → IsFilled k 65 (fill_row prev left n row)
  unfolding fill_row
  fill_all zero n row p e f = let e' : n ≡ 65 = omega arith in rw (← e') f
  fill_all (suc left) n row p e f =
      fill_all left (n + 1) _ (omega arith) (omega arith) (fill_step n row p (omega arith) f)

get_or-zeros : (n j : ℕ) → get_or {A = ℕ} (replicate n 0) j 0 ≡ 0
get_or-zeros zero j = refl
get_or-zeros (suc n) zero = refl
get_or-zeros (suc n) (suc j) = get_or-zeros n j

zeros-IsFilled : (k : ℕ) → IsFilled k (suc k) (replicate 65 0)
zeros-IsFilled k = record {
  size = refl;
  below = λ j lt. get_or-zeros 65 j ∙ sym (choose_small j (suc k) lt);
}

pub choose_row_lem : (k j : ℕ) → k < 65 → j < 65 → get_or (choose_row k) j 0 ≡ choose j k
unfolding choose_row
choose_row_lem zero j h lt = get_or-replicate 65 j 1 lt
choose_row_lem (suc k) j h lt =
    (fill_all k (choose_row k) (λ i p. choose_row_lem k i (omega arith) p) (65 - suc k) (suc k)
        (replicate 65 0) (omega arith) (omega arith) (zeros-IsFilled k)).below
      j lt

pub choose_row-length : (k : ℕ) → k < 65 → length (choose_row k) ≡ 65
unfolding choose_row
choose_row-length zero h = refl
choose_row-length (suc k) h =
    (fill_all k (choose_row k) (λ i p. choose_row_lem k i (omega arith) p) (65 - suc k) (suc k)
      (replicate 65 0) (omega arith) (omega arith) (zeros-IsFilled k)).size

-- The entry of the table at row `k` and column `n` is `n` over `k`.
pub n_choose_k_lem : (k n : ℕ) → k ≤ 8 → n ≤ 64 → n_choose_k k n ≡ choose n k
unfolding n_choose_k
n_choose_k_lem k n h h' = choose_row_lem k n (omega arith) (omega arith)

last_column : (k : ℕ) → k ≤ 8 → n_choose_k k 64 ≤ 4_426_165_368
unfolding n_choose_k
last_column zero h = omega arith
last_column (suc zero) h = omega arith
last_column (suc (suc zero)) h = omega arith
last_column (suc (suc (suc zero))) h = omega arith
last_column (suc (suc (suc (suc zero)))) h = omega arith
last_column (suc (suc (suc (suc (suc zero))))) h = omega arith
last_column (suc (suc (suc (suc (suc (suc zero)))))) h = omega arith
last_column (suc (suc (suc (suc (suc (suc (suc zero))))))) h = omega arith
last_column (suc (suc (suc (suc (suc (suc (suc (suc zero)))))))) h = omega arith
last_column (suc (suc (suc (suc (suc (suc (suc (suc (suc k))))))))) h = absurd (omega arith)

-- Every entry of the table at a row up to 8 and a column up to 64 is the binomial coefficient, and
-- is at most 64 over 8, so the additions that fill the table stay far below 2 ^ 64.
pub n_choose_k_table :
    (k n : ℕ) → k ≤ 8 → n ≤ 64 → (n_choose_k k n ≡ choose n k) × (n_choose_k k n ≤ 4_426_165_368)
n_choose_k_table k n h h' =
    let e = n_choose_k_lem k n h h' in
    (
      e,
      omega (arith, e, choose_mono k 64 n h', n_choose_k_lem k 64 h (omega arith), last_column k h),
    )
