-- ===== src/Indexer/Choose.antt =====
-- Binomial coefficients by Pascal's rule: what the table of src/egt/indexer.rs stands for.
use chess_egt.Common.{ℕ, zero, suc, ◌+◌, ◌≤◌, ◌<◌, ◌≡◌, refl, arith, dec_le}

abbrev pub choose : ℕ → ℕ → ℕ
choose n zero = 1
choose zero (suc k) = 0
choose (suc n) (suc k) = choose n k + choose n (suc k)

pub choose-one : (n : ℕ) → choose n 1 ≡ n
choose-one zero = refl
choose-one (suc n) = omega (arith, choose-one n)

pub choose_small : (n k : ℕ) → n < k → choose n k ≡ 0
choose_small n zero h = elim h [ ]
choose_small zero (suc k) h = refl
choose_small (suc n) (suc k) h =
    omega (arith, choose_small n k (omega arith), choose_small n (suc k) (omega arith))

choose-le-suc : (n k : ℕ) → choose n k ≤ choose (suc n) k
choose-le-suc n zero = omega arith
choose-le-suc n (suc k) = omega arith

pub choose_mono : (k n m : ℕ) → m ≤ n → choose m k ≤ choose n k
choose_mono k zero m h = let e : m ≡ 0 = omega arith in rw e (omega arith)
choose_mono k (suc n) m h = elim (dec_le m n) [
  | yes p ↦ omega (arith, choose_mono k n m p, choose-le-suc n k)
  | no p ↦ let e : m ≡ suc n = omega arith in rw e (omega arith)
]

pub choose_pos : (n k : ℕ) → k ≤ n → 0 < choose n k
choose_pos n zero h = omega arith
choose_pos zero (suc k) h = absurd (omega arith)
choose_pos (suc n) (suc k) h = omega (arith, choose_pos n k (omega arith))
