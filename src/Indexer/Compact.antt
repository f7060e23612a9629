-- ===== src/Indexer/Compact.antt =====
-- `compact_pidx` and `uncompact_cpidx` of src/egt/indexer.rs are inverse.
use chess_egt.Common.{
  ℕ, zero, suc, ◌-◌, ◌≤◌, ◌<◌, ◌≡◌, ◌≢◌, refl, ap, List, [], ◌∷◌, map, length, arith, length-map,
}
use chess_egt.Indexer.{
  lower, raise, compact_rounds, compact_pidx, uncompact_rounds, uncompact_cpidx,
}

abbrev pub All {ℓ κ} : {A : Type ℓ} → (A → Type κ) → List A → Type κ
All P [] = Unit
All P (x ∷ xs) = P x × All P xs

-- No square occurs twice.
abbrev pub AllDistinct : List ℕ → Type 0
AllDistinct [] = Unit
AllDistinct (x ∷ v) = All (λ y. x ≢ y) v × AllDistinct v

-- Each entry is below the number of squares that the entries before it leave, `n` at the start.
abbrev pub IsCompact : ℕ → List ℕ → Type 0
IsCompact n [] = Unit
IsCompact n (x ∷ v) = (x < n) × IsCompact (n - 1) v

raise-lower : (x y : ℕ) → x ≢ y → raise x (lower x y) ≡ y
raise-lower x y h = ground arith

lower-raise : (x y : ℕ) → lower x (raise x y) ≡ y
lower-raise x y = ground arith

map-raise-lower : (x : ℕ) (v : List ℕ) → All (λ y. x ≢ y) v → map (raise x) (map (lower x) v) ≡ v
map-raise-lower x [] h = refl
map-raise-lower x (y ∷ v) h = rw (raise-lower x y h.0, map-raise-lower x v h.1)

map-lower-raise : (x : ℕ) (v : List ℕ) → map (lower x) (map (raise x) v) ≡ v
map-lower-raise x [] = refl
map-lower-raise x (y ∷ v) = rw (lower-raise x y, map-lower-raise x v)

lower_ne :
    (x z : ℕ) (v : List ℕ)
    → x ≢ z
    → All (λ y. x ≢ y) v
    → All (λ y. z ≢ y) v
    → All (λ y. lower x z ≢ y) (map (lower x) v)
lower_ne x z [] n h h' = tt
lower_ne x z (y ∷ v) n h h' = (ground (arith, h.0, h'.0), lower_ne x z v n h.1 h'.1)

lower-AllDistinct :
    (x : ℕ) (v : List ℕ) → All (λ y. x ≢ y) v → AllDistinct v → AllDistinct (map (lower x) v)
lower-AllDistinct x [] h d = tt
lower-AllDistinct x (y ∷ v) h d = (lower_ne x y v h.0 h.1 d.0, lower-AllDistinct x v h.1 d.1)

lower_below :
    (x n : ℕ) (v : List ℕ)
    → x < n
    → All (λ y. x ≢ y) v
    → All (λ y. y < n) v
    → All (λ y. y < n - 1) (map (lower x) v)
lower_below x n [] h d b = tt
lower_below x n (y ∷ v) h d b = (ground (arith, d.0, b.0), lower_below x n v h d.1 b.1)

-- With a round for each entry but the last.
rounds_inverse :
    (r n : ℕ) (v : List ℕ)
    → length v ≤ suc r
    → AllDistinct v
    → All (λ y. y < n) v
    → (uncompact_rounds r (compact_rounds r v) ≡ v) × IsCompact n (compact_rounds r v)
unfolding compact_rounds uncompact_rounds
rounds_inverse zero n [] l d b = (refl, tt)
rounds_inverse zero n (x ∷ []) l d b = (refl, (b.0, tt))
rounds_inverse zero n (x ∷ y ∷ v) l d b = absurd (omega arith)
rounds_inverse (suc r) n [] l d b = (refl, tt)
rounds_inverse (suc r) n (x ∷ v) l d b =
    let (e, c) =
      rounds_inverse r (n - 1) (map (lower x) v) (omega (arith, length-map v (lower x)))
        (lower-AllDistinct x v d.0 d.1) (lower_below x n v b.0 d.0 b.1) in
    (rw e (ap (◌∷◌ x) (map-raise-lower x v d.0)), (b.0, c))

raise_ne : (x : ℕ) (v : List ℕ) → All (λ y. x ≢ y) (map (raise x) v)
raise_ne x [] = tt
raise_ne x (y ∷ v) = (ground arith, raise_ne x v)

raise_keeps_ne :
    (x z : ℕ) (v : List ℕ) → All (λ y. z ≢ y) v → All (λ y. raise x z ≢ y) (map (raise x) v)
raise_keeps_ne x z [] h = tt
raise_keeps_ne x z (y ∷ v) h = (ground (arith, h.0), raise_keeps_ne x z v h.1)

raise-AllDistinct : (x : ℕ) (v : List ℕ) → AllDistinct v → AllDistinct (map (raise x) v)
raise-AllDistinct x [] d = tt
raise-AllDistinct x (y ∷ v) d = (raise_keeps_ne x y v d.0, raise-AllDistinct x v d.1)

raise_below :
    (x n : ℕ) (v : List ℕ) → x < n → All (λ y. y < n - 1) v → All (λ y. y < n) (map (raise x) v)
raise_below x n [] h b = tt
raise_below x n (y ∷ v) h b = (ground (arith, b.0), raise_below x n v h b.1)

rounds_inverse_back :
    (r n : ℕ) (v : List ℕ)
    → length v ≤ suc r
    → IsCompact n v
    → (compact_rounds r (uncompact_rounds r v) ≡ v)
      × AllDistinct (uncompact_rounds r v)
      × All (λ y. y < n) (uncompact_rounds r v)
unfolding compact_rounds uncompact_rounds
rounds_inverse_back zero n [] l c = (refl, tt, tt)
rounds_inverse_back zero n (x ∷ []) l c = (refl, (tt, tt), (c.0, tt))
rounds_inverse_back zero n (x ∷ y ∷ v) l c = absurd (omega arith)
rounds_inverse_back (suc r) n [] l c = (refl, tt, tt)
rounds_inverse_back (suc r) n (x ∷ v) l c =
    let (e, d, b) = rounds_inverse_back r (n - 1) v (omega arith) c.1 in
    let u = uncompact_rounds r v in
    (
      rw (map-lower-raise x u) (ap (◌∷◌ x) e),
      (raise_ne x u, raise-AllDistinct x u d),
      (c.0, raise_below x n u c.0 b),
    )

length-compact_rounds : (r : ℕ) (v : List ℕ) → length (compact_rounds r v) ≡ length v
unfolding compact_rounds
length-compact_rounds zero v = refl
length-compact_rounds (suc r) [] = refl
length-compact_rounds (suc r) (x ∷ v) =
    omega (arith, length-compact_rounds r (map (lower x) v), length-map v (lower x))

length-uncompact_rounds : (r : ℕ) (v : List ℕ) → length (uncompact_rounds r v) ≡ length v
unfolding uncompact_rounds
length-uncompact_rounds zero v = refl
length-uncompact_rounds (suc r) [] = refl
length-uncompact_rounds (suc r) (x ∷ v) =
    omega (arith, length-uncompact_rounds r v, length-map (uncompact_rounds r v) (raise x))

-- Distinct squares below `n` are compacted to entries of which the `i`-th is below `n - i`, and
-- uncompacting gives the squares again.
pub uncompact_cpidx-compact_pidx :
    (n : ℕ) (v : List ℕ)
    → AllDistinct v
    → All (λ y. y < n) v
    → (uncompact_cpidx (compact_pidx v) ≡ v) × IsCompact n (compact_pidx v)
unfolding compact_pidx uncompact_cpidx
uncompact_cpidx-compact_pidx n v d b =
    rw (length-compact_rounds (length v - 1) v)
      (rounds_inverse (length v - 1) n v (omega arith) d b)

-- Entries of which the `i`-th is below `n - i` are uncompacted to distinct squares below `n`, and
-- compacting gives the entries again.
pub compact_pidx-uncompact_cpidx :
    (n : ℕ) (v : List ℕ)
    → IsCompact n v
    → (compact_pidx (uncompact_cpidx v) ≡ v)
      × AllDistinct (uncompact_cpidx v)
      × All (λ y. y < n) (uncompact_cpidx v)
unfolding compact_pidx uncompact_cpidx
compact_pidx-uncompact_cpidx n v c =
    rw (length-uncompact_rounds (length v - 1) v)
      (rounds_inverse_back (length v - 1) n v (omega arith) c)
