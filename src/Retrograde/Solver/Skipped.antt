-- ===== src/Retrograde/Solver/Skipped.antt =====
-- The blocks that the scans of src/retrograde.rs skip by the summary hold nothing they look for.
use chess_egt.Common.{
  ℕ, zero, suc, ◌+◌, ◌-◌, ◌*◌, ◌/◌, ◌≤◌, ◌<◌, ◌≡◌, refl, ap, ◌∙◌, min, Bool, true, false, List, [],
  ◌∷◌, ◌++◌, inl, inr, get_or, length, leb, arith, Bool-cases, dec_le,
}
use chess_egt.Outcome.{MaybeDtcOutcome}
use chess_egt.Retrograde.{
  SummaryKind, index, BlockSummary, PlySummary, bound_of, ply_bound, blocks_from, blocks_with,
}
use chess_egt.Retrograde.Summary.{IsSummary}
use chess_egt.Retrograde.Solver.{matches}
use chess_egt.Retrograde.Solver.Snapshot.{matches_in}

module _ (select : MaybeDtcOutcome → Bool) (values : List MaybeDtcOutcome) where
  matches-append :
      (start m n : ℕ)
      → matches select values start (m + n)
        ≡ matches select values start m ++ matches select values (start + m) n
  matches-append start zero n =
      let a : start + 0 ≡ start = omega arith in
      let b : 0 + n ≡ n = omega arith in rw a (ap (matches select values start) b)
  matches-append start (suc m) n =
      let e : start + suc m ≡ start + 1 + m = omega arith in
      let e' : suc m + n ≡ suc (m + n) = omega arith in
      let rest = matches-append (start + 1) m n in
      elim (Bool-cases (select (get_or values start 0))) [
        | inl t ↦ rw (e', e, t, rest) refl
        | inr f ↦ rw (e', e, f, rest) refl
      ]

  matches-none :
      (start n : ℕ)
      → ((i : ℕ) → start ≤ i → i < start + n → select (get_or values i 0) ≡ false)
      → matches select values start n ≡ []
  matches-none start zero h = refl
  matches-none start (suc n) h =
      rw (h start (omega arith) (omega arith))
        (matches-none (start + 1) n (λ i le lt. h i (omega (arith, le)) (omega (arith, lt))))

  -- Where a match stands, the bound of its block is high enough.
  abbrev Bounded : ℕ → ℕ → SummaryKind → ℕ → List BlockSummary → Type 0
  Bounded size b kind bound blocks =
      (i : ℕ)
      → b * 4096 ≤ i
      → i < size
      → select (get_or values i 0) ≡ true
      → bound ≤ get_or (get_or blocks (i / 4096 - b) []) (index kind) 0

  Bounded-tail :
      (size b : ℕ) (kind : SummaryKind) (bound : ℕ) (y : BlockSummary) (blocks : List BlockSummary)
      → Bounded size b kind bound (y ∷ blocks)
      → Bounded size (b + 1) kind bound blocks
  Bounded-tail size b kind bound y blocks h i le lt t =
      let e : i / 4096 - b ≡ suc (i / 4096 - (b + 1)) = omega (arith, le) in
      let at_i = h i (omega (arith, le)) lt t in rw e at at_i

  skipped-none :
      (size b : ℕ) (kind : SummaryKind) (bound : ℕ) (y : BlockSummary) (blocks : List BlockSummary)
      → Bounded size b kind bound (y ∷ blocks)
      → leb bound (get_or y (index kind) 0) ≡ false
      → (i : ℕ) → b * 4096 ≤ i
      → i < min (b * 4096 + 4096) size
      → select (get_or values i 0) ≡ false
  skipped-none size b kind bound y blocks h low i le lt =
      elim (Bool-cases (select (get_or values i 0))) [
        | inr f ↦ f
        | inl t ↦
            let e : i / 4096 - b ≡ 0 = omega (arith, le, lt) in
            let at_i = h i le (omega (arith, lt)) t in
            let high = rw e at at_i in absurd (ground (arith, high))
      ]

  same_rest :
      (size b : ℕ)
      → let rest = size - (b + 1) * 4096 in
        matches select values (b * 4096 + (min (b * 4096 + 4096) size - b * 4096)) rest
        ≡ matches select values ((b + 1) * 4096) rest
  same_rest size b = elim (dec_le size ((b + 1) * 4096)) [
    | yes le ↦ let e : size - (b + 1) * 4096 ≡ 0 = omega (arith, le) in rw e refl
    | no n ↦
        let e : b * 4096 + (min (b * 4096 + 4096) size - b * 4096) ≡ (b + 1) * 4096 =
          omega (arith, n) in
        rw e refl
  ]

  matches_in-blocks_from :
      (size b : ℕ) (kind : SummaryKind) (bound : ℕ) (blocks : List BlockSummary)
      → (size + 4095) / 4096 ≤ b + length blocks
      → Bounded size b kind bound blocks
      → matches_in select values (blocks_from size b kind bound blocks)
        ≡ matches select values (b * 4096) (size - b * 4096)
  unfolding blocks_from
  matches_in-blocks_from size b kind bound [] l h =
      let e : size - b * 4096 ≡ 0 = omega (arith, l) in rw e refl
  matches_in-blocks_from size b kind bound (y ∷ blocks) l h =
      let here = min (b * 4096 + 4096) size - b * 4096 in
      let rest = size - (b + 1) * 4096 in
      let split : size - b * 4096 ≡ here + rest = omega arith in
      let ih =
        matches_in-blocks_from size (b + 1) kind bound blocks (omega (arith, l))
          (Bounded-tail size b kind bound y blocks h) in
      let whole = matches-append (b * 4096) here rest in
      elim (Bool-cases (leb bound (get_or y (index kind) 0))) [
        | inl t ↦ rw (t, split, whole, ih, same_rest size b) refl
        | inr f ↦
            let none_here = matches-none (b * 4096) here (λ i le lt.
              skipped-none size b kind bound y blocks h f i le (omega (arith, le, lt))) in
            rw (f, split, whole, ih, none_here, same_rest size b) refl
      ]

-- The ranges that `blocks_with` gives hold all that a scan of the whole table would find, in the
-- same order.
pub matches_in-blocks_with :
    (select : MaybeDtcOutcome → Bool) (values : List MaybeDtcOutcome) (s : PlySummary)
    (kind : SummaryKind) (q : ℕ)
    → IsSummary s
    → ((i : ℕ)
        → i < s.size
        → select (get_or values i 0) ≡ true
        → ply_bound q ≤ bound_of s (i / 4096) kind)
    → matches_in select values (blocks_with s kind q) ≡ matches select values 0 s.size
unfolding blocks_with
matches_in-blocks_with select values s kind q wf h =
    let whole : s.size - 0 * 4096 ≡ s.size = omega arith in
    matches_in-blocks_from select values s.size 0 kind (ply_bound q) s.blocks
      (omega (arith, wf.enough))
      (λ i le lt t. let e : i / 4096 - 0 ≡ i / 4096 = omega arith in rw e (h i lt t))
    ∙ ap (matches select values 0) whole
