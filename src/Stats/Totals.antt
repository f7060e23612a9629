-- ===== src/Stats/Totals.antt =====
-- What `AggregateStats::add_record` sums up, src/stats.rs.
use chess_egt.Common.{
  ℕ, suc, ◌+◌, ◌%◌, ◌^◌, ◌<◌, ◌≡◌, refl, ◌∙◌, sym, Option, some, none, List, [], ◌∷◌, length, arith,
}
use chess_egt.Stats.{
  EgtStats, StatsRecord, complete, missing, AggregateStats, default, add64, sum, add, add_record,
  merge,
}

-- The records of a selection, one after another.
abbrev pub add_all : AggregateStats → List StatsRecord → AggregateStats
add_all s [] = s
add_all s (r ∷ rs) = add_all (add_record s r) rs

abbrev more : ℕ → Option ℕ → Option ℕ
more n none = none
more n (some m) = some (n + m)

-- The sum of a number over the tables, if all of them are available.
abbrev pub total : (EgtStats → ℕ) → List StatsRecord → Option ℕ
total value [] = some 0
total value (complete stats ∷ rs) = more (value stats) (total value rs)
total value (missing stats ∷ rs) = none

abbrev pub wrapped : Option ℕ → Option ℕ
wrapped none = none
wrapped (some n) = some (n % 2 ^ 64)

abbrev pub available : List StatsRecord → ℕ
available [] = 0
available (complete stats ∷ rs) = suc (available rs)
available (missing stats ∷ rs) = available rs

abbrev pub ranges : List StatsRecord → ℕ
ranges [] = 0
ranges (complete stats ∷ rs) = stats.index_range + ranges rs
ranges (missing stats ∷ rs) = stats.index_range + ranges rs

abbrev after : Option ℕ → Option ℕ → Option ℕ
after none t = none
after (some n) none = none
after (some n) (some m) = some ((n + m) % 2 ^ 64)

after-none : (o : Option ℕ) → after o none ≡ none
after-none none = refl
after-none (some n) = refl

after-sum : (o t : Option ℕ) (n : ℕ) → after (sum o (some n)) t ≡ after o (more n t)
after-sum none t n = refl
after-sum (some m) none n = refl
after-sum (some m) (some k) n =
    let e : ((m + n) % 2 ^ 64 + k) % 2 ^ 64 ≡ (m + (n + k)) % 2 ^ 64 = omega arith in rw e refl

sum-after : (o : Option ℕ) (n : ℕ) → sum o (some n) ≡ after o (some (n + 0))
sum-after none n = refl
sum-after (some m) n = let e : n + 0 ≡ n = omega arith in rw e refl

after-zero : (t : Option ℕ) → after (some 0) t ≡ wrapped t
after-zero none = refl
after-zero (some n) = let e : 0 + n ≡ n = omega arith in rw e refl

module _ (field : AggregateStats → Option ℕ) (value : EgtStats → ℕ)
    (on_complete : (s : AggregateStats) (stats : EgtStats)
      → field (add_record s (complete stats)) ≡ sum (field s) (some (value stats)))
    (on_missing : (s : AggregateStats) (stats : _)
      → field (add_record s (missing stats)) ≡ none) where
  lost : (rs : List StatsRecord) (s : AggregateStats) → field s ≡ none → field (add_all s rs) ≡ none
  lost [] s e = e
  lost (complete stats ∷ rs) s e = lost rs _ (on_complete s stats ∙ rw e refl)
  lost (missing stats ∷ rs) s e = lost rs _ (on_missing s stats)

  field_total :
      (r : StatsRecord) (rs : List StatsRecord) (s : AggregateStats)
      → field (add_all s (r ∷ rs)) ≡ after (field s) (total value (r ∷ rs))
  field_total (complete stats) [] s = on_complete s stats ∙ sum-after (field s) (value stats)
  field_total (complete stats) (r ∷ rs) s =
      field_total r rs _
      ∙ rw (on_complete s stats) (after-sum (field s) (total value (r ∷ rs)) (value stats))
  field_total (missing stats) rs s = lost rs _ (on_missing s stats) ∙ sym (after-none (field s))

  all_total :
      (rs : List StatsRecord)
      → field default ≡ some 0
      → field (add_all default rs) ≡ wrapped (total value rs)
  all_total [] e = e
  all_total (r ∷ rs) e = field_total r rs default ∙ rw e (after-zero (total value (r ∷ rs)))

abbrev range_of : StatsRecord → ℕ
range_of (complete t) = t.index_range
range_of (missing t) = t.index_range

count_step :
    (s : AggregateStats) (r : StatsRecord)
    → ((add_record s r).selected_tables ≡ add64 (add64 s.selected_tables 1) 0)
      × ((add_record s r).index_range ≡ add64 s.index_range (range_of r))
unfolding add_record add merge
count_step s (complete t) = (refl, refl)
count_step s (missing t) = (omega arith, refl)

available_step :
    (s : AggregateStats) (r : StatsRecord)
    → s.available_tables < 2 ^ 64
    → (add_record s r).available_tables ≡ add64 s.available_tables (available (r ∷ []))
unfolding add_record add merge
available_step s (complete t) h = refl
available_step s (missing t) h = omega (arith, h)

available_cons :
    (r : StatsRecord) (rs : List StatsRecord)
    → available (r ∷ rs) ≡ available (r ∷ []) + available rs
available_cons (complete t) rs = omega arith
available_cons (missing t) rs = omega arith

ranges_cons : (r : StatsRecord) (rs : List StatsRecord) → ranges (r ∷ rs) ≡ range_of r + ranges rs
ranges_cons (complete t) rs = refl
ranges_cons (missing t) rs = refl

counts :
    (rs : List StatsRecord) (s : AggregateStats)
    → s.selected_tables < 2 ^ 64
    → s.available_tables < 2 ^ 64
    → s.index_range < 2 ^ 64
    → ((add_all s rs).selected_tables ≡ (s.selected_tables + length rs) % 2 ^ 64)
      × ((add_all s rs).available_tables ≡ (s.available_tables + available rs) % 2 ^ 64)
      × ((add_all s rs).index_range ≡ (s.index_range + ranges rs) % 2 ^ 64)
counts [] s h h' h'' = (omega arith, omega arith, omega arith)
counts (r ∷ rs) s h h' h'' =
    let (sel, rng) = count_step s r in
    let av = available_step s r h' in
    let (a, b, c) =
      counts rs (add_record s r) (omega (arith, sel)) (omega (arith, av)) (omega (arith, rng)) in
    (
      omega (arith, a, sel),
      omega (arith, b, av, available_cons r rs),
      omega (arith, c, rng, ranges_cons r rs),
    )

-- For any selected records, added one after another to the empty aggregate: the tables selected and
-- available and the index ranges are summed over all records modulo 2 ^ 64, and each optional count
-- is the sum over the tables modulo 2 ^ 64 if all of them are available, and null if one is missing.
pub add_all_lem :
    (rs : List StatsRecord)
    → let s = add_all default rs in
      (s.selected_tables ≡ length rs % 2 ^ 64)
      × (s.available_tables ≡ available rs % 2 ^ 64)
      × (s.index_range ≡ ranges rs % 2 ^ 64)
      × (s.bytes ≡ wrapped (total (λ t. t.bytes) rs))
      × (s.num_frames ≡ wrapped (total (λ t. t.num_frames) rs))
      × (s.unique_positions ≡ wrapped (total (λ t. t.unique_positions) rs))
      × (s.win ≡ wrapped (total (λ t. t.win) rs))
      × (s.draw ≡ wrapped (total (λ t. t.draw) rs))
      × (s.loss ≡ wrapped (total (λ t. t.loss) rs))
      × (s.invalid_opposite_check ≡ wrapped (total (λ t. t.invalid_opposite_check) rs))
      × (s.invalid_ep_squares_occupied ≡ wrapped (total (λ t. t.invalid_ep_squares_occupied) rs))
      × (s.invalid_illegal_ep_capture ≡ wrapped (total (λ t. t.invalid_illegal_ep_capture) rs))
      × (s.redundant ≡ wrapped (total (λ t. t.redundant) rs))
unfolding add_record add merge
add_all_lem rs =
    let (a, b, c) = counts rs default (omega arith) (omega arith) (omega arith) in
    (
      omega (arith, a),
      omega (arith, b),
      omega (arith, c),
      all_total (λ s. s.bytes) (λ t. t.bytes) (λ s t. refl) (λ s t. refl) rs refl,
      all_total (λ s. s.num_frames) (λ t. t.num_frames) (λ s t. refl) (λ s t. refl) rs refl,
      all_total (λ s. s.unique_positions) (λ t. t.unique_positions) (λ s t. refl) (λ s t. refl) rs
          refl,
      all_total (λ s. s.win) (λ t. t.win) (λ s t. refl) (λ s t. refl) rs refl,
      all_total (λ s. s.draw) (λ t. t.draw) (λ s t. refl) (λ s t. refl) rs refl,
      all_total (λ s. s.loss) (λ t. t.loss) (λ s t. refl) (λ s t. refl) rs refl,
      all_total (λ s. s.invalid_opposite_check) (λ t. t.invalid_opposite_check) (λ s t. refl)
          (λ s t. refl) rs refl,
      all_total (λ s. s.invalid_ep_squares_occupied) (λ t. t.invalid_ep_squares_occupied)
          (λ s t. refl) (λ s t. refl) rs refl,
      all_total (λ s. s.invalid_illegal_ep_capture) (λ t. t.invalid_illegal_ep_capture)
          (λ s t. refl) (λ s t. refl) rs refl,
      all_total (λ s. s.redundant) (λ t. t.redundant) (λ s t. refl) (λ s t. refl) rs refl,
    )
