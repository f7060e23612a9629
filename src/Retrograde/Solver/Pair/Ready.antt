-- ===== src/Retrograde/Solver/Pair/Ready.antt =====
-- The arrays and summaries with which the loop of `solve_pair`, src/retrograde.rs, starts.
use Prim.Native.String.{String}
use chess_egt.Common.{
  ℕ, zero, suc, ◌+◌, ◌≤◌, ◌≡◌, refl, sym, ap, ◌∙◌, List, [], ◌∷◌, Option, none, some, inl, inr,
  length, get_or, set, EgtResult, ok, err, ◌>>=◌, arith, Bool-cases,
}
use chess_egt.Outcome.{MaybeDtcOutcome, is_unknown}
use chess_egt.Retrograde.{PlySummary}
use chess_egt.Retrograde.Summary.{IsSummary}
use chess_egt.Retrograde.Solver.{Working, no_summary, summary, load}
use chess_egt.Retrograde.Solver.Budget.{unknowns}
use chess_egt.Retrograde.Solver.Covered.{IsCovered, Recorded}
use chess_egt.Retrograde.Solver.Rules.{Chess, Egt, run}
use chess_egt.Retrograde.Solver.Start.{initialize_table}
use chess_egt.Retrograde.Solver.Start.Bounds.{Holds, then_run-Holds}
use chess_egt.Retrograde.Solver.Start.Cover.{
  Initialized, AllInitialized, initialize_table-Holds, zero-CoveredBy,
}
use chess_egt.Retrograde.Solver.Pair.{
  tables, sizes, new_pair, new_array, Prepared, unprepared, prepare_all, prepared, new_summaries,
}

no_summary-IsSummary : IsSummary no_summary
no_summary-IsSummary = record { enough = refl; four = tt }

empty-Recorded : (i : ℕ) → Recorded no_summary i 0
empty-Recorded i = zero-CoveredBy []

nothing-IsCovered : IsCovered (record { values = []; summaries = [] })
nothing-IsCovered = record {
  formed = λ slot. no_summary-IsSummary;
  aligned = λ slot. refl;
  recorded = λ slot i. empty-Recorded i;
}

module _ (size : ℕ) (values : List MaybeDtcOutcome) (s : PlySummary) (rest : Working)
    (h : Initialized size values s) (c : IsCovered rest) where
  abbrev both : Working
  both = record { values = values ∷ rest.values; summaries = s ∷ rest.summaries }

  formed_cons : (slot : ℕ) → IsSummary (summary both slot)
  formed_cons zero = h.2
  formed_cons (suc slot) = c.formed slot

  aligned_cons : (slot : ℕ) → (summary both slot).size ≡ length (get_or both.values slot [])
  aligned_cons zero = h.1 ∙ sym h.0
  aligned_cons (suc slot) = c.aligned slot

  Recorded-cons : (slot i : ℕ) → Recorded (summary both slot) i (load both slot i)
  Recorded-cons zero = h.3
  Recorded-cons (suc slot) = c.recorded slot

  IsCovered-cons : IsCovered both
  IsCovered-cons = record { formed = formed_cons; aligned = aligned_cons; recorded = Recorded-cons }

bind-Holds {ℓ} :
    {A B : Type 0} (P : B → Type ℓ) (x : EgtResult A) (f : A → EgtResult B)
    → ((a : A) → Holds P (run (f a)))
    → Holds P (run (x >>= f))
bind-Holds P (ok a) f h = h a
bind-Holds P (err e) f h = tt

map-Holds {ℓ κ} :
    {A B : Type 0} (Q : A → Type ℓ) (P : B → Type κ) (x : EgtResult A) (f : A → B)
    → Holds Q (run x)
    → ((a : A) → Q a → P (f a))
    → Holds P (run (x >>= (λ a. ok (f a))))
map-Holds Q P (ok a) f q h = h a q
map-Holds Q P (err e) f q h = tt

length-new_pair :
    (reserve : ℕ → Option String) (tables : List (String × ℕ))
    → Holds (λ values. length values ≡ length tables) (run (new_pair reserve tables))
unfolding new_pair
length-new_pair reserve [] = refl
length-new_pair reserve ((table, len) ∷ tables) =
    let Q : List (List MaybeDtcOutcome) → Type 0 = λ values. length values ≡ length tables in
    let P : List (List MaybeDtcOutcome) → Type 0 = λ values. length values ≡ suc (length tables) in
    bind-Holds P (new_array reserve table len)
      (λ values. new_pair reserve tables >>= (λ rest. ok (values ∷ rest)))
      (λ values.
        map-Holds Q P (new_pair reserve tables) (λ rest. values ∷ rest)
          (length-new_pair reserve tables) (λ rest e. ap suc e))

one_slot : {A : Type 0} (xs : List A) (a : A) → length xs ≡ 1 → set xs 0 a ≡ a ∷ []
one_slot [] a e = absurd (omega (arith, e))
one_slot (x ∷ []) a e = refl
one_slot (x ∷ y ∷ xs) a e = absurd (omega (arith, e))

two_slots : {A : Type 0} (xs : List A) (a b : A) → length xs ≡ 2 → set (set xs 0 a) 1 b ≡ a ∷ b ∷ []
two_slots [] a b e = absurd (omega (arith, e))
two_slots (x ∷ []) a b e = absurd (omega (arith, e))
two_slots (x ∷ y ∷ []) a b e = refl
two_slots (x ∷ y ∷ z ∷ xs) a b e = absurd (omega (arith, e))

count-length : (values : List MaybeDtcOutcome) → unknowns (values ∷ []) ≤ length values
count-length [] = omega arith
count-length (v ∷ values) = elim (Bool-cases (is_unknown v)) [
  | inl t ↦ rw t (omega (arith, count-length values))
  | inr f ↦ rw f (omega (arith, count-length values))
]

-- All positions of a pair of tables.
abbrev pub pair_size : {chess : Chess} → Egt chess → Option (Egt chess) → ℕ
pair_size a none = a.index_range
pair_size a (some b) = a.index_range + b.index_range

abbrev pub IsPrepared : ℕ → Prepared → Type 0
IsPrepared size p = IsCovered p.working × (unknowns p.working.values ≤ size)

module _ (chess : Chess) (probe : chess.Position → EgtResult MaybeDtcOutcome)
    (reserve : ℕ → Option String) where
  prepare_one :
      (a : Egt chess) (values : List (List MaybeDtcOutcome))
      → length values ≡ 1
      → Holds (IsPrepared a.index_range) (
          prepare_all chess probe reserve
            (tables chess a none)
            (unprepared values (new_summaries chess (tables chess a none))))
  unfolding tables prepare_all
  prepare_one a values l =
      then_run-Holds (AllInitialized a.index_range) (IsPrepared a.index_range)
        (initialize_table chess a probe) _ (initialize_table-Holds chess a probe)
        (λ t r. rw (one_slot values t.0 l) (
          IsCovered-cons a.index_range t.0 t.1 (record { values = []; summaries = [] }) r
              nothing-IsCovered,
          omega (arith, count-length t.0, r.0),
        ))

  prepare_two :
      (a b : Egt chess) (values : List (List MaybeDtcOutcome))
      → length values ≡ 2
      → Holds (IsPrepared (a.index_range + b.index_range)) (
          prepare_all chess probe reserve
            (tables chess a (some b))
            (unprepared values (new_summaries chess (tables chess a (some b)))))
  unfolding tables prepare_all
  prepare_two a b values l =
      let P = IsPrepared (a.index_range + b.index_range) in
      then_run-Holds (AllInitialized a.index_range) P (initialize_table chess a probe) _
        (initialize_table-Holds chess a probe)
        (λ t r.
          then_run-Holds (AllInitialized b.index_range) P (initialize_table chess b probe) _
            (initialize_table-Holds chess b probe)
            (λ u q. rw (two_slots values t.0 u.0 l) (
              IsCovered-cons a.index_range t.0 t.1
                  (record { values = u.0 ∷ []; summaries = u.1 ∷ [] }) r
                  (IsCovered-cons b.index_range u.0 u.1 (record { values = []; summaries = [] }) q
                    nothing-IsCovered),
              omega (arith, count-length t.0, count-length u.0, r.0, q.0),
            )))

  pub prepared-IsPrepared :
      (a : Egt chess) (b : Option (Egt chess))
      → Holds (IsPrepared (pair_size a b)) (prepared chess probe reserve (tables chess a b))
  unfolding prepared tables
  prepared-IsPrepared a none =
      then_run-Holds _ (IsPrepared a.index_range)
        (run (new_pair reserve (sizes chess (tables chess a none)))) _
        (length-new_pair reserve (sizes chess (tables chess a none))) (prepare_one a)
  prepared-IsPrepared a (some b) =
      then_run-Holds _ (IsPrepared (a.index_range + b.index_range))
        (run (new_pair reserve (sizes chess (tables chess a (some b))))) _
        (length-new_pair reserve (sizes chess (tables chess a (some b)))) (prepare_two a b)
