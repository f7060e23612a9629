-- ===== src/Retrograde/Solver/Covered.antt =====
-- The summaries of src/retrograde.rs cover the working arrays while the passes write to both.
use chess_egt.Common.{
  ℕ, ◌/◌, ◌^◌, ◌≤◌, ◌<◌, ◌≡◌, refl, sym, ap, ◌∙◌, max, true, false, List, [], inl, inr, get_or, set,
  length, length-set, get_or-set_self, get_or-set_cases, get_or_out, arith, ℕ_discrete, dec_lt,
}
use chess_egt.Common.Grid.{put, put_cases}
use chess_egt.Outcome.{MaybeDtcOutcome, is_loss, is_win}
use chess_egt.Retrograde.{
  ply, outcome_ct, SummaryKind, loss_kind, win_kind, index, PlySummary, bound_of, ply_bound, note,
}
use chess_egt.Retrograde.Summary.{IsSummary, note-IsSummary, size-note, note_self, note_other}
use chess_egt.Retrograde.Solver.{Working, no_summary, summary, load, record_at}

-- The bound of the block of an index is above the ply of the value there, for the value's kind.
abbrev pub Recorded : PlySummary → ℕ → MaybeDtcOutcome → Type 0
Recorded s i v =
    (is_loss v ≡ true → ply v < bound_of s (i / 4096) loss_kind)
    × (is_win v ≡ true → ply v < bound_of s (i / 4096) (win_kind (outcome_ct v)))

pub record IsCovered (w : Working) : Type 0 where
  pub formed : (slot : ℕ) → IsSummary (summary w slot)
  pub aligned : (slot : ℕ) → (summary w slot).size ≡ length (get_or w.values slot [])
  pub recorded : (slot i : ℕ) → Recorded (summary w slot) i (load w slot i)

note_grows :
    (s : PlySummary) (i p b : ℕ) (k k' : SummaryKind)
    → IsSummary s
    → i < s.size
    → bound_of s b k' ≤ bound_of (note s i k p) b k'
note_grows s i p b k k' wf h = elim (ℕ_discrete (i / 4096) b) [
  | no n ↦ omega (arith, note_other s i p b k k' wf h (λ both. n both.0))
  | yes eb ↦ elim (ℕ_discrete (index k) (index k')) [
    | no n ↦ omega (arith, note_other s i p b k k' wf h (λ both. n both.1))
    | yes ek ↦
        let self : bound_of (note s i k p) b k' ≡ max (bound_of s b k') (ply_bound p) =
          rw (sym eb, sym ek) (note_self s i p k wf h) in
        omega (arith, self)
  ]
]

note_above :
    (s : PlySummary) (v i p : ℕ) (k k' : SummaryKind)
    → IsSummary s
    → i < s.size
    → p < 2 ^ 13
    → (k ≡ k') × (ply v ≡ p)
    → ply v < bound_of (note s i k p) (i / 4096) k'
note_above s v i p k k' wf h small (e, e') =
    rw (sym e) (omega (arith, note_self s i p k wf h, small, e'))

-- A summary after a bound was recorded.
module _ (w : Working) (r p plies : ℕ) (k : SummaryKind) (c : IsCovered w)
    (inside : p < length (get_or w.values r [])) where
  slot_inside : r < length w.summaries
  slot_inside = elim (dec_lt r (length w.summaries)) [
    | yes lt ↦ lt
    | no n ↦
        let e = get_or_out w.summaries r no_summary (omega (arith, n)) in
        let size_zero = ap (λ s. s.size) e in absurd (omega (arith, inside, c.aligned r, size_zero))
  ]

  index_inside : p < (summary w r).size
  index_inside = omega (arith, inside, c.aligned r)

  pub summary-record_at_self : summary (record_at w r p k plies) r ≡ note (summary w r) p k plies
  summary-record_at_self =
      get_or-set_self w.summaries r (note (summary w r) p k plies) no_summary slot_inside

  record_at_grows :
      (slot b : ℕ) (k' : SummaryKind)
      → bound_of (summary w slot) b k' ≤ bound_of (summary (record_at w r p k plies) slot) b k'
  record_at_grows slot b k' =
      elim (get_or-set_cases w.summaries r slot (note (summary w r) p k plies) no_summary) [
        | inl e ↦ rw e (omega arith)
        | inr (same, h, e) ↦
            rw (e, sym same) (note_grows (summary w r) p plies b k k' (c.formed r) index_inside)
      ]

  record_at_formed : (slot : ℕ) → IsSummary (summary (record_at w r p k plies) slot)
  record_at_formed slot =
      elim (get_or-set_cases w.summaries r slot (note (summary w r) p k plies) no_summary) [
        | inl e ↦ rw e (c.formed slot)
        | inr (same, h, e) ↦ rw e (note-IsSummary (summary w r) p plies k (c.formed r) index_inside)
      ]

  record_at_size :
      (slot : ℕ) → (summary (record_at w r p k plies) slot).size ≡ (summary w slot).size
  record_at_size slot =
      elim (get_or-set_cases w.summaries r slot (note (summary w r) p k plies) no_summary) [
        | inl e ↦ rw e refl
        | inr (same, h, e) ↦ rw (e, sym same) (size-note (summary w r) p plies k)
      ]

length-put :
    (rows : List (List ℕ)) (r p v slot : ℕ)
    → length (get_or (put rows r p v) slot []) ≡ length (get_or rows slot [])
length-put rows r p v slot = elim (get_or-set_cases rows r slot (set (get_or rows r []) p v) []) [
  | inl e ↦ rw e refl
  | inr (same, h, e) ↦ rw (e, sym same) (length-set (get_or rows r []) p v)
]

Recorded-grows :
    (s s' : PlySummary) (i : ℕ) (v : MaybeDtcOutcome)
    → ((k : SummaryKind) → bound_of s (i / 4096) k ≤ bound_of s' (i / 4096) k)
    → Recorded s i v
    → Recorded s' i v
Recorded-grows s s' i v h (l, w) =
    (λ e. omega (arith, l e, h loss_kind), λ e. omega (arith, w e, h (win_kind (outcome_ct v))))

-- A value that is no win and no loss is written.
pub put-IsCovered :
    (w : Working) (r p v : ℕ)
    → IsCovered w
    → is_win v ≡ false
    → is_loss v ≡ false
    → IsCovered (record w { values = put w.values r p v })
put-IsCovered w r p v c not_win not_loss = record {
  formed = c.formed;
  aligned = λ slot. c.aligned slot ∙ sym (length-put w.values r p v slot);
  recorded = λ slot i. elim (put_cases w.values r p slot i v 0) [
    | inl e ↦ rw e (c.recorded slot i)
    | inr (er, ei, h, e) ↦ rw e (
      λ l. absurd (let x : true ≡ false = sym l ∙ not_loss in cc),
      λ l. absurd (let x : true ≡ false = sym l ∙ not_win in cc),
    )
  ];
}

-- The value is a win or a loss of this kind and ply.
abbrev pub Fits : MaybeDtcOutcome → SummaryKind → ℕ → Type 0
Fits v k plies =
    (is_loss v ≡ true → (k ≡ loss_kind) × (ply v ≡ plies))
    × (is_win v ≡ true → (k ≡ win_kind (outcome_ct v)) × (ply v ≡ plies))

pub record_at-IsCovered :
    (w : Working) (r p v plies : ℕ) (k : SummaryKind)
    → IsCovered w
    → p < length (get_or w.values r [])
    → plies < 2 ^ 13
    → Fits v k plies
    → IsCovered (record_at (record w { values = put w.values r p v }) r p k plies)
record_at-IsCovered w r p v plies k c inside small (fits_loss, fits_win) = record {
  formed = record_at_formed w r p plies k c inside;
  aligned = λ slot.
      record_at_size w r p plies k c inside slot
      ∙ c.aligned slot
      ∙ sym (length-put w.values r p v slot);
  recorded = λ slot i. elim (put_cases w.values r p slot i v 0) [
    | inl e ↦ rw e (
        Recorded-grows (summary w slot) (summary (record_at w r p k plies) slot) i (load w slot i)
          (record_at_grows w r p plies k c inside slot (i / 4096)) (c.recorded slot i))
    | inr (er, ei, h, e) ↦
        let wf = c.formed r in
        let index_in = index_inside w r p plies k c inside in
        rw (e, sym er, sym ei, summary-record_at_self w r p plies k c inside)
          (
            λ l. note_above (summary w r) v p plies k loss_kind wf index_in small (fits_loss l),
            λ l.
                note_above (summary w r) v p plies k (win_kind (outcome_ct v)) wf index_in small
                  (fits_win l),
          )
  ];
}
