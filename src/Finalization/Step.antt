-- ===== src/Finalization/Step.antt =====
-- What one record of an outcome leaves in the statistics, src/finalization_stats.rs, by the class of
-- the cell.
use chess_egt.Common.{
  ℕ, ◌≡◌, refl, sym, Bool, true, false, Bool-cases, inl, inr, not, ◌&&◌, List, ◌++◌, Option, ltb,
  ◌==◌, if◌then◌else◌, arith,
}
use mathlib.Core.List.{append-nil}
use chess_egt.Outcome.{is_win, is_loss, is_draw}
use chess_egt.Outcome.Word.{win_not_loss, draw_classes}
use chess_egt.Stats.{Histogram, add_entry}
use chess_egt.Stats.Merge.{
  lookup, IsHistogram, add_entry-IsHistogram, lookup-add_entry, add_entries_lem,
}
use chess_egt.Finalization.{
  TableStats, Cell, Maxima, is_behind, word_ply, push_if, record_outcome, merge_part,
}
use chess_egt.Finalization.Tally.{raised, only}

abbrev pub Fine : TableStats → Type 0
Fine s = IsHistogram s.histograms.0 × IsHistogram s.histograms.1

push_if-only : (b : Bool) (i : ℕ) (l : List ℕ) → push_if b i l ≡ l ++ only b i
push_if-only true i l = refl
push_if-only false i l = sym (append-nil l)

pub joined : (t s : TableStats) → Fine t → Fine s → Fine (merge_part t s)
unfolding merge_part
joined t s g h = ((add_entries_lem _ _ h.0 g.0).0, (add_entries_lem _ _ h.1 g.1).0)

module _ (diagonal_symmetric : ℕ → Option ℕ) (maxima : Maxima) where
  -- The other index of a symmetric pair is counted, not this one.
  abbrev pub is_redundant : Cell → Bool
  is_redundant c = is_behind (diagonal_symmetric c.1) c.1

  abbrev pub won : Cell → Bool
  won c = not (is_redundant c) && is_win c.0

  abbrev pub lost : Cell → Bool
  lost c = not (is_redundant c) && is_loss c.0

  abbrev pub drawn : Cell → Bool
  drawn c = not (is_redundant c) && is_draw c.0

  abbrev pub longest_win : Cell → Bool
  longest_win c = won c && (word_ply c.0 == maxima.0 && ltb 0 maxima.0)

  abbrev pub longest_loss : Cell → Bool
  longest_loss c = lost c && word_ply c.0 == maxima.1

  data Class (c : Cell) : Type 0 where
    behind : is_redundant c ≡ true → Class c
    wins :
        is_redundant c ≡ false
        → is_win c.0 ≡ true
        → is_loss c.0 ≡ false
        → is_draw c.0 ≡ false
        → Class c
    loses :
        is_redundant c ≡ false
        → is_win c.0 ≡ false
        → is_loss c.0 ≡ true
        → is_draw c.0 ≡ false
        → Class c
    draws :
        is_redundant c ≡ false
        → is_win c.0 ≡ false
        → is_loss c.0 ≡ false
        → is_draw c.0 ≡ true
        → Class c
    neither :
        is_redundant c ≡ false
        → is_win c.0 ≡ false
        → is_loss c.0 ≡ false
        → is_draw c.0 ≡ false
        → Class c

  class_of : (c : Cell) → Class c
  class_of c = elim (Bool-cases (is_redundant c)) [
    | inl t ↦ behind t
    | inr f ↦ elim (Bool-cases (is_draw c.0)) [
      | inl d ↦ draws f (draw_classes c.0 d).0 (draw_classes c.0 d).1 d
      | inr d ↦ elim (Bool-cases (is_win c.0)) [
        | inl w ↦ wins f w (win_not_loss c.0 w) d
        | inr w ↦ elim (Bool-cases (is_loss c.0)) [
          | inl l ↦ loses f w l d
          | inr l ↦ neither f w l d
        ]
      ]
    ]
  ]

  -- What one record leaves, field by field
  abbrev pub after_record : Cell → TableStats → TableStats
  after_record c s = record {
    win = raised (won c) s.win;
    draw = raised (drawn c) s.draw;
    loss = raised (lost c) s.loss;
    redundant = raised (is_redundant c) s.redundant;
    histograms = (
      if won c then add_entry (word_ply c.0) 1 s.histograms.0 else s.histograms.0,
      if lost c then add_entry (word_ply c.0) 1 s.histograms.1 else s.histograms.1,
    );
    candidates =
        (s.candidates.0 ++ only (longest_win c) c.1, s.candidates.1 ++ only (longest_loss c) c.1);
  }

  pub record_outcome-after :
      (c : Cell) (s : TableStats) → record_outcome diagonal_symmetric maxima c s ≡ after_record c s
  unfolding record_outcome
  record_outcome-after c s = elim (class_of c) [
    | behind t ↦ rw (t, append-nil s.candidates.0, append-nil s.candidates.1) refl
    | wins f w l d ↦
        rw
          (
            f,
            w,
            l,
            d,
            append-nil s.candidates.1,
            push_if-only (word_ply c.0 == maxima.0 && ltb 0 maxima.0) c.1 s.candidates.0,
          )
          refl
    | loses f w l d ↦
        rw
          (
            f,
            w,
            l,
            d,
            append-nil s.candidates.0,
            push_if-only (word_ply c.0 == maxima.1) c.1 s.candidates.1,
          )
          refl
    | draws f w l d ↦ rw (f, w, l, d, append-nil s.candidates.0, append-nil s.candidates.1) refl
    | neither f w l d ↦ rw (f, w, l, d, append-nil s.candidates.0, append-nil s.candidates.1) refl
  ]

  entered :
      (b : Bool) (p : ℕ) (h : Histogram)
      → IsHistogram h
      → IsHistogram (if b then add_entry p 1 h else h)
  entered true p h w = add_entry-IsHistogram p 1 h (omega arith) w
  entered false p h w = w

  pub lookup-entered :
      (q p : ℕ) (b : Bool) (h : Histogram)
      → IsHistogram h
      → lookup q (if b then add_entry p 1 h else h) ≡ raised (b && q == p) (lookup q h)
  lookup-entered q p true h w = lookup-add_entry q p 1 h (omega arith) w
  lookup-entered q p false h w = refl

  pub recorded :
      (c : Cell) (s : TableStats) → Fine s → Fine (record_outcome diagonal_symmetric maxima c s)
  recorded c s h =
      rw (record_outcome-after c s)
        (entered (won c) (word_ply c.0) _ h.0, entered (lost c) (word_ply c.0) _ h.1)
