-- ===== src/Retrograde/Summary.antt =====
-- What the block summaries of src/retrograde.rs hold: the bounds that `PlySummary::record` leaves.
pub mod Blocks
use chess_egt.Common.{
  ℕ, zero, suc, ◌+◌, ◌-◌, ◌*◌, ◌/◌, ◌%◌, ◌^◌, ◌≤◌, ◌<◌, ◌≡◌, ◌≢◌, refl, ap, ◌∙◌, sym, ◌⊎◌, inl, inr,
  ◌↔◌, max, Bool, true, false, ◌&&◌, Bool-cases, List, [], ◌∷◌, ltb, leb, ◌==◌, ==_iff,
  if◌then◌else◌, get_or, set, replicate, length, length-set, length-replicate, get_or-set_self,
  get_or-set_ne, arith, ℕ_discrete,
}
use chess_egt.Common.Grid.{put_self, put_ne}
use chess_egt.Outcome.{promotion, capture, checkmate}
use chess_egt.Retrograde.{
  summary_block_size, SummaryKind, loss_kind, win_kind, index, BlockSummary, PlySummary, div_ceil,
  new_summary, bound_of, ply_bound, note,
}

abbrev pub AllFour : List BlockSummary → Type 0
AllFour [] = Unit
AllFour (b ∷ bs) = (length b ≡ 4) × AllFour bs

-- As `PlySummary::new` allocates it: a block for every 4096 positions, four bounds in each.
pub record IsSummary (s : PlySummary) : Type 0 where
  pub enough : length s.blocks ≡ div_ceil s.size summary_block_size
  pub four : AllFour s.blocks

AllFour-set :
    (bs : List BlockSummary) (i : ℕ) (b : BlockSummary)
    → AllFour bs
    → length b ≡ 4
    → AllFour (set bs i b)
AllFour-set [] i b all e = tt
AllFour-set (x ∷ bs) zero b all e = (e, all.1)
AllFour-set (x ∷ bs) (suc i) b all e = (all.0, AllFour-set bs i b all.1 e)

AllFour-get :
    (bs : List BlockSummary) (i : ℕ) → AllFour bs → i < length bs → length (get_or bs i []) ≡ 4
AllFour-get [] i all h = elim h [ ]
AllFour-get (x ∷ bs) zero all h = all.0
AllFour-get (x ∷ bs) (suc i) all h = AllFour-get bs i all.1 (omega arith)

AllFour-replicate : (n : ℕ) → AllFour (replicate n (replicate 4 0))
AllFour-replicate zero = tt
AllFour-replicate (suc n) = (refl, AllFour-replicate n)

pub new_summary-IsSummary : (size : ℕ) → IsSummary (new_summary size)
unfolding new_summary
new_summary-IsSummary size = record {
  enough = length-replicate (div_ceil size summary_block_size) (replicate 4 0);
  four = AllFour-replicate (div_ceil size summary_block_size);
}

pub index_lt : (k : SummaryKind) → index k < 4
index_lt loss_kind = omega arith
index_lt (win_kind checkmate) = omega arith
index_lt (win_kind capture) = omega arith
index_lt (win_kind promotion) = omega arith

in_blocks : (s : PlySummary) (i : ℕ) → IsSummary s → i < s.size → i / 4096 < length s.blocks
in_blocks s i wf h = omega (arith, wf.enough)

four_at :
    (s : PlySummary) (i : ℕ) → IsSummary s → i < s.size → length (get_or s.blocks (i / 4096) []) ≡ 4
four_at s i wf h = AllFour-get s.blocks (i / 4096) wf.four (in_blocks s i wf h)

pub note-IsSummary :
    (s : PlySummary) (i p : ℕ) (k : SummaryKind)
    → IsSummary s
    → i < s.size
    → IsSummary (note s i k p)
unfolding note
note-IsSummary s i p k wf h =
    elim (Bool-cases (ltb (get_or (get_or s.blocks (i / 4096) []) (index k) 0) (ply_bound p))) [
      | inl t ↦ rw t (record {
        enough = length-set s.blocks (i / 4096) _ ∙ wf.enough;
        four =
            AllFour-set s.blocks (i / 4096) _ wf.four
              (length-set (get_or s.blocks (i / 4096) []) (index k) _ ∙ four_at s i wf h);
      })
      | inr f ↦ rw f wf
    ]

pub size-note : (s : PlySummary) (i p : ℕ) (k : SummaryKind) → (note s i k p).size ≡ s.size
unfolding note
size-note s i p k = ground arith

-- The bound that is recorded is raised to the ply and 1.
pub note_self :
    (s : PlySummary) (i p : ℕ) (k : SummaryKind)
    → IsSummary s
    → i < s.size
    → bound_of (note s i k p) (i / 4096) k ≡ max (bound_of s (i / 4096) k) (ply_bound p)
unfolding note
note_self s i p k wf h =
    elim (Bool-cases (ltb (get_or (get_or s.blocks (i / 4096) []) (index k) 0) (ply_bound p))) [
      | inl t ↦ rw t (
          put_self s.blocks (i / 4096) (index k) _ 0 (in_blocks s i wf h)
            (omega (arith, four_at s i wf h, index_lt k)))
      | inr f ↦ rw f (ground arith)
    ]

pub note_other :
    (s : PlySummary) (i p b : ℕ) (k k' : SummaryKind)
    → IsSummary s
    → i < s.size
    → ((i / 4096 ≡ b) × (index k ≡ index k') → ⊥)
    → bound_of (note s i k p) b k' ≡ bound_of s b k'
unfolding note
note_other s i p b k k' wf h ne =
    elim (Bool-cases (ltb (get_or (get_or s.blocks (i / 4096) []) (index k) 0) (ply_bound p))) [
      | inl t ↦ rw t (put_ne s.blocks (i / 4096) (index k) b (index k') _ 0 (in_blocks s i wf h) ne)
      | inr f ↦ rw f refl
    ]
