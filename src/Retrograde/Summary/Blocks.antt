-- ===== src/Retrograde/Summary/Blocks.antt =====
-- The blocks that `PlySummary::blocks_with` gives after any calls of `record`, src/retrograde.rs.
use chess_egt.Common.{
  ℕ, zero, suc, ◌+◌, ◌/◌, ◌≤◌, ◌<◌, ◌≡◌, refl, ap, ◌∙◌, sym, ◌⊎◌, inl, inr, ◌↔◌, max, true,
  Bool-cases, List, [], ◌∷◌, leb, get_or, replicate, arith, ℕ_discrete, dec_le, leb→le,
}
use chess_egt.Outcome.{promotion, capture, checkmate}
use chess_egt.Retrograde.{
  SummaryKind, loss_kind, win_kind, index, BlockSummary, PlySummary, new_summary, bound_of,
  ply_bound, note, blocks_from, blocks_with,
}
use chess_egt.Retrograde.Summary.{
  IsSummary, new_summary-IsSummary, note-IsSummary, size-note, note_self, note_other,
}

-- One call of `record`.
pub record Entry : Type 0 where
  pub at : ℕ
  pub kind : SummaryKind
  pub plies : ℕ

-- The summary after some calls, the last call first.
abbrev pub note_all : ℕ → List Entry → PlySummary
note_all size [] = new_summary size
note_all size (e ∷ es) = note (note_all size es) e.at e.kind e.plies

abbrev AllInside : ℕ → List Entry → Type 0
AllInside size [] = Unit
AllInside size (e ∷ es) = (e.at < size) × (e.plies < 65535) × AllInside size es

-- Some call was for this block and kind, at this ply or a later one.
abbrev pub Noted : ℕ → SummaryKind → ℕ → List Entry → Type 0
Noted b k q [] = ⊥
Noted b k q (e ∷ es) = ((e.at / 4096 ≡ b) × (e.kind ≡ k) × (q ≤ e.plies)) ⊎ Noted b k q es

-- Some range of the list contains the index.
abbrev pub Covers : ℕ → List (ℕ × ℕ) → Type 0
Covers i [] = ⊥
Covers i ((low, high) ∷ rest) = ((low ≤ i) × (i < high)) ⊎ Covers i rest

abbrev kind_at : ℕ → SummaryKind
kind_at zero = loss_kind
kind_at (suc zero) = win_kind checkmate
kind_at (suc (suc zero)) = win_kind capture
kind_at (suc (suc (suc n))) = win_kind promotion

kind_at-index : (k : SummaryKind) → kind_at (index k) ≡ k
kind_at-index loss_kind = refl
kind_at-index (win_kind checkmate) = refl
kind_at-index (win_kind capture) = refl
kind_at-index (win_kind promotion) = refl

index_injective : (a b : SummaryKind) → index a ≡ index b → a ≡ b
index_injective a b e = sym (kind_at-index a) ∙ ap kind_at e ∙ kind_at-index b

all_IsSummary :
    (size : ℕ) (es : List Entry)
    → AllInside size es
    → IsSummary (note_all size es) × ((note_all size es).size ≡ size)
unfolding new_summary
all_IsSummary size [] all = (new_summary-IsSummary size, refl)
all_IsSummary size (e ∷ es) all =
    let (wf, same) = all_IsSummary size es all.2 in
    (
      note-IsSummary (note_all size es) e.at e.plies e.kind wf (omega (arith, same, all.0)),
      size-note (note_all size es) e.at e.plies e.kind ∙ same,
    )

four_zeros : (k : SummaryKind) → get_or {A = ℕ} (replicate 4 0) (index k) 0 ≡ 0
four_zeros loss_kind = refl
four_zeros (win_kind checkmate) = refl
four_zeros (win_kind capture) = refl
four_zeros (win_kind promotion) = refl

no_bounds :
    (n b : ℕ) (k : SummaryKind)
    → get_or {A = ℕ} (get_or (replicate n (replicate 4 0)) b []) (index k) 0 ≡ 0
no_bounds zero b k = refl
no_bounds (suc n) zero k = four_zeros k
no_bounds (suc n) (suc b) k = no_bounds n b k

no_bound : (size b : ℕ) (k : SummaryKind) → bound_of (new_summary size) b k ≡ 0
unfolding new_summary
no_bound size b k = ground (arith, no_bounds ((size + 4095) / 4096) b k)

noted_elsewhere :
    (s : PlySummary) (e : Entry) (b q : ℕ) (k : SummaryKind)
    → IsSummary s
    → e.at < s.size
    → ((e.at / 4096 ≡ b) × (index e.kind ≡ index k) → ⊥)
    → (q < bound_of (note s e.at e.kind e.plies) b k)
      ↔ ((((e.at / 4096 ≡ b) × (e.kind ≡ k) × (q ≤ e.plies))) ⊎ (q < bound_of s b k))
noted_elsewhere s e b q k wf h ne =
    let other = note_other s e.at e.plies b e.kind k wf h ne in
    (
      λ lt. inr (omega (arith, other, lt)),
      λ c. elim c [
        | inl (u, w, le) ↦ absurd (ne (u, ap index w))
        | inr lt ↦ omega (arith, other, lt)
      ],
    )

noted_self :
    (s : PlySummary) (e : Entry) (b q : ℕ) (k : SummaryKind)
    → IsSummary s
    → e.at < s.size
    → e.plies < 65535
    → e.at / 4096 ≡ b
    → e.kind ≡ k
    → (q < bound_of (note s e.at e.kind e.plies) b k)
      ↔ ((((e.at / 4096 ≡ b) × (e.kind ≡ k) × (q ≤ e.plies))) ⊎ (q < bound_of s b k))
noted_self s e b q k wf h small eb same =
    let self = note_self s e.at e.plies e.kind wf h in
    let self' : bound_of (note s e.at e.kind e.plies) b k
        ≡ max (bound_of s b k) (ply_bound e.plies) =
      rw (sym eb, sym (ap index same)) self in
    (
      λ lt. elim (dec_le q e.plies) [
        | yes le ↦ inl (eb, same, le)
        | no n ↦ inr (omega (arith, self', lt, n, small))
      ],
      λ c. elim c [
        | inl (u, w, le) ↦ omega (arith, self', le, small)
        | inr lt ↦ omega (arith, self', lt)
      ],
    )

noted_here :
    (s : PlySummary) (e : Entry) (b q : ℕ) (k : SummaryKind)
    → IsSummary s
    → e.at < s.size
    → e.plies < 65535
    → (q < bound_of (note s e.at e.kind e.plies) b k)
      ↔ ((((e.at / 4096 ≡ b) × (e.kind ≡ k) × (q ≤ e.plies))) ⊎ (q < bound_of s b k))
noted_here s e b q k wf h small = elim (ℕ_discrete (e.at / 4096) b) [
  | no n ↦ noted_elsewhere s e b q k wf h (λ both. n both.0)
  | yes eb ↦ elim (ℕ_discrete (index e.kind) (index k)) [
    | no n ↦ noted_elsewhere s e b q k wf h (λ both. n both.1)
    | yes ek ↦ noted_self s e b q k wf h small eb (index_injective e.kind k ek)
  ]
]

Noted-bound :
    (size : ℕ) (es : List Entry) (b q : ℕ) (k : SummaryKind)
    → AllInside size es
    → (q < bound_of (note_all size es) b k) ↔ Noted b k q es
Noted-bound size [] b q k all = (λ h. omega (arith, no_bound size b k, h), λ h. elim h [ ])
Noted-bound size (e ∷ es) b q k all =
    let (wf, same) = all_IsSummary size es all.2 in
    let (to, of) = noted_here (note_all size es) e b q k wf (omega (arith, same, all.0)) all.1 in
    let (to', of') = Noted-bound size es b q k all.2 in
    (
      λ h. elim (to h) [ inl x ↦ inl x | inr y ↦ inr (to' y) ],
      λ n. elim n [ inl x ↦ of (inl x) | inr y ↦ of (inr (of' y)) ],
    )

Covers-to :
    (size b i bound x : ℕ) (k : SummaryKind) (bs : List BlockSummary)
    → x / 4096 ≡ b + i
    → 0 < bound
    → x < size
    → bound ≤ get_or (get_or bs i []) (index k) 0
    → Covers x (blocks_from size b k bound bs)
unfolding blocks_from
Covers-to size b i bound x k [] e p h le = omega (arith, p, le)
Covers-to size b zero bound x k (y ∷ bs) e p h le =
    let t : leb bound (get_or y (index k) 0) ≡ true = ground (arith, le) in
    rw t (inl (omega (arith, e), omega (arith, e, h)))
Covers-to size b (suc i) bound x k (y ∷ bs) e p h le =
    let c = Covers-to size (b + 1) i bound x k bs (omega arith) p h le in
    elim (Bool-cases (leb bound (get_or y (index k) 0))) [ inl t ↦ rw t (inr c) | inr f ↦ rw f c ]

later :
    (size b bound x : ℕ) (k : SummaryKind) (y : BlockSummary) (bs : List BlockSummary)
    → ((i : ℕ) × (x / 4096 ≡ b + 1 + i) × (bound ≤ get_or (get_or bs i []) (index k) 0))
    → (i : ℕ) × (x / 4096 ≡ b + i) × (bound ≤ get_or (get_or (y ∷ bs) i []) (index k) 0)
later size b bound x k y bs (i, e, h) = (suc i, omega arith, h)

Covers-of :
    (size b bound x : ℕ) (k : SummaryKind) (bs : List BlockSummary)
    → Covers x (blocks_from size b k bound bs)
    → (i : ℕ) × (x / 4096 ≡ b + i) × (bound ≤ get_or (get_or bs i []) (index k) 0)
unfolding blocks_from
Covers-of size b bound x k [] c = elim c [ ]
Covers-of size b bound x k (y ∷ bs) c = elim (Bool-cases (leb bound (get_or y (index k) 0))) [
  | inl t ↦ elim (rw t at c) [
    | inl (low, high) ↦ (0, omega (arith, low, high), leb→le bound (get_or y (index k) 0) t)
    | inr c' ↦ later size b bound x k y bs (Covers-of size (b + 1) bound x k bs c')
  ]
  | inr f ↦ later size b bound x k y bs (Covers-of size (b + 1) bound x k bs (rw f at c))
]

bound_at :
    (bs : List BlockSummary) (b q : ℕ) (k : SummaryKind)
    → q < 65535
    → ((i : ℕ) × (b ≡ 0 + i) × (ply_bound q ≤ get_or (get_or bs i []) (index k) 0))
    → q < get_or (get_or bs b []) (index k) 0
bound_at bs b q k small (i, e, le) =
    let same : i ≡ b = omega arith in omega (arith, small, rw same at le)

-- After any calls of `record` for positions of the table and plies below 2 ^ 16 - 1, the ranges
-- that `blocks_with` gives for a kind and a ply contain a position if and only if some call was for a
-- position of its block with that kind, at that ply or a later one.
pub blocks_with-note_all :
    (size : ℕ) (es : List Entry) (x q : ℕ) (k : SummaryKind)
    → AllInside size es
    → x < size
    → q < 65535
    → Covers x (blocks_with (note_all size es) k q) ↔ Noted (x / 4096) k q es
unfolding blocks_with
blocks_with-note_all size es x q k all h small =
    let (wf, same) = all_IsSummary size es all in
    let (to, of) = Noted-bound size es (x / 4096) q k all in
    (
      λ c. to (
          bound_at (note_all size es).blocks (x / 4096) q k small
            (Covers-of (note_all size es).size 0 (ply_bound q) x k (note_all size es).blocks c)),
      λ n.
          let lt = of n in
          Covers-to (note_all size es).size 0 (x / 4096) (ply_bound q) x k (note_all size es).blocks
            (omega arith) (omega (arith, small)) (omega (arith, same, h))
            (omega (arith, lt, small)),
    )
