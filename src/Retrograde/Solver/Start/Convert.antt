-- ===== src/Retrograde/Solver/Start/Convert.antt =====
-- The conversions of a position one after another, in `initialize_table` of src/retrograde.rs.
use chess_egt.Common.{
  ℕ, ◌+◌, ◌-◌, ◌%◌, ◌^◌, ◌≤◌, ◌<◌, ◌≡◌, refl, ◌∙◌, true, false, List, [], ◌∷◌, Option, none, some,
  ◌⊎◌, inl, inr, length, leb, if◌then◌else◌, arith, Bool-cases,
}
use chess_egt.Outcome.{ConversionType, ct_rank, MaybeDtcOutcome, is_win, is_loss}
use chess_egt.Retrograde.{ct_gt, loss_rank, better_loss_ct}
use chess_egt.Retrograde.Solver.Start.{Conversions, max_ct, convert, decremented}

abbrev Among : ConversionType → List ConversionType → Type 0
Among ct [] = ⊥
Among ct (x ∷ xs) = (ct ≡ x) ⊎ Among ct xs

abbrev Below : (ConversionType → ℕ) → ConversionType → List ConversionType → Type 0
Below rank ct [] = Unit
Below rank ct (x ∷ xs) = (rank x ≤ rank ct) × Below rank ct xs

-- One of these, and none of them is preferred to it.
abbrev pub IsTop : (ConversionType → ℕ) → ConversionType → List ConversionType → Type 0
IsTop rank ct cts = Among ct cts × Below rank ct cts

abbrev pub IsTopOf : (ConversionType → ℕ) → Option ConversionType → List ConversionType → Type 0
IsTopOf rank none cts = cts ≡ []
IsTopOf rank (some ct) cts = IsTop rank ct cts

abbrev pub consider : Option ConversionType → List ConversionType → List ConversionType
consider none cts = cts
consider (some ct) cts = ct ∷ cts

-- What a choice between two of them does.
abbrev Chooses : (ConversionType → ℕ) → ConversionType → ConversionType → ConversionType → Type 0
Chooses rank c a b = ((c ≡ a) ⊎ (c ≡ b)) × (rank a ≤ rank c) × (rank b ≤ rank c)

IsTop_split :
    (rank : ConversionType → ℕ) (top c a b : ConversionType) (cts : List ConversionType)
    → Chooses rank c a b
    → IsTop rank top (c ∷ cts)
    → IsTop rank top (a ∷ b ∷ cts)
IsTop_split rank top c a b cts (inl e, le, le') (inl e', (h, below)) =
    (inl (e' ∙ e), (omega (arith, le, h), (omega (arith, le', h), below)))
IsTop_split rank top c a b cts (inr e, le, le') (inl e', (h, below)) =
    (inr (inl (e' ∙ e)), (omega (arith, le, h), (omega (arith, le', h), below)))
IsTop_split rank top c a b cts (e, le, le') (inr m, (h, below)) =
    (inr (inr m), (omega (arith, le, h), (omega (arith, le', h), below)))

max_ct-Chooses : (a b : ConversionType) → Chooses ct_rank (max_ct (some a) b) a b
max_ct-Chooses a b = elim (Bool-cases (ct_gt a b)) [
  | inl t ↦ rw t (inl refl, omega arith, ground arith)
  | inr f ↦ rw f (inr refl, ground arith, omega arith)
]

better_loss_ct-Chooses : (a b : ConversionType) → Chooses loss_rank (better_loss_ct (some a) b) a b
unfolding better_loss_ct
better_loss_ct-Chooses a b = elim (Bool-cases (leb (loss_rank b) (loss_rank a))) [
  | inl t ↦ rw t (inl refl, omega arith, ground arith)
  | inr f ↦ rw f (inr refl, ground arith, omega arith)
]

IsTopOf_split :
    (rank : ConversionType → ℕ) (pick : Option ConversionType → ConversionType → ConversionType)
    (o res : Option ConversionType) (b : ConversionType) (cts : List ConversionType)
    → ((a b : ConversionType) → Chooses rank (pick (some a) b) a b)
    → pick none b ≡ b
    → IsTopOf rank res (pick o b ∷ cts)
    → IsTopOf rank res (consider o (b ∷ cts))
IsTopOf_split rank pick none res b cts h e top = rw e at top
IsTopOf_split rank pick (some a) none b cts h e top = cc
IsTopOf_split rank pick (some a) (some res) b cts h e top =
    IsTop_split rank res (pick (some a) b) a b cts (h a b) top

-- A conversion with the outcome of the position it leads to.
abbrev pub Conversion : Type 0
Conversion = ConversionType × MaybeDtcOutcome

-- The conversions to positions that are lost for the other side, and to those that are won for it.
abbrev pub winning : List Conversion → List ConversionType
winning [] = []
winning ((ct, v) ∷ rest) = let cts = winning rest in if is_loss v then ct ∷ cts else cts

abbrev pub losing : List Conversion → List ConversionType
losing [] = []
losing ((ct, v) ∷ rest) =
    let cts = losing rest in if is_loss v then cts else if is_win v then ct ∷ cts else cts

abbrev pub convert_all : List Conversion → Conversions → Conversions
convert_all [] c = c
convert_all ((ct, v) ∷ rest) c = convert_all rest (convert ct v c)

IsTopOf_single :
    (rank : ConversionType → ℕ) (o : Option ConversionType) → IsTopOf rank o (consider o [])
IsTopOf_single rank none = refl
IsTopOf_single rank (some ct) = (inl refl, (omega arith, tt))

module _ (ct : ConversionType) (v : MaybeDtcOutcome) (c : Conversions) where
  abbrev after_loss : Conversions
  after_loss = record c { win_conv = some (max_ct c.win_conv ct) }

  abbrev after_win : Conversions
  after_win = record c {
    counter = decremented c.counter;
    loss_conv = some (better_loss_ct c.loss_conv ct);
  }

  convert_loss : is_loss v ≡ true → convert ct v c ≡ after_loss
  unfolding convert
  convert_loss l = rw l refl

  convert_win : is_loss v ≡ false → is_win v ≡ true → convert ct v c ≡ after_win
  unfolding convert
  convert_win l w = rw (l, w) refl

  convert_other : is_loss v ≡ false → is_win v ≡ false → convert ct v c ≡ c
  unfolding convert
  convert_other l w = rw (l, w) refl

pub win_conv-convert_all :
    (list : List Conversion) (c : Conversions)
    → IsTopOf ct_rank (convert_all list c).win_conv (consider c.win_conv (winning list))
win_conv-convert_all [] c = IsTopOf_single ct_rank c.win_conv
win_conv-convert_all ((ct, v) ∷ rest) c = elim (Bool-cases (is_loss v)) [
  | inl l ↦
      let c' = after_loss ct v c in
      rw (convert_all, convert_loss ct v c l, l)
        (IsTopOf_split ct_rank max_ct c.win_conv (convert_all rest c').win_conv ct (winning rest)
          max_ct-Chooses refl (win_conv-convert_all rest c'))
  | inr l ↦ elim (Bool-cases (is_win v)) [
    | inl w ↦
        rw (convert_all, convert_win ct v c l w, l) (win_conv-convert_all rest (after_win ct v c))
    | inr w ↦ rw (convert_all, convert_other ct v c l w, l) (win_conv-convert_all rest c)
  ]
]

pub loss_conv-convert_all :
    (list : List Conversion) (c : Conversions)
    → IsTopOf loss_rank (convert_all list c).loss_conv (consider c.loss_conv (losing list))
unfolding better_loss_ct
loss_conv-convert_all [] c = IsTopOf_single loss_rank c.loss_conv
loss_conv-convert_all ((ct, v) ∷ rest) c = elim (Bool-cases (is_loss v)) [
  | inl l ↦
      rw (convert_all, convert_loss ct v c l, l) (loss_conv-convert_all rest (after_loss ct v c))
  | inr l ↦ elim (Bool-cases (is_win v)) [
    | inl w ↦
        let c' = after_win ct v c in
        rw (convert_all, convert_win ct v c l w, l, w)
          (IsTopOf_split loss_rank better_loss_ct c.loss_conv (convert_all rest c').loss_conv ct
            (losing rest) better_loss_ct-Chooses refl (loss_conv-convert_all rest c'))
    | inr w ↦ rw (convert_all, convert_other ct v c l w, l, w) (loss_conv-convert_all rest c)
  ]
]

pub counter-convert_all :
    (list : List Conversion) (c : Conversions)
    → length (losing list) ≤ c.counter
    → c.counter < 2 ^ 16
    → (convert_all list c).counter ≡ c.counter - length (losing list)
counter-convert_all [] c le h = omega arith
counter-convert_all ((ct, v) ∷ rest) c le h = elim (Bool-cases (is_loss v)) [
  | inl l ↦
      rw (convert_all, convert_loss ct v c l, l)
        (counter-convert_all rest (after_loss ct v c) (rw l at le) h)
  | inr l ↦ elim (Bool-cases (is_win v)) [
    | inl w ↦
        let le' = rw (l, w) at le in
        let down : (c.counter + (2 ^ 16 - 1)) % 2 ^ 16 ≡ c.counter - 1 = omega (arith, le', h) in
        let ih =
          counter-convert_all rest (after_win ct v c) (omega (arith, down, le'))
            (omega (arith, down, h)) in
        rw (convert_all, convert_win ct v c l w, l, w) (omega (arith, ih, down))
    | inr w ↦
        let le' = rw (l, w) at le in
        rw (convert_all, convert_other ct v c l w, l, w) (counter-convert_all rest c le' h)
  ]
]
