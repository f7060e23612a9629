-- ===== src/Retrograde/Race/Finish.antt =====
-- That a race with `WorkingPair::mark_win`, src/retrograde.rs, ends: how many accesses the workers need.
use chess_egt.Common.{
  ℕ, ◌+◌, ◌-◌, ◌*◌, ◌≤◌, ◌≡◌, refl, ap, some, true, false, ◌&&◌, ltb→lt, ◌<◌, List, [], ◌∷◌, length,
  ◌==◌, if◌then◌else◌, ◌⊎◌, inl, inr, Option-cases, Bool-cases, ℕ_discrete, arith,
}
use chess_egt.Outcome.{ConversionType, MaybeDtcOutcome, ct_rank, is_unknown, is_win, new_win}
use chess_egt.Outcome.Word.{new_win_classes}
use chess_egt.Retrograde.{WinUpdate, ply, ct_gt, outcome_ct, mark_win_round}
use chess_egt.Retrograde.Update.{outcome_ct-new_win}
use chess_egt.Retrograde.Race.{
  Phase, ready, holding, returned, Worker, Turn, load, give_up, swap, retry, Step, here, there,
  Reach, start, then_step, AllReturned, all_ready,
}

-- How often the cell can still be written.
abbrev level : MaybeDtcOutcome → ℕ
level v = if is_unknown v then 3 else if is_win v then 2 - ct_rank (outcome_ct v) else 0

level-new_win : (ct : ConversionType) (plies : ℕ) → level (new_win ct plies) ≡ 2 - ct_rank ct
level-new_win ct plies =
    let (u, w, _) = new_win_classes ct plies in rw (u, w, outcome_ct-new_win ct plies) refl

level_bound : (v : ℕ) → level v ≤ 3
level_bound v = ground arith

ct_rank_bound : (ct : ConversionType) → ct_rank ct ≤ 2
ct_rank_bound ct = ground arith

-- A word is swapped in for an unknown word, or for a win of a less preferred type.
swapped :
    (ct : ConversionType) (plies v word : ℕ) (u : WinUpdate)
    → mark_win_round ct plies v ≡ some (word, u)
    → (new_win ct plies ≡ word)
      × ((is_unknown v ≡ true)
          ⊎ ((is_unknown v ≡ false) × (is_win v ≡ true) × (ct_gt ct (outcome_ct v) ≡ true)))
unfolding mark_win_round
swapped ct plies v word u e = elim (Bool-cases (is_unknown v)) [
  | inl t ↦ let e' = rw t at e in (cc, inl t)
  | inr f ↦ elim (Bool-cases (is_win v && ply v == plies && ct_gt ct (outcome_ct v))) [
    | inl t ↦ let e' = rw (f, t) at e in (cc, inr (f, ground (arith, t), ground (arith, t)))
    | inr n ↦ let e' = rw (f, n) at e in cc
  ]
]

-- A word that is swapped in takes the cell down.
level_falls :
    (ct : ConversionType) (plies v word : ℕ) (u : WinUpdate)
    → mark_win_round ct plies v ≡ some (word, u)
    → level word + 1 ≤ level v
level_falls ct plies v word u e =
    let (same, why) = swapped ct plies v word u e in
    let low : level word ≡ 2 - ct_rank ct = rw (← same) (level-new_win ct plies) in
    elim why [
      | inl t ↦ rw t (omega (arith, low))
      | inr (f, w, better) ↦
          let less : ct_rank (outcome_ct v) < ct_rank ct = ltb→lt _ _ better in
          rw (f, w) (omega (arith, low, less, ct_rank_bound ct))
    ]

-- The accesses that a worker needs, if only others' writes make its swaps fail.
abbrev cost : ℕ → Worker → ℕ
cost c (ct, ready) = 2 + level c
cost c (ct, holding raw) = (if raw == c then 1 else 2) + level c
cost c (ct, returned u) = 0

abbrev costs : ℕ → List Worker → ℕ
costs c [] = 0
costs c (w ∷ ws) = cost c w + costs c ws

abbrev Falls : ℕ → ℕ → Type 0
Falls c c' = (c' ≡ c) ⊎ (level c' + 1 ≤ level c)

cost-Falls : (c c' : ℕ) (w : Worker) → Falls c c' → cost c' w ≤ cost c w
cost-Falls c c' w (inl e) = let same = ap (λ x. cost x w) e in omega (arith, same)
cost-Falls c c' (ct, ready) (inr l) = omega (arith, l)
cost-Falls c c' (ct, holding raw) (inr l) = ground (arith, l)
cost-Falls c c' (ct, returned u) (inr l) = omega arith

costs-Falls : (c c' : ℕ) (ws : List Worker) → Falls c c' → costs c' ws ≤ costs c ws
costs-Falls c c' [] f = omega arith
costs-Falls c c' (w ∷ ws) f = omega (arith, cost-Falls c c' w f, costs-Falls c c' ws f)

-- A weak compare-and-exchange that fails though the cell holds the word.
abbrev spurious_turn :
    {plies : ℕ} {ct : ConversionType} {c : ℕ} {p : Phase} {c' : ℕ} {p' : Phase}
    → Turn plies ct c p c' p'
    → ℕ
spurious_turn (load c) = 0
spurious_turn (give_up c raw e) = 0
spurious_turn (swap c raw word u e h) = 0
spurious_turn (retry c raw word u e) = if raw == c then 1 else 0

abbrev pub spurious_step :
    {plies c : ℕ} {ws : List Worker} {c' : ℕ} {ws' : List Worker} → Step plies c ws c' ws' → ℕ
spurious_step (here ct ws t) = spurious_turn t
spurious_step (there w st) = spurious_step st

-- The accesses of a run, and the spurious failures among them.
abbrev pub accesses :
    {plies c : ℕ} {ws : List Worker} {c' : ℕ} {ws' : List Worker} → Reach plies c ws c' ws' → ℕ
accesses start = 0
accesses (then_step r st) = accesses r + 1

abbrev pub failures :
    {plies c : ℕ} {ws : List Worker} {c' : ℕ} {ws' : List Worker} → Reach plies c ws c' ws' → ℕ
failures start = 0
failures (then_step r st) = failures r + spurious_step st

module _ (plies : ℕ) where
  Turn-Falls :
      {ct : ConversionType} {c : ℕ} {p : Phase} {c' : ℕ} {p' : Phase}
      → Turn plies ct c p c' p'
      → Falls c c'
  Turn-Falls (load c) = inl refl
  Turn-Falls (give_up c raw e) = inl refl
  Turn-Falls {ct} (swap c raw word u e h) = inr (rw h (level_falls ct plies raw word u e))
  Turn-Falls (retry c raw word u e) = inl refl

  Turn-cost :
      {ct : ConversionType} {c : ℕ} {p : Phase} {c' : ℕ} {p' : Phase} (t : Turn plies ct c p c' p')
      → cost c' (ct, p') + 1 ≤ cost c (ct, p) + spurious_turn t
  Turn-cost (load c) = ground arith
  Turn-cost (give_up c raw e) = ground arith
  Turn-cost (swap c raw word u e h) = ground arith
  Turn-cost (retry c raw word u e) = ground arith

  Step-Falls :
      {c : ℕ} {ws : List Worker} {c' : ℕ} {ws' : List Worker} → Step plies c ws c' ws' → Falls c c'
  Step-Falls (here ct ws t) = Turn-Falls t
  Step-Falls (there w st) = Step-Falls st

  Step-cost :
      {c : ℕ} {ws : List Worker} {c' : ℕ} {ws' : List Worker} (st : Step plies c ws c' ws')
      → costs c' ws' + 1 ≤ costs c ws + spurious_step st
  Step-cost {c} {c' = c'} (here ct ws t) =
      omega (arith, Turn-cost t, costs-Falls c c' ws (Turn-Falls t))
  Step-cost {c} {c' = c'} (there w st) =
      omega (arith, Step-cost st, cost-Falls c c' w (Step-Falls st))

  Reach-cost :
      {c : ℕ} {ws : List Worker} {c' : ℕ} {ws' : List Worker} (r : Reach plies c ws c' ws')
      → costs c' ws' + accesses r ≤ costs c ws + failures r
  Reach-cost start = omega arith
  Reach-cost (then_step r st) = omega (arith, Reach-cost r, Step-cost st)

  costs-all_ready : (c : ℕ) (cts : List ConversionType) → costs c (all_ready cts) ≤ 5 * length cts
  costs-all_ready c [] = omega arith
  costs-all_ready c (ct ∷ cts) = omega (arith, costs-all_ready c cts, level_bound c)

  -- A next access that is no spurious failure.
  abbrev pub Goes : ℕ → List Worker → Type 0
  Goes c ws =
      (c' : ℕ) × (ws' : List Worker) × (st : Step plies c ws c' ws') × (spurious_step st ≡ 0)

  holding-Goes :
      (c raw : ℕ) (ct : ConversionType) (ws : List Worker) → Goes c ((ct, holding raw) ∷ ws)
  holding-Goes c raw ct ws = elim (Option-cases (mark_win_round ct plies raw)) [
    | inl e ↦ (c, _, here ct ws (give_up c raw e), refl)
    | inr ((word, u), e) ↦ elim (ℕ_discrete c raw) [
      | yes same ↦ (word, _, here ct ws (swap c raw word u e same), refl)
      | no other ↦ (c, _, here ct ws (retry c raw word u e), ground (arith, other))
    ]
  ]

  returned_or_Goes : (c : ℕ) (ws : List Worker) → AllReturned ws ⊎ Goes c ws
  returned_or_Goes c [] = inl tt
  returned_or_Goes c ((ct, ready) ∷ ws) = inr (c, _, here ct ws (load c), refl)
  returned_or_Goes c ((ct, holding raw) ∷ ws) = inr (holding-Goes c raw ct ws)
  returned_or_Goes c ((ct, returned u) ∷ ws) = elim (returned_or_Goes c ws) [
    | inl all ↦ inl all
    | inr (c', ws', st, e) ↦ inr (c', _, there (ct, returned u) st, e)
  ]

-- From the start of any number of `mark_win` calls on one cell, however their accesses interleave,
-- they take at most five accesses for each call and one for each spurious failure of a
-- compare-and-exchange; and in every state that they reach, all have returned or there is a next
-- access that is no spurious failure.
pub race_ends :
    (plies c : ℕ) (cts : List ConversionType) {c' : ℕ} {ws' : List Worker}
    (r : Reach plies c (all_ready cts) c' ws')
    → (accesses r ≤ 5 * length cts + failures r) × (AllReturned ws' ⊎ Goes plies c' ws')
race_ends plies c cts {c'} {ws'} r =
    (omega (arith, Reach-cost plies r, costs-all_ready plies c cts), returned_or_Goes plies c' ws')
