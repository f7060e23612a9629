-- ===== src/Retrograde/Race/Invariant.antt =====
-- What every access to the cell keeps when workers race with `WorkingPair::mark_win`,
-- src/retrograde.rs.
use chess_egt.Common.{
  ℕ, ◌+◌, ◌^◌, ◌≤◌, ◌<◌, ◌≡◌, refl, ap, ◌∙◌, sym, List, [], ◌∷◌, true, some, none, ◌⊎◌, inl, inr,
  arith,
}
use chess_egt.Outcome.{ConversionType, MaybeDtcOutcome, ct_rank, is_unknown, new_win}
use chess_egt.Outcome.Word.{new_win_classes}
use chess_egt.Retrograde.{WinUpdate, outcome_ct, mark_win_round}
use chess_egt.Retrograde.Update.{outcome_ct-new_win, round_on_unknown, round_on_win}
use chess_egt.Retrograde.Race.{
  Phase, ready, holding, returned, Worker, Turn, load, give_up, swap, retry, Step, here, there,
  Reach, start, then_step, fresh, resolvers, types_of, all_ready,
}
use chess_egt.Retrograde.Race.Status.{
  Status, rank_of, written, Written, from_here, from_there, from_old,
}

module _ (plies v : ℕ) where
  abbrev pub cell_of : Status → MaybeDtcOutcome
  cell_of none = v
  cell_of (some b) = new_win b plies

  abbrev pub IsOk : Status → Phase → ConversionType → Type 0
  IsOk s ready ct = Unit
  IsOk s (holding raw) ct = (r : Status) × (raw ≡ cell_of r) × (rank_of r ≤ rank_of s)
  IsOk s (returned u) ct = ct_rank ct < rank_of s

  abbrev pub AllOk : Status → List Worker → Type 0
  AllOk s [] = Unit
  AllOk s ((ct, p) ∷ ws) = IsOk s p ct × AllOk s ws

  IsOk-up :
      (s s' : Status) (p : Phase) (ct : ConversionType)
      → rank_of s ≤ rank_of s'
      → IsOk s p ct
      → IsOk s' p ct
  IsOk-up s s' ready ct le o = tt
  IsOk-up s s' (holding raw) ct le (r, e, h) = (r, e, omega arith)
  IsOk-up s s' (returned u) ct le o = omega arith

  AllOk-up : (s s' : Status) (ws : List Worker) → rank_of s ≤ rank_of s' → AllOk s ws → AllOk s' ws
  AllOk-up s s' [] le o = tt
  AllOk-up s s' ((ct, p) ∷ ws) le o = (IsOk-up s s' p ct le o.0, AllOk-up s s' ws le o.1)

  abbrev fresh_phase : Phase → ℕ
  fresh_phase ready = 0
  fresh_phase (holding raw) = 0
  fresh_phase (returned u) = fresh u

  -- What one access keeps: the new status is the old one, or the worker's own type.
  record Kept (s : Status) (p : Phase) (ct : ConversionType) (c' : MaybeDtcOutcome) (p' : Phase)
      : Type 0 where
    status : Status
    cell : c' ≡ cell_of status
    up : rank_of s ≤ rank_of status
    ok_phase : IsOk status p' ct
    count : fresh_phase p' + written s ≡ fresh_phase p + written status
    from : (status ≡ s) ⊎ (status ≡ some ct)

  module _ (small : plies < 2 ^ 13) (unknown : is_unknown v ≡ true) where
    same_win : (a b : ConversionType) → new_win a plies ≡ new_win b plies → a ≡ b
    same_win a b e = sym (outcome_ct-new_win a plies) ∙ ap outcome_ct e ∙ outcome_ct-new_win b plies

    not_v : (a : ConversionType) → new_win a plies ≡ v → ⊥
    not_v a e = ground (arith, (new_win_classes a plies).0, ap is_unknown e)

    gives_up_late :
        (ct : ConversionType) (r : Status) (raw : ℕ)
        → raw ≡ cell_of r
        → mark_win_round ct plies raw ≡ none
        → ct_rank ct < rank_of r
    gives_up_late ct none raw e g =
        absurd (let f = round_on_unknown ct plies v unknown in let g' = rw e at g in cc (f, g'))
    gives_up_late ct (some a) raw e g =
        let f = round_on_win a ct plies small in let g' = rw e at g in ground (arith, f, g')

    swaps :
        (ct : ConversionType) (s r : Status) (raw word : ℕ) (result : WinUpdate)
        → raw ≡ cell_of r
        → raw ≡ cell_of s
        → mark_win_round ct plies raw ≡ some (word, result)
        → Kept s (holding raw) ct word (returned result)
    swaps ct none none raw word result er es g =
        let f = round_on_unknown ct plies v unknown in
        let g' = rw er at g in
        record {
          status = some ct;
          cell = ground (arith, f, g');
          up = omega arith;
          ok_phase = omega arith;
          count = ground (arith, f, g');
          from = inr refl;
        }
    swaps ct none (some a) raw word result er es g = absurd (not_v a (sym er ∙ es))
    swaps ct (some b) none raw word result er es g = absurd (not_v b (sym es ∙ er))
    swaps ct (some b) (some a) raw word result er es g =
        let same : b ≡ a = same_win b a (sym es ∙ er) in
        let f = round_on_win a ct plies small in
        let g' = rw er at g in
        record {
          status = some ct;
          cell = ground (arith, f, g');
          up = ground (arith, f, g', ap ct_rank same);
          ok_phase = omega arith;
          count = ground (arith, f, g');
          from = inr refl;
        }

    Turn-keeps :
        (s : Status) {c c' : ℕ} {p p' : Phase} (ct : ConversionType)
        → c ≡ cell_of s
        → IsOk s p ct
        → Turn plies ct c p c' p'
        → Kept s p ct c' p'
    Turn-keeps s ct e o (load cell) = record {
      status = s;
      cell = e;
      up = omega arith;
      ok_phase = (s, e, omega arith);
      count = refl;
      from = inl refl;
    }
    Turn-keeps s ct e o (give_up cell raw g) = record {
      status = s;
      cell = e;
      up = omega arith;
      ok_phase = omega (arith, gives_up_late ct o.0 raw o.1 g, o.2);
      count = refl;
      from = inl refl;
    }
    Turn-keeps s ct e o (swap cell raw word result g same) =
        swaps ct s o.0 raw word result o.1 (sym same ∙ e) g
    Turn-keeps s ct e o (retry cell raw word result g) = record {
      status = s;
      cell = e;
      up = omega arith;
      ok_phase = (s, e, omega arith);
      count = refl;
      from = inl refl;
    }

    -- What one access by some worker keeps.
    record KeptAll (s : Status) (ws : List Worker) (c' : MaybeDtcOutcome) (ws' : List Worker)
        : Type 0 where
      status : Status
      cell : c' ≡ cell_of status
      up : rank_of s ≤ rank_of status
      all_ok : AllOk status ws'
      count : resolvers ws' + written s ≡ resolvers ws + written status
      from : (status ≡ s) ⊎ Written status (types_of ws')
      types : types_of ws' ≡ types_of ws

    resolvers_cons :
        (ct : ConversionType) (p : Phase) (ws : List Worker)
        → resolvers ((ct, p) ∷ ws) ≡ fresh_phase p + resolvers ws
    resolvers_cons ct ready ws = omega arith
    resolvers_cons ct (holding raw) ws = omega arith
    resolvers_cons ct (returned u) ws = refl

    Step-keeps :
        (s : Status) {c c' : ℕ} {ws ws' : List Worker}
        → c ≡ cell_of s
        → AllOk s ws
        → Step plies c ws c' ws'
        → KeptAll s ws c' ws'
    Step-keeps s e o (here {p = p} {p' = p'} ct ws t) =
        let k = Turn-keeps s ct e o.0 t in
        record {
          status = k.status;
          cell = k.cell;
          up = k.up;
          all_ok = (k.ok_phase, AllOk-up s k.status ws k.up o.1);
          count = omega (arith, k.count, resolvers_cons ct p ws, resolvers_cons ct p' ws);
          from = from_here s k.status ct (types_of ws) k.from;
          types = refl;
        }
    Step-keeps s e o (there {ws = ws} {ws' = ws'} (ct, p) st) =
        let k = Step-keeps s e o.1 st in
        record {
          status = k.status;
          cell = k.cell;
          up = k.up;
          all_ok = (IsOk-up s k.status p ct k.up o.0, k.all_ok);
          count = omega (arith, k.count, resolvers_cons ct p ws, resolvers_cons ct p ws');
          from = from_there s k.status ct (types_of ws') k.from;
          types = ap (◌∷◌ ct) k.types;
        }

    -- What holds of the cell and the workers at every point.
    pub record Holds (c : MaybeDtcOutcome) (ws : List Worker) : Type 0 where
      pub status : Status
      pub cell : c ≡ cell_of status
      pub all_ok : AllOk status ws
      pub count : resolvers ws ≡ written status
      pub from : Written status (types_of ws)

    Holds-Step :
        {c c' : ℕ} {ws ws' : List Worker} → Holds c ws → Step plies c ws c' ws' → Holds c' ws'
    Holds-Step {ws' = ws'} h st =
        let k = Step-keeps h.status h.cell h.all_ok st in
        record {
          status = k.status;
          cell = k.cell;
          all_ok = k.all_ok;
          count = omega (arith, k.count, h.count);
          from = from_old h.status k.status (types_of ws') (rw k.types h.from) k.from;
        }

    all_ready_ok : (cts : List ConversionType) → AllOk none (all_ready cts)
    all_ready_ok [] = tt
    all_ready_ok (ct ∷ cts) = (tt, all_ready_ok cts)

    none_resolved : (cts : List ConversionType) → resolvers (all_ready cts) ≡ 0
    none_resolved [] = refl
    none_resolved (ct ∷ cts) = none_resolved cts

    pub holds :
        (cts : List ConversionType) {c : ℕ} {ws : List Worker}
        → Reach plies v (all_ready cts) c ws
        → Holds c ws
    holds cts start = record {
      status = none;
      cell = refl;
      all_ok = all_ready_ok cts;
      count = none_resolved cts;
      from = tt;
    }
    holds cts (then_step r st) = Holds-Step (holds cts r) st

    types_all_ready : (cts : List ConversionType) → types_of (all_ready cts) ≡ cts
    types_all_ready [] = refl
    types_all_ready (ct ∷ cts) = ap (◌∷◌ ct) (types_all_ready cts)

    pub types_kept :
        (cts : List ConversionType) {c : ℕ} {ws : List Worker}
        → Reach plies v (all_ready cts) c ws
        → types_of ws ≡ cts
    types_kept cts start = types_all_ready cts
    types_kept cts (then_step r st) =
        let h = holds cts r in
        let k = Step-keeps h.status h.cell h.all_ok st in k.types ∙ types_kept cts r
