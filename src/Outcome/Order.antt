-- ===== src/Outcome/Order.antt =====
-- The order of outcomes, `impl Ord for DtcOutcome` of src/lib.rs.
use Prim.Native.Nat.{Ordering}
use chess_egt.Common.{ℕ, ◌+◌, ◌-◌, ◌*◌, ◌^◌, ◌<◌, compare, ◌≡◌, ◌≢◌, ◌↔◌, refl, arith}
use chess_egt.Outcome.{
  ConversionType, promotion, capture, checkmate, DtcOutcome, win, draw, loss, ct_rank, cmp,
}

abbrev pub swap : Ordering → Ordering
swap Ordering.lt = Ordering.gt
swap Ordering.eq = Ordering.eq
swap Ordering.gt = Ordering.lt

pub ct_rank_injective : (a b : ConversionType) → ct_rank a ≡ ct_rank b → a ≡ b
ct_rank_injective promotion promotion h = refl
ct_rank_injective promotion capture h = absurd (omega arith)
ct_rank_injective promotion checkmate h = absurd (omega arith)
ct_rank_injective capture promotion h = absurd (omega arith)
ct_rank_injective capture capture h = refl
ct_rank_injective capture checkmate h = absurd (omega arith)
ct_rank_injective checkmate promotion h = absurd (omega arith)
ct_rank_injective checkmate capture h = absurd (omega arith)
ct_rank_injective checkmate checkmate h = refl

pub cmp-swap : (a b : DtcOutcome) → cmp b a ≡ swap (cmp a b)
unfolding cmp
cmp-swap (win c n) (win d m) = ground arith
cmp-swap (loss c n) (loss d m) = ground arith
cmp-swap draw draw = refl
cmp-swap (win c n) draw = refl
cmp-swap (win c n) (loss d m) = refl
cmp-swap draw (win d m) = refl
cmp-swap draw (loss d m) = refl
cmp-swap (loss c n) (win d m) = refl
cmp-swap (loss c n) draw = refl

cmp-eq : (a b : DtcOutcome) → cmp a b ≡ Ordering.eq → a ≡ b
unfolding cmp
cmp-eq (win c n) (win d m) h = ground (arith, ct_rank_injective c d)
cmp-eq (loss c n) (loss d m) h = ground (arith, ct_rank_injective c d)
cmp-eq draw draw h = refl
cmp-eq (win c n) draw h = cc
cmp-eq (win c n) (loss d m) h = cc
cmp-eq draw (win d m) h = cc
cmp-eq draw (loss d m) h = cc
cmp-eq (loss c n) (win d m) h = cc
cmp-eq (loss c n) draw h = cc

pub cmp_refl : (a : DtcOutcome) → cmp a a ≡ Ordering.eq
unfolding cmp
cmp_refl (win c n) = ground arith
cmp_refl draw = refl
cmp_refl (loss c n) = ground arith

-- The better conversion type for the winner.
abbrev prestige : ConversionType → ℕ
prestige promotion = 0
prestige capture = 1
prestige checkmate = 2

-- How good an outcome is, for plies below 2 ^ 16: a loss is worth less the sooner it comes, a draw
-- more than any loss, and a win more than a draw and the more the sooner it comes. Of wins at one
-- ply, a checkmate is worth most and a promotion least; of losses, the other way round.
abbrev pub worth : DtcOutcome → ℕ
worth (loss ct n) = 3 * n + (2 - prestige ct)
worth draw = 3 * 2 ^ 16
worth (win ct n) = 3 * 2 ^ 16 + 3 * (2 ^ 16 - n) + prestige ct

abbrev pub PlyFits : DtcOutcome → Type 0
PlyFits (win ct n) = n < 2 ^ 16
PlyFits draw = Unit
PlyFits (loss ct n) = n < 2 ^ 16

prestige_lem : (ct : ConversionType) → (ct_rank ct ≡ prestige ct) × (prestige ct < 3)
prestige_lem promotion = (refl, omega arith)
prestige_lem capture = (refl, omega arith)
prestige_lem checkmate = (refl, omega arith)

compare-worth : (a b : DtcOutcome) → PlyFits a → PlyFits b → cmp a b ≡ compare (worth a) (worth b)
unfolding cmp
compare-worth (win c n) (win d m) h k = ground (arith, h, k, prestige_lem c, prestige_lem d)
compare-worth (loss c n) (loss d m) h k = ground (arith, h, k, prestige_lem c, prestige_lem d)
compare-worth draw draw h k = refl
compare-worth (win c n) draw h k = ground (arith, h)
compare-worth (win c n) (loss d m) h k = ground (arith, h, k)
compare-worth draw (win d m) h k = ground (arith, k)
compare-worth draw (loss d m) h k = ground (arith, k)
compare-worth (loss c n) (win d m) h k = ground (arith, h, k)
compare-worth (loss c n) draw h k = ground (arith, h)

pub cmp_trans :
    (a b c : DtcOutcome) → cmp a b ≢ Ordering.gt → cmp b c ≢ Ordering.gt → cmp a c ≢ Ordering.gt
unfolding cmp
cmp_trans (win x n) (win y m) (win z k) h h' = ground arith
cmp_trans (loss x n) (loss y m) (loss z k) h h' = ground arith
cmp_trans draw draw c h h' = h'
cmp_trans a b c h h' = ground arith

-- Comparing outcomes the other way round swaps the answer, and the answer is "equal" exactly for
-- the same outcome.
pub cmp_antisymmetric :
    (a b : DtcOutcome) → (cmp b a ≡ swap (cmp a b)) × ((cmp a b ≡ Ordering.eq) ↔ (a ≡ b))
cmp_antisymmetric a b = (cmp-swap a b, (cmp-eq a b, λ e. rw (← e) (cmp_refl a)))

-- For plies that fit in u16, outcomes compare as their worths do, by which a win is above a draw and
-- a draw above a loss, a sooner win above a later one and a later loss above a sooner one, and at one
-- ply a checkmate above a capture above a promotion for wins, and the other way round for losses;
-- and they compare as equal exactly if they are the same outcome.
pub cmp-worth :
    (a b : DtcOutcome)
    → PlyFits a
    → PlyFits b
    → (cmp a b ≡ compare (worth a) (worth b)) × ((cmp a b ≡ Ordering.eq) ↔ (a ≡ b))
cmp-worth a b h k = (compare-worth a b h k, (cmp_antisymmetric a b).1)
