-- ===== src/Retrograde/Race/Status.antt =====
-- The best conversion type that racing calls of `WorkingPair::mark_win` have written,
-- src/retrograde.rs.
use chess_egt.Common.{ℕ, suc, ◌≡◌, refl, List, [], ◌∷◌, Option, some, none, ◌⊎◌, inl, inr}
use chess_egt.Outcome.{ConversionType, ct_rank}

-- The best conversion type that has been written, if any.
abbrev pub Status : Type 0
Status = Option ConversionType

abbrev pub rank_of : Status → ℕ
rank_of none = 0
rank_of (some b) = suc (ct_rank b)

abbrev pub written : Status → ℕ
written none = 0
written (some b) = 1

abbrev pub Has : ConversionType → List ConversionType → Type 0
Has b [] = ⊥
Has b (ct ∷ cts) = (ct ≡ b) ⊎ Has b cts

abbrev pub Written : Status → List ConversionType → Type 0
Written none cts = Unit
Written (some b) cts = Has b cts

Written-cons :
    (s : Status) (ct : ConversionType) (cts : List ConversionType)
    → Written s cts
    → Written s (ct ∷ cts)
Written-cons none ct cts w = tt
Written-cons (some b) ct cts w = inr w

pub from_here :
    (s s' : Status) (ct : ConversionType) (cts : List ConversionType)
    → (s' ≡ s) ⊎ (s' ≡ some ct)
    → (s' ≡ s) ⊎ Written s' (ct ∷ cts)
from_here s s' ct cts (inl e) = inl e
from_here s s' ct cts (inr e) = rw e (inr (inl refl))

pub from_there :
    (s s' : Status) (ct : ConversionType) (cts : List ConversionType)
    → (s' ≡ s) ⊎ Written s' cts
    → (s' ≡ s) ⊎ Written s' (ct ∷ cts)
from_there s s' ct cts (inl e) = inl e
from_there s s' ct cts (inr w) = inr (Written-cons s' ct cts w)

pub from_old :
    (s s' : Status) (cts : List ConversionType)
    → Written s cts
    → (s' ≡ s) ⊎ Written s' cts
    → Written s' cts
from_old s s' cts w (inl e) = rw e w
from_old s s' cts w (inr w') = w'
