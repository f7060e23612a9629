-- ===== src/Stats/Partition.antt =====
-- When the validation of outcome counts succeeds, src/stats.rs.
use chess_egt.Common.{
  ℕ, ◌+◌, ◌^◌, ◌<◌, ◌≡◌, ◌↔◌, ◌⊎◌, inl, inr, refl, Bool, true, false, not, ◌||◌, Option, some, none,
  ==_iff, if◌then◌else◌, EgtError, dec_lt, EgtResult, ok, err, arith,
}
use chess_egt.Stats.Validate.{
  checked_add, checked_more, is_exactly, validate_outcomes, bad_outcomes,
}

exactly_two : (x c r : ℕ) → r < 2 ^ 64 → (is_exactly (checked_add x c) r ≡ true) ↔ (x + c ≡ r)
exactly_two x c r h = ground arith

exactly_more :
    (o : Option ℕ) (x c r : ℕ)
    → r < 2 ^ 64
    → ((s : ℕ) → s < 2 ^ 64 → (is_exactly o s ≡ true) ↔ (x ≡ s))
    → (is_exactly (checked_more o c) r ≡ true) ↔ (x + c ≡ r)
exactly_more none x c r h eq = (λ e. cc, λ e. let lost = (eq x (omega arith)).1 refl in cc)
exactly_more (some a) x c r h eq = elim (dec_lt a (2 ^ 64)) [
  | yes small ↦ let same : x ≡ a = (eq a small).0 ((==_iff a a).1 refl) in ground (arith, same)
  | no big ↦ (
    λ e. ground (arith, big, e),
    λ e.
        let same : a ≡ x = (==_iff a x).0 ((eq x (omega arith)).1 refl) in
        absurd (omega (arith, same, big, e, h)),
  )
]

abbrev both : Bool → Bool → EgtError → EgtResult (Unit {0})
both p q e = if not p || not q then err e else ok tt

verdict :
    {P Q : Type 0} (p q : Bool) (e : EgtError)
    → (p ≡ true) ↔ P
    → (q ≡ true) ↔ Q
    → ((both p q e ≡ ok tt) ↔ (P × Q)) × ((both p q e ≡ ok tt) ⊎ (both p q e ≡ err e))
verdict true true e f g = ((λ x. (f.0 refl, g.0 refl), λ x. refl), inl refl)
verdict true false e f g = ((λ x. cc, λ x. let lost = g.1 x.1 in cc), inr refl)
verdict false q e f g = ((λ x. cc, λ x. let lost = f.1 x.0 in cc), inr refl)

-- For usize numbers, the outcome counts are accepted if and only if the wins, draws and losses add up to
-- the unique positions and these together with the invalid and redundant indices add up to the
-- index range; otherwise the error is that of mismatched outcome counts.
pub validate_outcomes_lem :
    (index_range unique win draw loss a b c d : ℕ)
    → index_range < 2 ^ 64
    → unique < 2 ^ 64
    → ((validate_outcomes index_range unique win draw loss (a, b, c, d) ≡ ok tt)
        ↔ ((win + draw + loss ≡ unique) × (unique + a + b + c + d ≡ index_range)))
      × ((validate_outcomes index_range unique win draw loss (a, b, c, d) ≡ ok tt)
          ⊎ (validate_outcomes index_range unique win draw loss (a, b, c, d) ≡ err bad_outcomes))
unfolding validate_outcomes
validate_outcomes_lem index_range unique win draw loss a b c d r u =
    let wins =
      exactly_more (checked_add win draw) (win + draw) loss unique u
        (λ s. exactly_two win draw s) in
    let parts = exactly_more _ (unique + a + b + c) d index_range r (λ s h.
      exactly_more _ (unique + a + b) c s h
        (λ s' h'. exactly_more _ (unique + a) b s' h' (λ s'' h''. exactly_two unique a s'' h''))) in
    verdict _ _ bad_outcomes wins parts
