-- ===== src/Common/Grid.antt =====
-- Lists of lists: a read and a write of one cell.
use Prim.Native.Nat.{ℕ, ◌<◌}
use mathlib.Core.Path.{◌≡◌, refl, sym}
use mathlib.Core.Logic.{◌⊎◌, inl, inr}
use mathlib.Core.List.{List, []}
use native.Mathlib.Decide.{ℕ_discrete}
use chess_egt.Common.Lists.{length, set, get_or, get_or-set_self, get_or-set_ne, get_or-set_cases}

module _ {ℓ} {A : Type ℓ} where
  abbrev pub put : List (List A) → ℕ → ℕ → A → List (List A)
  put rows r i v = set rows r (set (get_or rows r []) i v)

  abbrev pub cell : List (List A) → ℕ → ℕ → A → A
  cell rows r i d = get_or (get_or rows r []) i d

module _ {ℓ} {A : Type ℓ} where
  pub put_self :
      (rows : List (List A)) (r i : ℕ) (v d : A)
      → r < length rows
      → i < length (get_or rows r [])
      → cell (put rows r i v) r i d ≡ v
  put_self rows r i v d h h' =
      rw (get_or-set_self rows r (set (get_or rows r []) i v) [] h)
        (get_or-set_self (get_or rows r []) i v d h')

  pub put_ne :
      (rows : List (List A)) (r i r' i' : ℕ) (v d : A)
      → r < length rows
      → ((r ≡ r') × (i ≡ i') → ⊥)
      → cell (put rows r i v) r' i' d ≡ cell rows r' i' d
  put_ne rows r i r' i' v d h ne = elim (ℕ_discrete r r') [
    | yes e ↦
        rw (sym e, get_or-set_self rows r (set (get_or rows r []) i v) [] h)
          (get_or-set_ne (get_or rows r []) i i' v d (λ e'. ne (e, e')))
    | no n ↦ rw (get_or-set_ne rows r r' (set (get_or rows r []) i v) [] n) refl
  ]

  pub put_cases :
      (rows : List (List A)) (r i r' i' : ℕ) (v d : A)
      → (cell (put rows r i v) r' i' d ≡ cell rows r' i' d)
        ⊎ ((r ≡ r')
            × (i ≡ i')
            × (i < length (get_or rows r []))
            × (cell (put rows r i v) r' i' d ≡ v))
  put_cases rows r i r' i' v d =
      let row = set (get_or rows r []) i v in
      elim (get_or-set_cases rows r r' row []) [
        | inl e ↦ inl (rw e refl)
        | inr (same, h, e) ↦ elim (get_or-set_cases (get_or rows r []) i i' v d) [
          | inl e' ↦ inl (rw (e, e', same) refl)
          | inr (same', h', e') ↦ inr (same, same', h', rw (e, e') refl)
        ]
      ]
