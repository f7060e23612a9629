-- ===== src/Common/Results.antt =====
-- `EgtError` and `EgtResult` of src/error.rs. An error of another package is its text.
use Prim.Native.Nat.{ℕ}
use Prim.Native.String.{String}
use mathlib.Core.Path.{◌≡◌, refl}
use mathlib.Core.Logic.{◌⊎◌, inl, inr}

pub data EgtError : Type 0 where
  invalid_endgame_name : String → String → EgtError
  unsupported_position : String → EgtError
  invalid_position : String → EgtError
  index_out_of_range : ℕ → ℕ → EgtError
  position_not_in_table : String → EgtError
  corrupted_outcome : ℕ → ℕ → EgtError
  file_not_found : String → EgtError
  invalid_storage_location : String → EgtError
  storage : String → String → EgtError
  working_memory_allocation : String → ℕ → String → EgtError
  consistency_check_failed : String → ℕ → String → EgtError
  dependency_unavailable : String → EgtError → EgtError
  io : String → EgtError
  zeekstd : String → EgtError
  json : String → EgtError
  internal : String → EgtError

pub data EgtResult {ℓ} (A : Type ℓ) : Type ℓ where
  ok : A → EgtResult A
  err : EgtError → EgtResult A

-- `?` in the source: an error ends the computation.
infixl 5 ◌>>=◌ ◌>>◌
abbrev pub ◌>>=◌ {ℓ κ} : {A : Type ℓ} {B : Type κ} → EgtResult A → (A → EgtResult B) → EgtResult B
err reason >>= rest = err reason
ok value >>= rest = rest value

abbrev pub ◌>>◌ {ℓ} : {B : Type ℓ} → EgtResult (Unit {0}) → EgtResult B → EgtResult B
err reason >> rest = err reason
ok done >> rest = rest

-- To split on a result and keep the equation.
pub EgtResult-cases {ℓ} :
    {A : Type ℓ} (r : EgtResult A) → ((a : A) × (r ≡ ok a)) ⊎ ((e : EgtError) × (r ≡ err e))
EgtResult-cases (ok a) = inl (a, refl)
EgtResult-cases (err e) = inr (e, refl)
