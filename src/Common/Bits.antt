-- ===== src/Common/Bits.antt =====
-- `&` and `|` of the native numbers as arithmetic, for the three low bits of an outcome word.
use Prim.Native.Nat.{digits, bit_and-bitwise, bit_or-bitwise}
use Prim.Native.Nat.{ℕ, zero, suc, ◌+◌, ◌*◌, ◌/◌, ◌%◌, ◌≤◌, min, bit_and, bit_or}
use mathlib.Core.Path.{◌≡◌, refl}
use native.Mathlib.Omega.{arith}
use native.Mathlib.Decide.{dec_le}

-- The recursion on binary digits that `bit_and` stands for, on fuel.
abbrev walk : ℕ → ℕ → ℕ → ℕ
walk fuel a b = digits (λ y. zero) min fuel a b

walk_more : (fuel a b : ℕ) → a ≤ fuel → walk (suc fuel) a b ≡ walk fuel a b
walk_more zero zero b h = refl
walk_more zero (suc a) b h = absurd (omega arith)
walk_more (suc fuel) zero b h = refl
walk_more (suc fuel) (suc a) b h = omega (arith, walk_more fuel (suc a / 2) (b / 2) (omega arith))

walk_settles : (fuel a b : ℕ) → a ≤ fuel → walk fuel a b ≡ walk a a b
walk_settles zero zero b h = refl
walk_settles zero (suc a) b h = absurd (omega arith)
walk_settles (suc fuel) a b h = elim (dec_le a fuel) [
  | yes le ↦ omega (arith, walk_more fuel a b le, walk_settles fuel a b le)
  | no gt ↦ let same : suc fuel ≡ a = omega arith in rw same refl
]

walk_none : (fuel a : ℕ) → walk fuel a 0 ≡ 0
walk_none zero zero = refl
walk_none zero (suc a) = refl
walk_none (suc fuel) zero = refl
walk_none (suc fuel) (suc a) = omega (arith, walk_none fuel (suc a / 2))

bit_and-zero : (a : ℕ) → bit_and a 0 ≡ 0
bit_and-zero a = omega (arith, bit_and-bitwise a 0, walk_none a a)

and_digit : (a b : ℕ) → bit_and a b ≡ bit_and (a / 2) (b / 2) * 2 + min (a % 2) (b % 2)
and_digit zero b = omega (arith, bit_and-bitwise 0 b, bit_and-bitwise 0 (b / 2))
and_digit (suc a) b =
    let half = walk_settles a (suc a / 2) (b / 2) (omega arith) in
    omega (arith, half, bit_and-bitwise (suc a) b, bit_and-bitwise (suc a / 2) (b / 2))

-- The mask of the three low bits, and the mask of bits 1 and 2.
pub bit_and_seven : (a : ℕ) → bit_and a 7 ≡ a % 8
bit_and_seven a = omega (
  arith,
  and_digit a 7,
  and_digit (a / 2) 3,
  and_digit (a / 2 / 2) 1,
  bit_and-zero (a / 2 / 2 / 2),
)

pub bit_and_six : (a : ℕ) → bit_and a 6 ≡ a % 8 / 2 * 2
bit_and_six a = omega (
  arith,
  and_digit a 6,
  and_digit (a / 2) 3,
  and_digit (a / 2 / 2) 1,
  bit_and-zero (a / 2 / 2 / 2),
)

-- A tag of three bits beside a multiple of eight.
abbrev pub Tags : ℕ → Type 0
Tags q =
    (bit_or 2 (q * 8) ≡ q * 8 + 2)
    × (bit_or 3 (q * 8) ≡ q * 8 + 3)
    × (bit_or 4 (q * 8) ≡ q * 8 + 4)
    × (bit_or 5 (q * 8) ≡ q * 8 + 5)
    × (bit_or 6 (q * 8) ≡ q * 8 + 6)
    × (bit_or 7 (q * 8) ≡ q * 8 + 7)

pub bit_or-Tags : (q : ℕ) → Tags q
bit_or-Tags q = (
  omega (arith, bit_or-bitwise 2 (q * 8)),
  omega (arith, bit_or-bitwise 3 (q * 8)),
  omega (arith, bit_or-bitwise 4 (q * 8)),
  omega (arith, bit_or-bitwise 5 (q * 8)),
  omega (arith, bit_or-bitwise 6 (q * 8)),
  omega (arith, bit_or-bitwise 7 (q * 8)),
)

-- The low byte, as three bits above five.
bit_and_low5 : (a : ℕ) → bit_and a 31 ≡ a % 32
bit_and_low5 a = omega (arith, and_digit a 31, and_digit (a / 2) 15, bit_and_seven (a / 2 / 2))

pub bit_and_byte : (a : ℕ) → bit_and a 255 ≡ a % 256
bit_and_byte a = omega (
  arith,
  and_digit a 255,
  and_digit (a / 2) 127,
  and_digit (a / 2 / 2) 63,
  bit_and_low5 (a / 2 / 2 / 2),
)
