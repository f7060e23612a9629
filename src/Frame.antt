-- ===== src/Frame.antt =====
-- The stored form of a frame, src/egt_file.rs: `transpose_frame` and `detranspose_frame`. Words are
-- u16 and bytes u8; a read out of range, which panics in the source, is `none`.
pub mod Transpose
pub mod Detranspose
mod Tests
use chess_egt.Common.{
  ℕ, zero, suc, ◌+◌, ◌*◌, ◌/◌, ◌%◌, ◌^◌, bit_and, Bool, ◌||◌, List, [], ◌∷◌, Option, none, some,
  ◌==◌, if◌then◌else◌, length, get_elem?, set, replicate,
}

infixl 5 ◌>>=◌
abbrev pub ◌>>=◌ {ℓ κ} : {A : Type ℓ} {B : Type κ} → Option A → (A → Option B) → Option B
none >>= f = none
some a >>= f = f a

-- One byte stores the words invalid_word and draw_word.
abbrev pub is_short : ℕ → Bool
is_short b = b == 0 || b == 1

abbrev pub low_byte : ℕ → ℕ
low_byte val = bit_and val 0xff % 2 ^ 8

abbrev pub high_byte : ℕ → ℕ
high_byte val = val / 2 ^ 8 % 2 ^ 8

-- The loop of `transpose_frame` from `i` on, over the words that are left.
pub transpose_loop : List ℕ → ℕ → ℕ → List ℕ → List ℕ
transpose_loop [] i j output = output
transpose_loop (val ∷ vals) i j output =
    let short = transpose_loop vals (i + 1) j (set output i (val % 2 ^ 8)) in
    let long =
      transpose_loop vals (i + 1) (j + 1) (set (set output i (low_byte val)) j (high_byte val)) in
    if is_short val then short else long

pub transpose_frame : List ℕ → List ℕ
unfolding transpose_loop
transpose_frame uncompressed =
    let n = length uncompressed in transpose_loop uncompressed 0 n (replicate (n * 2) 0)

-- The loop of `detranspose_frame` at `i`, with the rounds left.
pub detranspose_loop : List ℕ → ℕ → ℕ → ℕ → List ℕ → Option (List ℕ)
detranspose_loop transposed zero i j output = some output
detranspose_loop transposed (suc left) i j output = do
  b ← get_elem? transposed i
  let short = detranspose_loop transposed left (i + 1) j (set output i b)
  let long = get_elem? transposed j >>= λ h.
      detranspose_loop transposed left (i + 1) (j + 1) (set output i (b + h * 2 ^ 8))
  if is_short b then short else long

pub detranspose_frame : List ℕ → ℕ → Option (List ℕ)
unfolding detranspose_loop
detranspose_frame transposed n = detranspose_loop transposed n 0 n (replicate n 0)
