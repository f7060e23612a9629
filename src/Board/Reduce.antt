-- ===== src/Board/Reduce.antt =====
-- What `reduce_symmetries` leaves, src/egt/indexer.rs.
use chess_egt.Common.{
  ◌-◌, ◌≤◌, ◌<◌, ◌≡◌, refl, false, ◌&&◌, ◌||◌, Bool-cases, inl, inr, ◌⊎◌, List, ◌∷◌, map, ltb, ◌==◌,
  arith,
}
use chess_egt.Board.{Coord, coord_at, flip_ranks, flip_files, flip_diagonal, reduce_symmetries}

-- The first king stands in the triangle a1, d1, d4, and a king behind it on the diagonal does not stand above it.
abbrev pub IsReduced : List Coord → Type 0
IsReduced b =
    ((coord_at b 0).0 ≤ (coord_at b 0).1)
    × ((coord_at b 0).1 ≤ 3)
    × (((coord_at b 0).0 < (coord_at b 0).1) ⊎ ((coord_at b 1).0 ≤ (coord_at b 1).1))

ranks_low :
    (a c : Coord) (b : List Coord)
    → a.0 < 8
    → (x : Coord) × (y : Coord) × (z : List Coord) × (flip_ranks (a ∷ c ∷ b) ≡ x ∷ y ∷ z)
      × (x.0 ≤ 3)
      × (x.1 ≡ a.1)
ranks_low a c b h = elim (Bool-cases (ltb 3 a.0)) [
  | inl t ↦ (
    (7 - a.0, a.1),
    (7 - c.0, c.1),
    map (λ c. (7 - c.0, c.1)) b,
    rw t refl,
    ground (arith, t),
    refl,
  )
  | inr t ↦ (a, c, b, rw t refl, ground (arith, t), refl)
]

files_low :
    (a c : Coord) (b : List Coord)
    → a.1 < 8
    → (x : Coord) × (y : Coord) × (z : List Coord) × (flip_files (a ∷ c ∷ b) ≡ x ∷ y ∷ z)
      × (x.1 ≤ 3)
      × (x.0 ≡ a.0)
files_low a c b h = elim (Bool-cases (ltb 3 a.1)) [
  | inl t ↦ (
    (a.0, 7 - a.1),
    (c.0, 7 - c.1),
    map (λ c. (c.0, 7 - c.1)) b,
    rw t refl,
    ground (arith, t),
    refl,
  )
  | inr t ↦ (a, c, b, rw t refl, ground (arith, t), refl)
]

diagonal_low :
    (a c : Coord) (b : List Coord) → a.0 ≤ 3 → a.1 ≤ 3 → IsReduced (flip_diagonal (a ∷ c ∷ b))
diagonal_low a c b h h' = elim (Bool-cases (ltb a.1 a.0 || (a.0 == a.1 && ltb c.1 c.0))) [
  | inl t ↦ rw t (ground (arith, t))
  | inr t ↦ rw t (ground (arith, t))
]

-- A buffer whose first king stands on the board, with a second king behind it, is brought to reduced form.
pub reduce_symmetries-IsReduced :
    (a c : Coord) (b : List Coord) → a.0 < 8 → a.1 < 8 → IsReduced (reduce_symmetries (a ∷ c ∷ b))
unfolding reduce_symmetries
reduce_symmetries-IsReduced a c b h h' =
    let (x, y, z, e, low, same) = ranks_low a c b h in
    let (x', y', z', e', low', same') = files_low x y z (omega (arith, same, h')) in
    rw (e, e') (diagonal_low x' y' z' (omega (arith, same', low)) low')

-- A buffer in reduced form is left as it is.
pub reduce_symmetries_fixed : (b : List Coord) → IsReduced b → reduce_symmetries b ≡ b
unfolding reduce_symmetries
reduce_symmetries_fixed b r =
    let t1 : ltb 3 (coord_at b 0).0 ≡ false = ground (arith, r.0, r.1) in
    let t2 : ltb 3 (coord_at b 0).1 ≡ false = ground (arith, r.1) in
    let t3 : (ltb (coord_at b 0).1 (coord_at b 0).0
          || ((coord_at b 0).0 == (coord_at b 0).1 && ltb (coord_at b 1).1 (coord_at b 1).0))
        ≡ false =
      ground (arith, r.0, r.2) in
    rw (t1, t2, t3) refl
