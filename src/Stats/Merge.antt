-- ===== src/Stats/Merge.antt =====
-- What `merge_distribution` leaves, src/stats.rs.
use chess_egt.Common.{
  ℕ, ◌^◌, ◌<◌, ◌≡◌, refl, Option, some, true, false, Bool-cases, inl, inr, List, [], ◌∷◌, ◌++◌, ltb,
  ◌==◌, if◌then◌else◌, ℕ_discrete, dec_lt, arith,
}
use chess_egt.Stats.{
  Histogram, LongestDtcPosition, add64, add_entry, add_entries, last_ply, is_maximum,
  retain_maximum, is_gt, same_as_head, place, sort_examples, dedup, merge_distribution, example_cmp,
}

-- The number of outcomes at a ply.
abbrev pub lookup : ℕ → Histogram → ℕ
lookup q [] = 0
lookup q ((p, n) ∷ h) = if q == p then n else lookup q h

abbrev Above : ℕ → Histogram → Type 0
Above q [] = Unit
Above q ((p, n) ∷ h) = (q < p) × Above q h

-- As a BTreeMap holds it: rising plies, and counts on usize.
abbrev pub IsHistogram : Histogram → Type 0
IsHistogram [] = Unit
IsHistogram ((p, n) ∷ h) = Above p h × (n < 2 ^ 64) × IsHistogram h

Above-trans : (p q : ℕ) (h : Histogram) → p < q → Above q h → Above p h
Above-trans p q [] l a = tt
Above-trans p q ((r, n) ∷ h) l a = (omega (arith, a.0), Above-trans p q h l a.1)

lookup-Above : (q : ℕ) (h : Histogram) → Above q h → lookup q h ≡ 0
lookup-Above q [] a = refl
lookup-Above q ((p, n) ∷ h) a = ground (arith, a.0, lookup-Above q h a.1)

data Place (p q : ℕ) : Type 0 where
  same : p ≡ q → (p == q) ≡ true → Place p q
  before : p < q → (p == q) ≡ false → ltb p q ≡ true → Place p q
  behind : q < p → (p == q) ≡ false → ltb p q ≡ false → Place p q

Place-of : (p q : ℕ) → Place p q
Place-of p q = elim (ℕ_discrete p q) [
  | yes e ↦ same e (ground (arith, e))
  | no n ↦ elim (dec_lt p q) [
    | yes l ↦ before l (ground (arith, l)) (ground (arith, l))
    | no g ↦ behind (omega arith) (ground (arith, n)) (ground (arith, g))
  ]
]

add_entry-Above : (q p c : ℕ) (h : Histogram) → q < p → Above q h → Above q (add_entry p c h)
unfolding add_entry
add_entry-Above q p c [] l a = (l, tt)
add_entry-Above q p c ((r, n) ∷ h) l a = elim (Place-of p r) [
  | same e t ↦ rw t (a.0, a.1)
  | before m f t ↦ rw (f, t) (l, (a.0, a.1))
  | behind g f f' ↦ rw (f, f') (a.0, add_entry-Above q p c h l a.1)
]

pub add_entry-IsHistogram :
    (p c : ℕ) (h : Histogram) → c < 2 ^ 64 → IsHistogram h → IsHistogram (add_entry p c h)
unfolding add_entry
add_entry-IsHistogram p c [] l w = (tt, l, tt)
add_entry-IsHistogram p c ((r, n) ∷ h) l w = elim (Place-of p r) [
  | same e t ↦ rw t (w.0, omega arith, w.2)
  | before m f t ↦ rw (f, t) ((m, Above-trans p r h m w.0), l, w)
  | behind g f f' ↦
      rw (f, f') (add_entry-Above r p c h g w.0, w.1, add_entry-IsHistogram p c h l w.2)
]

-- The count at the ply of the entry, and the counts at all other plies.
pub lookup-add_entry :
    (q p c : ℕ) (h : Histogram)
    → c < 2 ^ 64
    → IsHistogram h
    → lookup q (add_entry p c h) ≡ (if q == p then add64 (lookup q h) c else lookup q h)
unfolding add_entry
lookup-add_entry q p c [] l w = ground arith
lookup-add_entry q p c ((r, n) ∷ h) l w = elim (Place-of p r) [
  | same e t ↦ rw t (ground (arith, e))
  | before m f t ↦ elim (ℕ_discrete q p) [
    | yes e ↦
        let none_there = lookup-Above q h (Above-trans q r h (omega arith) w.0) in
        rw (f, t) (ground (arith, e, m, l, none_there))
    | no d ↦ rw (f, t) (ground (arith, d))
  ]
  | behind g f f' ↦ rw (f, f') (ground (arith, g, lookup-add_entry q p c h l w.2))
]

lookup-lt : (q : ℕ) (h : Histogram) → IsHistogram h → lookup q h < 2 ^ 64
lookup-lt q [] w = omega arith
lookup-lt q ((p, n) ∷ h) w = ground (arith, w.1, lookup-lt q h w.2)

pub add_entries_lem :
    (source h : Histogram)
    → IsHistogram source
    → IsHistogram h
    → IsHistogram (add_entries h source)
      × ((q : ℕ) → lookup q (add_entries h source) ≡ add64 (lookup q h) (lookup q source))
unfolding add_entries
add_entries_lem [] h v w = (w, λ q. omega (arith, lookup-lt q h w))
add_entries_lem ((p, c) ∷ source) h v w =
    let (w', all) =
      add_entries_lem source (add_entry p c h) v.2 (add_entry-IsHistogram p c h v.1 w) in
    (
      w',
      λ q. elim (ℕ_discrete q p) [
        | yes e ↦
            let none_there = lookup-Above q source (rw e v.0) in
            ground (arith, e, none_there, all q, lookup-add_entry q p c h v.1 w, lookup-lt q h w)
        | no d ↦ ground (arith, d, all q, lookup-add_entry q p c h v.1 w)
      ],
    )

abbrev pub AllAt : Option ℕ → List LongestDtcPosition → Type 0
AllAt maximum [] = Unit
AllAt maximum (x ∷ xs) = (is_maximum maximum x.ply ≡ true) × AllAt maximum xs

retain-AllAt :
    (maximum : Option ℕ) (xs : List LongestDtcPosition) → AllAt maximum (retain_maximum maximum xs)
unfolding retain_maximum
retain-AllAt maximum [] = tt
retain-AllAt maximum (x ∷ xs) = elim (Bool-cases (is_maximum maximum x.ply)) [
  | inl t ↦ rw t (t, retain-AllAt maximum xs)
  | inr f ↦ rw f (retain-AllAt maximum xs)
]

place-AllAt :
    (maximum : Option ℕ) (x : LongestDtcPosition) (xs : List LongestDtcPosition)
    → is_maximum maximum x.ply ≡ true
    → AllAt maximum xs
    → AllAt maximum (place x xs)
unfolding place
place-AllAt maximum x [] h all = (h, tt)
place-AllAt maximum x (y ∷ ys) h all = elim (Bool-cases (is_gt (example_cmp x y))) [
  | inl t ↦ rw t (all.0, place-AllAt maximum x ys h all.1)
  | inr f ↦ rw f (h, all)
]

sort-AllAt :
    (maximum : Option ℕ) (xs : List LongestDtcPosition)
    → AllAt maximum xs
    → AllAt maximum (sort_examples xs)
unfolding sort_examples
sort-AllAt maximum [] all = tt
sort-AllAt maximum (x ∷ xs) all =
    place-AllAt maximum x (sort_examples xs) all.0 (sort-AllAt maximum xs all.1)

dedup-AllAt :
    (maximum : Option ℕ) (xs : List LongestDtcPosition)
    → AllAt maximum xs
    → AllAt maximum (dedup xs)
unfolding dedup
dedup-AllAt maximum [] all = tt
dedup-AllAt maximum (x ∷ xs) all = elim (Bool-cases (same_as_head x (dedup xs))) [
  | inl t ↦ rw t (dedup-AllAt maximum xs all.1)
  | inr f ↦ rw f (all.0, dedup-AllAt maximum xs all.1)
]

-- Two complete distributions are merged to a histogram whose count at every ply is the sum of theirs
-- modulo 2 ^ 64, again with rising plies, and to examples that all stand at its last ply.
pub merge_distribution_lem :
    (h source : Histogram) (xs ys : List LongestDtcPosition)
    → IsHistogram h
    → IsHistogram source
    → (h' : Histogram) × (zs : List LongestDtcPosition) × (merge_distribution
          (some h)
          (some source)
          (some xs)
          (some ys)
        ≡ (some h', some zs))
      × IsHistogram h'
      × ((q : ℕ) → lookup q h' ≡ add64 (lookup q h) (lookup q source))
      × AllAt (last_ply h') zs
unfolding merge_distribution
merge_distribution_lem h source xs ys w v =
    let (w', all) = add_entries_lem source h v w in
    let last = last_ply (add_entries h source) in
    (
      add_entries h source,
      _,
      refl,
      w',
      all,
      dedup-AllAt last _ (sort-AllAt last _ (retain-AllAt last (xs ++ ys))),
    )
