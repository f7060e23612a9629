-- ===== src/TableId/Orient.antt =====
-- The horizontal orientation of `PawnKey`, src/table_id.rs: a key and its reflection have one
-- canonical form.
use Prim.Native.Nat.{Ordering}
use mathlib.Core.List.{reverse, reverse-cons, reverse-append, reverse-reverse, map-append}
use chess_egt.Common.{
  append_assoc, ℕ, zero, suc, ◌+◌, ◌-◌, ◌≤◌, ◌≡◌, refl, sym, ap, ◌∙◌, compare, Bool, true, false,
  List, [], ◌∷◌, ◌++◌, map, length, length-append, replicate, if◌then◌else◌, arith, inl, inr,
  Bool-cases,
}
use chess_egt.Outcome.{then_cmp}
use chess_egt.TableId.{
  PawnKey, reflected, bit, ilog2, push_files, side_files, cmp_list, compare_side,
  compare_file_reflection, is_greater, orientation, canonicalized,
}

abbrev swapped : Ordering → Ordering
swapped Ordering.lt = Ordering.gt
swapped Ordering.eq = Ordering.eq
swapped Ordering.gt = Ordering.lt

then_cmp-swapped : (c d : Ordering) → then_cmp (swapped c) (swapped d) ≡ swapped (then_cmp c d)
then_cmp-swapped Ordering.lt d = refl
then_cmp-swapped Ordering.eq d = refl
then_cmp-swapped Ordering.gt d = refl

compare-swapped : (x y : ℕ) → compare y x ≡ swapped (compare x y)
compare-swapped x y = ground arith

cmp_list-swapped : (xs ys : List ℕ) → cmp_list ys xs ≡ swapped (cmp_list xs ys)
cmp_list-swapped [] [] = refl
cmp_list-swapped [] (y ∷ ys) = refl
cmp_list-swapped (x ∷ xs) [] = refl
cmp_list-swapped (x ∷ xs) (y ∷ ys) =
    rw (compare-swapped x y, cmp_list-swapped xs ys)
      (then_cmp-swapped (compare x y) (cmp_list xs ys))

cmp_eq :
    (x y : ℕ) (rest : Ordering)
    → then_cmp (compare x y) rest ≡ Ordering.eq
    → (x ≡ y) × (rest ≡ Ordering.eq)
cmp_eq x y rest e = (ground arith, ground arith)

cmp_list_eq : (xs ys : List ℕ) → cmp_list xs ys ≡ Ordering.eq → xs ≡ ys
cmp_list_eq [] [] e = refl
cmp_list_eq [] (y ∷ ys) e = cc
cmp_list_eq (x ∷ xs) [] e = cc
cmp_list_eq (x ∷ xs) (y ∷ ys) e =
    let (same, rest) = cmp_eq x y (cmp_list xs ys) e in rw (same, cmp_list_eq xs ys rest) refl

-- The pawns of one side on a file.
abbrev count_side : Bool → ℕ → ℕ → ℕ → ℕ
count_side enemy word i zero = 0
count_side enemy word i (suc n) =
    let rest = count_side enemy word (i + 1) n in
    if bit word i then (if enemy then suc rest else rest) else (if enemy then rest else suc rest)

push_files_lem :
    (enemy : Bool) (file word i n : ℕ)
    → push_files enemy file word i n ≡ replicate (count_side enemy word i n) file
push_files_lem enemy file word i zero = refl
push_files_lem true file word i (suc n) = elim (Bool-cases (bit word i)) [
  | inl t ↦ rw (t, push_files_lem true file word (i + 1) n) refl
  | inr f ↦ rw (f, push_files_lem true file word (i + 1) n) refl
]
push_files_lem false file word i (suc n) = elim (Bool-cases (bit word i)) [
  | inl t ↦ rw (t, push_files_lem false file word (i + 1) n) refl
  | inr f ↦ rw (f, push_files_lem false file word (i + 1) n) refl
]

abbrev mirrored : List ℕ → List ℕ
mirrored files = map (λ f. 7 - f) (reverse files)

replicate_snoc : (n x : ℕ) → replicate n x ++ x ∷ [] ≡ x ∷ replicate n x
replicate_snoc zero x = refl
replicate_snoc (suc n) x = ap (◌∷◌ x) (replicate_snoc n x)

mirrored-append : (a b : List ℕ) → mirrored (a ++ b) ≡ mirrored b ++ mirrored a
mirrored-append a b =
    ap (map (λ f. 7 - f)) (reverse-append a b) ∙ map-append (λ f. 7 - f) (reverse b) (reverse a)

mirrored-replicate : (n x : ℕ) → mirrored (replicate n x) ≡ replicate n (7 - x)
mirrored-replicate zero x = refl
mirrored-replicate (suc n) x =
    ap (map (λ f. 7 - f)) (reverse-cons x (replicate n x))
    ∙ map-append (λ f. 7 - f) (reverse (replicate n x)) (x ∷ [])
    ∙ ap (λ r. r ++ (7 - x) ∷ []) (mirrored-replicate n x)
    ∙ replicate_snoc n (7 - x)

length-reverse : (xs : List ℕ) → length (reverse xs) ≡ length xs
length-reverse [] = refl
length-reverse (x ∷ xs) =
    let e = ap length (reverse-cons x xs) in
    omega (arith, e, length-append (reverse xs) (x ∷ []), length-reverse xs)

append_nil : (a : List ℕ) → a ++ [] ≡ a
append_nil [] = refl
append_nil (x ∷ a) = ap (◌∷◌ x) (append_nil a)

side_files-append :
    (enemy : Bool) (file : ℕ) (a b : List ℕ)
    → side_files enemy file (a ++ b)
      ≡ side_files enemy file a ++ side_files enemy (file + length a) b
side_files-append enemy file [] b = let e : file + 0 ≡ file = omega arith in rw e refl
side_files-append enemy file (w ∷ a) b =
    let e : file + suc (length a) ≡ file + 1 + length a = omega arith in
    let here = push_files enemy file w 0 (ilog2 w) in
    let rest = side_files enemy (file + 1 + length a) b in
    rw (e, side_files-append enemy (file + 1) a b)
      (sym (append_assoc here (side_files enemy (file + 1) a) rest))

-- The files of a reflected key, from the other edge.
side_files-mirrored :
    (enemy : Bool) (file : ℕ) (words : List ℕ)
    → file + length words ≤ 8
    → side_files enemy (8 - file - length words) (reverse words)
      ≡ mirrored (side_files enemy file words)
side_files-mirrored enemy file [] h = refl
side_files-mirrored enemy file (w ∷ words) h =
    let start = 8 - file - suc (length words) in
    let n = count_side enemy w 0 (ilog2 w) in
    let from : start ≡ 8 - (file + 1) - length words = omega arith in
    let last : start + length (reverse words) ≡ 7 - file = omega (arith, length-reverse words, h) in
    let here = push_files enemy file w 0 (ilog2 w) in
    let there = push_files enemy (7 - file) w 0 (ilog2 w) in
    let at_end : side_files enemy (start + length (reverse words)) (w ∷ []) ≡ mirrored here =
      ap (λ f. side_files enemy f (w ∷ [])) last
      ∙ append_nil there
      ∙ push_files_lem enemy (7 - file) w 0 (ilog2 w)
      ∙ sym (mirrored-replicate n file)
      ∙ ap mirrored (sym (push_files_lem enemy file w 0 (ilog2 w))) in
    let before : side_files enemy start (reverse words)
        ≡ mirrored (side_files enemy (file + 1) words) =
      ap (λ f. side_files enemy f (reverse words)) from
      ∙ side_files-mirrored enemy (file + 1) words (omega (arith, h)) in
    ap (side_files enemy start) (reverse-cons w words)
    ∙ side_files-append enemy start (reverse words) (w ∷ [])
    ∙ rw (at_end, before) (sym (mirrored-append here (side_files enemy (file + 1) words)))

compare_side-swapped :
    (files : List ℕ)
    → mirrored (mirrored files) ≡ files
    → compare_side (mirrored files) ≡ swapped (compare_side files)
compare_side-swapped files e = rw e (cmp_list-swapped files (mirrored files))

mirrored_twice :
    (words : List ℕ) (enemy : Bool)
    → length words ≡ 8
    → mirrored (mirrored (side_files enemy 0 words)) ≡ side_files enemy 0 words
mirrored_twice words enemy l =
    let start : 8 - 0 - length words ≡ 0 = omega (arith, l) in
    let start' : 8 - 0 - length (reverse words) ≡ 0 = omega (arith, l, length-reverse words) in
    let there = side_files-mirrored enemy 0 words (omega (arith, l)) in
    let back =
      side_files-mirrored enemy 0 (reverse words) (omega (arith, l, length-reverse words)) in
    ap mirrored (sym (rw start at there))
    ∙ sym (rw start' at back)
    ∙ ap (side_files enemy 0) (reverse-reverse words)

side_files-reflected :
    (words : List ℕ) (enemy : Bool)
    → length words ≡ 8
    → side_files enemy 0 (reverse words) ≡ mirrored (side_files enemy 0 words)
side_files-reflected words enemy l =
    let start : 8 - 0 - length words ≡ 0 = omega (arith, l) in
    let there = side_files-mirrored enemy 0 words (omega (arith, l)) in rw start at there

compare_reflected :
    (words : List ℕ) (enemy : Bool)
    → length words ≡ 8
    → compare_side (side_files enemy 0 (reverse words))
      ≡ swapped (compare_side (side_files enemy 0 words))
compare_reflected words enemy l =
    rw (side_files-reflected words enemy l)
      (compare_side-swapped (side_files enemy 0 words) (mirrored_twice words enemy l))

orientation-reflected :
    (key : PawnKey) → length key ≡ 8 → orientation (reflected key) ≡ swapped (orientation key)
unfolding compare_file_reflection reflected
orientation-reflected key l =
    let stm = compare_side (side_files false 0 key) in
    let sntm = compare_side (side_files true 0 key) in
    rw
      (
        compare_reflected key false l,
        compare_reflected key true l,
        reverse-reverse key,
        cmp_list-swapped key (reverse key),
        then_cmp-swapped stm sntm,
      )
      (then_cmp-swapped (then_cmp stm sntm) (cmp_list key (reverse key)))

eq_last : (c d : Ordering) → then_cmp c d ≡ Ordering.eq → d ≡ Ordering.eq
eq_last Ordering.lt d e = cc
eq_last Ordering.eq d e = e
eq_last Ordering.gt d e = cc

keeps : (key : PawnKey) → is_greater (orientation key) ≡ false → canonicalized key ≡ (key, false)
unfolding canonicalized
keeps key e = rw e refl

turns :
    (key : PawnKey)
    → is_greater (orientation key) ≡ true
    → canonicalized key ≡ (reflected key, true)
unfolding canonicalized
turns key e = rw e refl

reflected-reflected : (key : PawnKey) → reflected (reflected key) ≡ key
unfolding reflected
reflected-reflected key = reverse-reverse key

-- The same canonical form for a key and its reflection, and again for the canonical form.
abbrev IsNormal : PawnKey → Type 0
IsNormal key =
    ((canonicalized (reflected key)).0 ≡ (canonicalized key).0)
    × (canonicalized (canonicalized key).0 ≡ ((canonicalized key).0, false))

IsNormal-by :
    (key : PawnKey) (c : Ordering)
    → orientation key ≡ c
    → orientation (reflected key) ≡ swapped c
    → IsNormal key
unfolding reflected
IsNormal-by key Ordering.lt e e' =
    let k = keeps key (ap is_greater e) in
    let t = turns (reflected key) (ap is_greater e') in
    (
      ap (λ x. x.0) t ∙ reflected-reflected key ∙ sym (ap (λ x. x.0) k),
      ap (λ x. canonicalized x.0) k ∙ k ∙ ap (λ x. (x.0, false)) (sym k),
    )
IsNormal-by key Ordering.eq e e' =
    let k = keeps key (ap is_greater e) in
    let same = cmp_list_eq key (reverse key) (eq_last _ _ e) in
    (
      ap (λ x. (canonicalized x).0) (sym same),
      ap (λ x. canonicalized x.0) k ∙ k ∙ ap (λ x. (x.0, false)) (sym k),
    )
IsNormal-by key Ordering.gt e e' =
    let t = turns key (ap is_greater e) in
    let k = keeps (reflected key) (ap is_greater e') in
    (
      ap (λ x. x.0) k ∙ sym (ap (λ x. x.0) t),
      ap (λ x. canonicalized x.0) t ∙ k ∙ ap (λ x. (x.0, false)) (sym t),
    )

-- A key of eight files and its reflection have the same canonical form, and the canonical form is
-- its own, with no further reflection.
pub canonicalized-reflected :
    (key : PawnKey)
    → length key ≡ 8
    → ((canonicalized (reflected key)).0 ≡ (canonicalized key).0)
      × (canonicalized (canonicalized key).0 ≡ ((canonicalized key).0, false))
canonicalized-reflected key l = IsNormal-by key (orientation key) refl (orientation-reflected key l)
