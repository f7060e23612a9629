-- ===== src/TableId/Words.antt =====
-- The file words of `PawnKey`, src/table_id.rs, one by one: a word of up to six pawns is below 2 ^
-- 7.
use chess_egt.Common.{
  ℕ, zero, suc, ◌+◌, ◌^◌, ◌<◌, ◌≡◌, refl, sym, ap, ◌∙◌, Bool, true, false, ◌&&◌, List, [], ◌∷◌, ltb,
  ltb→lt, ◌==◌, ==_iff, length, arith, dec_lt, ◌-◌, if◌then◌else◌, map, length-map, ◌++◌,
  length-append, replicate, set-append, Bool-cases, inl, inr,
}
use mathlib.Core.List.{reverse}
use chess_egt.PieceSet
use chess_egt.PieceSet.{
  EgtSide, side_to_move, side_not_to_move, EgtElement, pawn_group, piece_group,
}
use chess_egt.TableId.{
  same_side, PawnKey, twin_word, twin, word_of, order_of, ilog2, add_elements, elements_from,
  elements, from_elements,
}

abbrev all_below : ℕ → (ℕ → Bool) → Bool
all_below zero p = true
all_below (suc n) p = p n && all_below n p

all_below_lem : (n : ℕ) (p : ℕ → Bool) (i : ℕ) → all_below n p ≡ true → i < n → p i ≡ true
all_below_lem zero p i e h = absurd (omega (arith, h))
all_below_lem (suc n) p i e h = elim (dec_lt i n) [
  | yes lt ↦ all_below_lem n p i (ground (arith, e)) lt
  | no ge ↦ let same : i ≡ n = omega (arith, h, ge) in rw same (ground (arith, e))
]

and_left : (a b : Bool) → (a && b) ≡ true → a ≡ true
and_left true b e = refl
and_left false b e = cc

and_right : (a b : Bool) → (a && b) ≡ true → b ≡ true
and_right true b e = e
and_right false b e = cc

abbrev twin_test : ℕ → Bool
twin_test w = twin_word (twin_word w) == w && (ltb 0 (twin_word w) && ltb (twin_word w) 128)

twin_tested : all_below 127 (λ i. twin_test (i + 1)) ≡ true
twin_tested = refl

-- The pawns of a file as the other side sees them: the last rank first, and the sides exchanged.
abbrev pub twin_order : List EgtSide → List EgtSide
twin_order order = reverse (map PieceSet.reverse order)

abbrev pub twin_element : EgtElement → EgtElement
twin_element (pawn_group file order) = pawn_group file (twin_order order)
twin_element (piece_group role side n) = piece_group role (PieceSet.reverse side) n

abbrev same_order : List EgtSide → List EgtSide → Bool
same_order [] [] = true
same_order [] (y ∷ ys) = false
same_order (x ∷ xs) [] = false
same_order (x ∷ xs) (y ∷ ys) = same_side x y && same_order xs ys

same_order_lem : (a b : List EgtSide) → same_order a b ≡ true → a ≡ b
same_order_lem [] [] e = refl
same_order_lem [] (y ∷ ys) e = cc
same_order_lem (x ∷ xs) [] e = cc
same_order_lem (side_to_move ∷ xs) (side_to_move ∷ ys) e =
    ap (◌∷◌ side_to_move) (same_order_lem xs ys e)
same_order_lem (side_not_to_move ∷ xs) (side_not_to_move ∷ ys) e =
    ap (◌∷◌ side_not_to_move) (same_order_lem xs ys e)
same_order_lem (side_to_move ∷ xs) (side_not_to_move ∷ ys) e = cc
same_order_lem (side_not_to_move ∷ xs) (side_to_move ∷ ys) e = cc

abbrev turn_test : ℕ → Bool
turn_test w =
    same_order (order_of (twin_word w)) (twin_order (order_of w)) && ilog2 (twin_word w) == ilog2 w

turn_tested : all_below 127 (λ i. turn_test (i + 1)) ≡ true
turn_tested = refl

abbrev order_test : ℕ → Bool
order_test w = word_of (order_of w) == w && length (order_of w) == ilog2 w

order_tested : all_below 127 (λ i. order_test (i + 1)) ≡ true
order_tested = refl

abbrev length_test : ℕ → Bool
length_test w = if ilog2 w == 0 then w == 1 else true

length_tested : all_below 127 (λ i. length_test (i + 1)) ≡ true
length_tested = refl

-- A word of at most six pawns.
abbrev pub IsWord : ℕ → Type 0
IsWord w = (0 < w) × (w < 2 ^ 7)

word_test : (p : ℕ → Bool) (w : ℕ) → all_below 127 (λ i. p (i + 1)) ≡ true → IsWord w → p w ≡ true
word_test p w e (pos, small) =
    let same : w ≡ w - 1 + 1 = omega (arith, pos) in
    ap p same ∙ all_below_lem 127 (λ i. p (i + 1)) (w - 1) e (omega (arith, pos, small))

twin_word_facts : (w : ℕ) → IsWord w → (twin_word (twin_word w) ≡ w) × IsWord (twin_word w)
twin_word_facts w h =
    let v = twin_word w in
    let back = twin_word v == w in
    let low = ltb 0 v in
    let high = ltb v 128 in
    let t = word_test twin_test w twin_tested h in
    let within = and_right back (low && high) t in
    (
      (==_iff (twin_word v) w).0 (and_left back (low && high) t),
      (ltb→lt 0 v (and_left low high within), ltb→lt v 128 (and_right low high within)),
    )

word_of-order_of : (w : ℕ) → IsWord w → word_of (order_of w) ≡ w
word_of-order_of w h =
    let t = word_test order_test w order_tested h in
    (==_iff (word_of (order_of w)) w).0
      (and_left (word_of (order_of w) == w) (length (order_of w) == ilog2 w) t)

empty_word : (w : ℕ) → IsWord w → (ilog2 w == 0) ≡ true → w ≡ 1
empty_word w h e =
    let t0 = word_test length_test w length_tested h in let t = rw e at t0 in (==_iff w 1).0 t

abbrev AllWords : List ℕ → Type 0
AllWords [] = Unit
AllWords (w ∷ ws) = IsWord w × AllWords ws

-- Eight words of at most six pawns each.
abbrev pub IsKey : PawnKey → Type 0
IsKey key = (length key ≡ 8) × AllWords key

map-twin_word :
    (key : PawnKey)
    → AllWords key
    → (map twin_word (map twin_word key) ≡ key) × AllWords (map twin_word key)
map-twin_word [] all = (refl, tt)
map-twin_word (w ∷ key) (h, all) =
    let (e, h') = twin_word_facts w h in
    let (es, all') = map-twin_word key all in (rw (e, es) refl, (h', all'))

order_of-twin_word :
    (w : ℕ)
    → IsWord w
    → (order_of (twin_word w) ≡ twin_order (order_of w)) × (ilog2 (twin_word w) ≡ ilog2 w)
order_of-twin_word w h =
    let t = word_test turn_test w turn_tested h in
    let turned = same_order (order_of (twin_word w)) (twin_order (order_of w)) in
    let size = ilog2 (twin_word w) == ilog2 w in
    (
      same_order_lem (order_of (twin_word w)) (twin_order (order_of w)) (and_left turned size t),
      (==_iff (ilog2 (twin_word w)) (ilog2 w)).0 (and_right turned size t),
    )

elements_from-twin_word :
    (file : ℕ) (words : List ℕ)
    → AllWords words
    → elements_from file (map twin_word words) ≡ map twin_element (elements_from file words)
elements_from-twin_word file [] all = refl
elements_from-twin_word file (w ∷ words) (h, all) =
    let (turned, size) = order_of-twin_word w h in
    let rest = elements_from-twin_word (file + 1) words all in
    elim (Bool-cases (ilog2 w == 0)) [
      | inl t ↦ rw (size, t) rest
      | inr f ↦ rw (turned, size, f, rest) refl
    ]

-- For a key of eight files with at most six pawns each: its twin has the same files with pawns,
-- each with the pawns in the opposite order and on the opposite sides; the twin is such a key too,
-- and its twin is the key itself.
pub elements-twin :
    (key : PawnKey)
    → IsKey key
    → (elements (twin key) ≡ map twin_element (elements key))
      × (twin (twin key) ≡ key)
      × IsKey (twin key)
unfolding twin elements
elements-twin key (l, all) =
    let (e, all') = map-twin_word key all in
    (elements_from-twin_word 0 key all, e, (length-map key twin_word ∙ l, all'))

length-snoc : (a : List ℕ) (x : ℕ) → length (a ++ x ∷ []) ≡ suc (length a)
length-snoc a x = omega (arith, length-append a (x ∷ []))

append_snoc : (a : List ℕ) (x : ℕ) (b : List ℕ) → (a ++ x ∷ []) ++ b ≡ a ++ x ∷ b
append_snoc [] x b = refl
append_snoc (y ∷ a) x b = ap (◌∷◌ y) (append_snoc a x b)

add_elements-elements_from :
    (before words : List ℕ)
    → AllWords words
    → add_elements (elements_from (length before) words) (before ++ replicate (length words) 1)
      ≡ before ++ words
add_elements-elements_from before [] all = refl
add_elements-elements_from before (w ∷ words) (h, all) =
    let next : length before + 1 ≡ length (before ++ w ∷ []) =
      omega (arith, length-snoc before w) in
    let ones : List ℕ = replicate (length words) 1 in
    elim (Bool-cases (ilog2 w == 0)) [
      | inl t ↦
          let one = empty_word w h t in
          let ih = add_elements-elements_from (before ++ w ∷ []) words all in
          let ih' = rw (append_snoc before w ones, append_snoc before w words) at ih in
          let rest = elements_from (length (before ++ w ∷ [])) words in
          rw (t, next) (ap (λ x. add_elements rest (before ++ x ∷ ones)) (sym one) ∙ ih')
      | inr f ↦
          rw (f, next, word_of-order_of w h, set-append before 1 w ones)
            (let ih = add_elements-elements_from (before ++ w ∷ []) words all in
              rw (append_snoc before w ones, append_snoc before w words) at ih)
    ]

-- A key is read back from its elements.
pub from_elements-elements : (key : PawnKey) → IsKey key → from_elements (elements key) ≡ key
unfolding from_elements elements
from_elements-elements key (l, all) = let e = add_elements-elements_from [] key all in rw l at e
