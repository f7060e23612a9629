-- ===== src/Indexer/Radix.antt =====
-- The groups of a table in mixed radix: the loops over the groups of `cpidx_to_index` and
-- `index_to_cpidx`, src/egt/indexer.rs.
use chess_egt.Common.{
  ℕ, zero, suc, ◌+◌, ◌-◌, ◌*◌, ◌/◌, ◌%◌, ◌≤◌, ◌<◌, ◌≡◌, refl, ◌∙◌, sym, inr, List, [], ◌∷◌, get_or,
  length, arith, dec_lt,
}
use native.Mathlib.Nat.{
  mul-add-div_right, div-eq_of_lt, mul-add-mod_self_right, mod-eq_of_lt, mod-lt, div-add-mod',
}
use chess_egt.Indexer.{
  Group, size, encode_slots, encode_groups, decode_slots, decode_groups, product,
}
use chess_egt.Indexer.Choose.{choose, choose_pos}
use chess_egt.Indexer.Rank.{
  IsFalling, IsFalling-InTable, rank, rank-lt, encode_slots-rank, rank-decode_slots,
  decode_slots-length, decode_slots_outside, decode_slots-encode_slots,
}

-- One group is set up: its span is in order, it has at most eight pieces and at most 64 squares,
-- and its number of combinations is that of its pieces on its squares.
pub record IsGroup (g : Group) : Type 0 where
  pub ordered : g.start ≤ g.stop
  pub pieces : size g ≤ 8
  pub squares : g.n_squares ≤ 64
  pub room : size g ≤ g.n_squares
  pub count : g.combinations ≡ choose g.n_squares (size g)

-- The spans of the groups follow one another from `lo` to `hi`.
abbrev pub IsPlan : List Group → ℕ → ℕ → Type 0
IsPlan [] lo hi = lo ≡ hi
IsPlan (g ∷ gs) lo hi = IsGroup g × (g.start ≡ lo) × IsPlan gs g.stop hi

-- The pieces of each group stand on falling squares of the group's.
abbrev pub AllFalling : List Group → List ℕ → Type 0
AllFalling [] pidx = Unit
AllFalling (g ∷ gs) pidx = IsFalling pidx g.stop (size g) g.n_squares × AllFalling gs pidx

IsPlan-le : (gs : List Group) (lo hi : ℕ) → IsPlan gs lo hi → lo ≤ hi
IsPlan-le [] lo hi p = omega arith
IsPlan-le (g ∷ gs) lo hi p = omega (arith, IsPlan-le gs g.stop hi p.2, p.0.ordered)

-- The number of one group.
abbrev number : Group → List ℕ → ℕ
number g pidx = rank pidx g.stop (size g)

encode_one :
    (g : Group) (pidx : List ℕ) (index : ℕ)
    → IsGroup g
    → IsFalling pidx g.stop (size g) g.n_squares
    → encode_slots pidx (size g) 1 g.stop index ≡ index + number g pidx
encode_one g pidx index w f =
    encode_slots-rank pidx (size g) g.stop index (omega arith) w.pieces
      (IsFalling-InTable pidx g.stop (size g) g.n_squares w.squares (omega arith) f)

number-lt :
    (g : Group) (pidx : List ℕ)
    → IsGroup g
    → IsFalling pidx g.stop (size g) g.n_squares
    → number g pidx < g.combinations
number-lt g pidx w f = rw w.count (rank-lt pidx g.stop (size g) g.n_squares f)

-- Encoding from `index` on is encoding from 0 on, beyond `index` times the product.
pub encode_shift :
    (gs : List Group) (index : ℕ) (pidx : List ℕ) (lo hi : ℕ)
    → IsPlan gs lo hi
    → AllFalling gs pidx
    → encode_groups gs index pidx ≡ index * product gs + encode_groups gs 0 pidx
unfolding encode_groups
encode_shift [] index pidx lo hi p f = omega arith
encode_shift (g ∷ gs) index pidx lo hi p f =
    let n = number g pidx in
    rw
      (
        encode_one g pidx (index * g.combinations) p.0 f.0,
        encode_one g pidx (0 * g.combinations) p.0 f.0,
      )
      (omega (
        arith,
        encode_shift gs (index * g.combinations + n) pidx g.stop hi p.2 f.1,
        encode_shift gs (0 * g.combinations + n) pidx g.stop hi p.2 f.1,
      ))

-- Two buffers have the same entries from `lo` up to `hi`.
abbrev pub Agree : List ℕ → List ℕ → ℕ → ℕ → Type 0
Agree a b lo hi = (j : ℕ) → lo ≤ j → j < hi → get_or a j 0 ≡ get_or b j 0

pub decode_groups-length :
    (gs : List Group) (v : ℕ) (out : List ℕ) → length (decode_groups gs v out).1 ≡ length out
unfolding decode_groups
decode_groups-length [] v out = refl
decode_groups-length (g ∷ gs) v out =
    decode_slots-length (size g) g.stop g.n_squares _ (decode_groups gs v out).1
    ∙ decode_groups-length gs v out

quotient : (index c n : ℕ) → n < c → (index * c + n) / c ≡ index
quotient index c n h =
    omega (arith, mul-add-div_right {m = c} (omega arith) index n, div-eq_of_lt h)

remainder : (index c n : ℕ) → n < c → (index * c + n) % c ≡ n
remainder index c n h = mul-add-mod_self_right index c n ∙ mod-eq_of_lt h

-- The mixed radix is inverse to itself. For groups whose spans follow one another from `lo` to
-- `hi`, each with its pieces on falling squares: decoding the encoded number gives back the index
-- that the encoding started from, and a buffer with the same squares in all those spans.
pub decode_groups-encode_groups :
    (gs : List Group) (lo hi index : ℕ) (pidx out : List ℕ)
    → IsPlan gs lo hi
    → AllFalling gs pidx
    → hi ≤ length out
    → ((decode_groups gs (encode_groups gs index pidx) out).0 ≡ index)
      × Agree (decode_groups gs (encode_groups gs index pidx) out).1 pidx lo hi
unfolding decode_groups encode_groups
decode_groups-encode_groups [] lo hi index pidx out p f l = (refl, λ j a b. absurd (omega arith))
decode_groups-encode_groups (g ∷ gs) lo hi index pidx out p f l =
    let n = number g pidx in
    let lt = number-lt g pidx p.0 f.0 in
    let next = index * g.combinations + n in
    let bound = IsPlan-le gs g.stop hi p.2 in
    let (e, same) = decode_groups-encode_groups gs g.stop hi next pidx out p.2 f.1 l in
    let len = decode_groups-length gs (encode_groups gs next pidx) out in
    let buffer = (decode_groups gs (encode_groups gs next pidx) out).1 in
    let (_, here) =
      decode_slots-encode_slots pidx buffer (size g) g.stop g.n_squares p.0.pieces p.0.squares
        (omega arith) (omega arith) f.0 in
    let first : encode_slots pidx (size g) 1 g.stop 0 ≡ n =
      omega (arith, encode_one g pidx 0 p.0 f.0) in
    rw
      (
        encode_one g pidx (index * g.combinations) p.0 f.0,
        e,
        quotient index g.combinations n lt,
        remainder index g.combinations n lt,
      )
      (
        refl,
        λ j a b. elim (dec_lt j g.stop) [
          | yes inside ↦ rw first at (here j inside (omega (arith, p.1)))
          | no after ↦
              decode_slots_outside (size g) g.stop g.n_squares n buffer j (omega arith)
                (omega arith) (inr (omega arith))
              ∙ same j (omega arith) b
        ],
      )

encode_slots-Agree :
    (left k i index : ℕ) (a b : List ℕ) (lo hi : ℕ)
    → lo + left ≤ i
    → i ≤ hi
    → Agree a b lo hi
    → encode_slots a left k i index ≡ encode_slots b left k i index
unfolding encode_slots
encode_slots-Agree zero k i index a b lo hi h h' same = refl
encode_slots-Agree (suc left) k i index a b lo hi h h' same =
    rw (same (i - 1) (omega arith) (omega arith))
      (encode_slots-Agree left (k + 1) (i - 1) _ a b lo hi (omega arith) (omega arith) same)

pub encode_groups-Agree :
    (gs : List Group) (lo hi index : ℕ) (a b : List ℕ)
    → IsPlan gs lo hi
    → Agree a b lo hi
    → encode_groups gs index a ≡ encode_groups gs index b
unfolding encode_groups
encode_groups-Agree [] lo hi index a b p same = refl
encode_groups-Agree (g ∷ gs) lo hi index a b p same =
    let bound = IsPlan-le gs g.stop hi p.2 in
    rw
      (encode_slots-Agree (size g) 1 g.stop (index * g.combinations) a b lo hi
        (omega (arith, p.1, p.0.ordered)) bound same)
      (encode_groups-Agree gs g.stop hi _ a b p.2
        (λ j h h'. same j (omega (arith, p.1, p.0.ordered)) h'))

IsFalling-Agree :
    (m stop n : ℕ) (a b : List ℕ) (lo hi : ℕ)
    → lo + m ≤ stop
    → stop ≤ hi
    → Agree a b lo hi
    → IsFalling a stop m n
    → IsFalling b stop m n
IsFalling-Agree zero stop n a b lo hi h h' same f = tt
IsFalling-Agree (suc m) stop n a b lo hi h h' same f =
    let e = same (stop - suc m) (omega arith) (omega arith) in
    (omega (arith, e, f.0), IsFalling-Agree m stop _ a b lo hi (omega arith) h' same (rw e at f.1))

pub AllFalling-Agree :
    (gs : List Group) (lo hi : ℕ) (a b : List ℕ)
    → IsPlan gs lo hi
    → Agree a b lo hi
    → AllFalling gs a
    → AllFalling gs b
AllFalling-Agree [] lo hi a b p same f = tt
AllFalling-Agree (g ∷ gs) lo hi a b p same f =
    let bound = IsPlan-le gs g.stop hi p.2 in
    (
      IsFalling-Agree (size g) g.stop g.n_squares a b lo hi (omega (arith, p.1, p.0.ordered)) bound
          same f.0,
      AllFalling-Agree gs g.stop hi a b p.2 (λ j h h'. same j (omega (arith, p.1, p.0.ordered)) h')
          f.1,
    )

-- Every number is decoded to falling squares, and to a quotient from which the encoding of these
-- squares gives the number again. So with the quotient 0 each number below the product of the
-- combinations belongs to just one placement.
pub encode_groups-decode_groups :
    (gs : List Group) (lo hi v : ℕ) (out : List ℕ)
    → IsPlan gs lo hi
    → hi ≤ length out
    → (encode_groups gs (decode_groups gs v out).0 (decode_groups gs v out).1 ≡ v)
      × AllFalling gs (decode_groups gs v out).1
unfolding decode_groups encode_groups
encode_groups-decode_groups [] lo hi v out p l = (refl, tt)
encode_groups-decode_groups (g ∷ gs) lo hi v out p l =
    let (e, f) = encode_groups-decode_groups gs g.stop hi v out p.2 l in
    let v' = (decode_groups gs v out).0 in
    let before = (decode_groups gs v out).1 in
    let len = decode_groups-length gs v out in
    let bound = IsPlan-le gs g.stop hi p.2 in
    let some_way = choose_pos g.n_squares (size g) p.0.room in
    let small : v' % g.combinations < g.combinations = mod-lt v' (omega (arith, p.0.count)) in
    let x = v' % g.combinations in
    let (r, g_falls) =
      rank-decode_slots (size g) g.stop g.n_squares x before p.0.pieces p.0.squares (omega arith)
        (omega arith) (omega (arith, p.0.count)) in
    let after = decode_slots (size g) g.stop g.n_squares x before in
    let same : Agree before after g.stop hi = λ j h h'. sym (
      decode_slots_outside (size g) g.stop g.n_squares x before j (omega arith) (omega arith)
        (inr h)) in
    let back : v' / g.combinations * g.combinations + number g after ≡ v' =
      omega (arith, r, div-add-mod' v' g.combinations) in
    (
      rw (encode_one g after (v' / g.combinations * g.combinations) p.0 g_falls, back)
          (sym (encode_groups-Agree gs g.stop hi v' before after p.2 same) ∙ e),
      (g_falls, AllFalling-Agree gs g.stop hi before after p.2 same f),
    )

-- The index of a placement of the pieces is below the product of the combinations.
pub encode_groups-lt :
    (gs : List Group) (lo hi : ℕ) (pidx : List ℕ)
    → IsPlan gs lo hi
    → AllFalling gs pidx
    → encode_groups gs 0 pidx < product gs
unfolding encode_groups
encode_groups-lt [] lo hi pidx p f = omega arith
encode_groups-lt (g ∷ gs) lo hi pidx p f = rw (encode_one g pidx (0 * g.combinations) p.0 f.0) (
    grind (
      arith,
      encode_shift gs (0 * g.combinations + number g pidx) pidx g.stop hi p.2 f.1,
      encode_groups-lt gs g.stop hi pidx p.2 f.1,
      number-lt g pidx p.0 f.0,
    ))
