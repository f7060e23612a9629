-- ===== src/Indexer/Rank.antt =====
-- One group in the combinatorial number system: the loops over `k` of `cpidx_to_index` and of
-- `index_to_cpidx`, src/egt/indexer.rs, are inverse to one another.
use chess_egt.Common.{
  ℕ, zero, suc, ◌+◌, ◌-◌, ◌≤◌, ◌<◌, ◌≡◌, refl, ap, ◌∙◌, sym, List, get_or, set, length, length-set,
  if◌then◌else◌, ◌==◌, arith, ◌⊎◌, dec_lt, ℕ_discrete, Bool-cases, inl, inr,
}
use chess_egt.Indexer.{n_choose_k, largest, encode_slots, decode_slots}
use chess_egt.Indexer.Choose.{choose, choose-one, choose_mono}
use chess_egt.Indexer.Largest.{largest_bounds}
use chess_egt.Indexer.Table.{n_choose_k_lem, get_or-set}

-- The number of a group that ends before `stop`: the piece `m` places before the end counts
-- its square over `m`.
abbrev pub rank : List ℕ → ℕ → ℕ → ℕ
rank pidx stop zero = 0
rank pidx stop (suc m) = choose (get_or pidx (stop - suc m) 0) (suc m) + rank pidx stop m

-- The `m` entries before `stop` fall strictly and start below `n`.
abbrev pub IsFalling : List ℕ → ℕ → ℕ → ℕ → Type 0
IsFalling pidx stop zero n = Unit
IsFalling pidx stop (suc m) n =
    let c = get_or pidx (stop - suc m) 0 in (c < n) × IsFalling pidx stop m c

-- The `m` entries before `stop` are columns of the table.
abbrev InTable : List ℕ → ℕ → ℕ → Type 0
InTable pidx stop m = (j : ℕ) → j < stop → stop ≤ j + m → get_or pidx j 0 ≤ 64

step_weight :
    (k c : ℕ) → 0 < k → k ≤ 8 → c ≤ 64 → (if k == 1 then c else n_choose_k k c) ≡ choose c k
step_weight k c p h b = elim (Bool-cases (k == 1)) [
  | inl one ↦ let e : k ≡ 1 = ground arith in rw one (rw e (sym (choose-one c)))
  | inr more ↦ rw more (n_choose_k_lem k c h b)
]

encode_slots_lem :
    (pidx : List ℕ) (left k m t stop i index : ℕ)
    → k ≡ suc m
    → left + m ≡ t
    → i + m ≡ stop
    → t ≤ stop
    → t ≤ 8
    → InTable pidx stop t
    → encode_slots pidx left k i index + rank pidx stop m ≡ index + rank pidx stop t
unfolding encode_slots
encode_slots_lem pidx zero k m t stop i index ek et ei h h' b =
    let e : m ≡ t = omega arith in rw e refl
encode_slots_lem pidx (suc left) k m t stop i index ek et ei h h' b =
    let c = get_or pidx (i - 1) 0 in
    let place : stop - suc m ≡ i - 1 = omega arith in
    let weight : (if k == 1 then c else n_choose_k k c) ≡ choose c (suc m) =
      rw (← ek)
        (step_weight k c (omega arith) (omega arith) (b (i - 1) (omega arith) (omega arith))) in
    let more =
      encode_slots_lem pidx left (k + 1) (suc m) t stop (i - 1)
        (index + (if k == 1 then c else n_choose_k k c)) (omega arith) (omega arith) (omega arith) h
        h' b in
    omega (arith, more, weight, ap (λ (j : ℕ). choose (get_or pidx j 0) (suc m)) place)

-- Encoding a group adds its rank to the index.
pub encode_slots-rank :
    (pidx : List ℕ) (m stop index : ℕ)
    → m ≤ stop
    → m ≤ 8
    → InTable pidx stop m
    → encode_slots pidx m 1 stop index ≡ index + rank pidx stop m
encode_slots-rank pidx m stop index h h' b =
    omega
      (arith, encode_slots_lem pidx m 1 0 m stop stop index refl (omega arith) (omega arith) h h' b)

-- A falling group is a column of the table in each slot.
pub IsFalling-InTable :
    (pidx : List ℕ) (stop m n : ℕ)
    → n ≤ 64
    → m ≤ stop
    → IsFalling pidx stop m n
    → InTable pidx stop m
IsFalling-InTable pidx stop zero n h h' f j lt le = absurd (omega arith)
IsFalling-InTable pidx stop (suc m) n h h' f j lt le = elim (ℕ_discrete j (stop - suc m)) [
  | yes e ↦ rw e (omega (arith, f.0))
  | no ne ↦
      IsFalling-InTable pidx stop m (get_or pidx (stop - suc m) 0) (omega (arith, f.0))
        (omega arith) f.1 j lt (omega arith)
]

-- A falling group below `n` has a rank below `n` over its size.
pub rank-lt :
    (pidx : List ℕ) (stop m n : ℕ) → IsFalling pidx stop m n → rank pidx stop m < choose n m
rank-lt pidx stop zero n f = omega arith
rank-lt pidx stop (suc m) n f =
    let c = get_or pidx (stop - suc m) 0 in
    omega (arith, rank-lt pidx stop m c f.1, choose_mono (suc m) n (suc c) f.0)

-- `decode_slots` writes only the slots of its group, and keeps the length of the buffer.
pub decode_slots-length :
    (m stop n x : ℕ) (out : List ℕ) → length (decode_slots m stop n x out) ≡ length out
unfolding decode_slots
decode_slots-length zero stop n x out = refl
decode_slots-length (suc zero) stop n x out = length-set out (stop - 1) x
decode_slots-length (suc (suc m)) stop n x out =
    let c = largest (suc (suc m)) n x in
    decode_slots-length (suc m) stop c _ (set out (stop - suc (suc m)) c)
    ∙ length-set out (stop - suc (suc m)) c

pub decode_slots_outside :
    (m stop n x : ℕ) (out : List ℕ) (j : ℕ)
    → m ≤ stop
    → stop ≤ length out
    → (j < stop - m) ⊎ (stop ≤ j)
    → get_or (decode_slots m stop n x out) j 0 ≡ get_or out j 0
unfolding decode_slots
decode_slots_outside zero stop n x out j h l o = refl
decode_slots_outside (suc zero) stop n x out j h l o =
    ground (arith, get_or-set out (stop - 1) j x (omega arith))
decode_slots_outside (suc (suc m)) stop n x out j h l o =
    let c = largest (suc (suc m)) n x in
    let out' = set out (stop - suc (suc m)) c in
    let first : get_or out' j 0 ≡ get_or out j 0 =
      ground (arith, get_or-set out (stop - suc (suc m)) j c (omega arith)) in
    let len = length-set out (stop - suc (suc m)) c in
    decode_slots_outside (suc m) stop c (x - n_choose_k (suc (suc m)) c) out' j (omega arith)
      (omega arith) (omega arith)
    ∙ first

IsFalling-cons :
    (pidx : List ℕ) (stop m n c x : ℕ)
    → get_or pidx (stop - suc m) 0 ≡ c
    → c < n
    → choose c (suc m) ≤ x
    → (rank pidx stop m ≡ x - choose c (suc m)) × IsFalling pidx stop m c
    → (rank pidx stop (suc m) ≡ x) × IsFalling pidx stop (suc m) n
IsFalling-cons pidx stop m n c x e lt le f =
    (omega (arith, f.0, ap (λ (t : ℕ). choose t (suc m)) e), (omega arith, rw e f.1))

-- Decoding a number below `n` over `m` gives a falling group below `n` of that rank.
pub rank-decode_slots :
    (m stop n x : ℕ) (out : List ℕ)
    → m ≤ 8
    → n ≤ 64
    → m ≤ stop
    → stop ≤ length out
    → x < choose n m
    → (rank (decode_slots m stop n x out) stop m ≡ x)
      × IsFalling (decode_slots m stop n x out) stop m n
unfolding decode_slots
rank-decode_slots zero stop n x out h b e l lt = (omega arith, tt)
rank-decode_slots (suc zero) stop n x out h b e l lt =
    let here : get_or (set out (stop - 1) x) (stop - 1) 0 ≡ x =
      ground (arith, get_or-set out (stop - 1) (stop - 1) x (omega arith)) in
    (
      omega (arith, choose-one (get_or (set out (stop - 1) x) (stop - 1) 0)),
      (omega (arith, choose-one n), tt),
    )
rank-decode_slots (suc (suc m)) stop n x out h b e l lt =
    let k = suc (suc m) in
    let c = largest k n x in
    let at = stop - k in
    let out' = set out at c in
    let pos : 0 < n = elim (dec_lt 0 n) [
      | yes z ↦ z
      | no z ↦ absurd (omega (arith, choose_mono (suc (suc m)) 0 n (omega arith)))
    ] in
    let (below, le, next) = largest_bounds k n x (omega arith) h pos b lt in
    let entry = n_choose_k_lem k c h (omega arith) in
    let len : stop ≤ length out' = omega (arith, length-set out at c) in
    let here : get_or out' at 0 ≡ c = ground (arith, get_or-set out at at c (omega arith)) in
    let x' = x - n_choose_k k c in
    let kept =
      decode_slots_outside (suc m) stop c x' out' at (omega arith) len (inl (omega arith)) in
    let (r, f) =
      rank-decode_slots (suc m) stop c x' out' (omega arith) (omega arith) (omega arith) len
        (omega (arith, entry)) in
    IsFalling-cons (decode_slots (suc m) stop c x' out') stop (suc m) n c x (kept ∙ here) below le
      (omega (arith, r, entry), f)

-- Falling groups of one rank have the same squares.
rank_injective :
    (a b : List ℕ) (stop m n : ℕ)
    → IsFalling a stop m n
    → IsFalling b stop m n
    → rank a stop m ≡ rank b stop m
    → (j : ℕ) → j < stop
    → stop ≤ j + m
    → get_or a j 0 ≡ get_or b j 0
rank_injective a b stop zero n f g e j lt le = absurd (omega arith)
rank_injective a b stop (suc m) n f g e j lt le =
    let ca = get_or a (stop - suc m) 0 in
    let cb = get_or b (stop - suc m) 0 in
    let same : ca ≡ cb = elim (dec_lt ca cb) [
      | yes l ↦ absurd (omega (arith, rank-lt a stop m ca f.1, choose_mono (suc m) cb (suc ca) l))
      | no l ↦ elim (dec_lt cb ca) [
        | yes l' ↦
            absurd (omega (arith, rank-lt b stop m cb g.1, choose_mono (suc m) ca (suc cb) l'))
        | no l' ↦ omega arith
      ]
    ] in
    let rest : rank a stop m ≡ rank b stop m =
      omega (arith, ap (λ (t : ℕ). choose t (suc m)) same) in
    elim (ℕ_discrete j (stop - suc m)) [
      | yes p ↦ rw p same
      | no p ↦ rank_injective a b stop m ca f.1 (rw same g.1) rest j lt (omega arith)
    ]

-- The loops over the slots of a group are inverse. A group of at most eight pieces with strictly
-- falling squares below `n` is decoded from its number to the same squares, and the number is below
-- `n` over the size of the group.
pub decode_slots-encode_slots :
    (pidx out : List ℕ) (m stop n : ℕ)
    → m ≤ 8
    → n ≤ 64
    → m ≤ stop
    → stop ≤ length out
    → IsFalling pidx stop m n
    → (encode_slots pidx m 1 stop 0 < choose n m)
      × ((j : ℕ)
          → j < stop
          → stop ≤ j + m
          → get_or (decode_slots m stop n (encode_slots pidx m 1 stop 0) out) j 0 ≡ get_or pidx j 0)
decode_slots-encode_slots pidx out m stop n h b le l f =
    let number = encode_slots-rank pidx m stop 0 le h (IsFalling-InTable pidx stop m n b le f) in
    let lt : encode_slots pidx m 1 stop 0 < choose n m =
      omega (arith, number, rank-lt pidx stop m n f) in
    let (r, g) = rank-decode_slots m stop n (encode_slots pidx m 1 stop 0) out h b le l lt in
    (lt, rank_injective _ pidx stop m n g f (omega (arith, r, number)))

-- Every number below `n` over the size of a group is the number of the falling group below `n` that
-- it is decoded to.
pub encode_slots-decode_slots :
    (out : List ℕ) (m stop n x : ℕ)
    → m ≤ 8
    → n ≤ 64
    → m ≤ stop
    → stop ≤ length out
    → x < choose n m
    → (encode_slots (decode_slots m stop n x out) m 1 stop 0 ≡ x)
      × IsFalling (decode_slots m stop n x out) stop m n
encode_slots-decode_slots out m stop n x h b le l lt =
    let (r, f) = rank-decode_slots m stop n x out h b le l lt in
    let buffer = decode_slots m stop n x out in
    let number =
      encode_slots-rank buffer m stop 0 le h (IsFalling-InTable buffer stop m n b le f) in
    (omega (arith, r, number), f)
