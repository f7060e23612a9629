-- ===== src/Indexer.antt =====
-- The pure part of `Indexer`, src/egt/indexer.rs: the table of binomial coefficients, the ranking
-- of a group of like pieces in the combinatorial number system, the mixed radix of the groups,
-- and the compaction of square numbers.
-- A buffer is a list; the source's slots are its indices, and a read out of range, which panics in
-- the source, gives 0: the theorems ask that the spans lie in the buffer.
pub mod Choose
pub mod Table
pub mod Largest
pub mod Rank
pub mod Radix
pub mod Plan
pub mod Compact
mod Tests
use chess_egt.Common.{
  ℕ, zero, suc, ◌+◌, ◌-◌, ◌*◌, ◌/◌, ◌%◌, Bool, true, false, ◌&&◌, ◌||◌, Option, none, some, List,
  [], ◌∷◌, tail, map, ltb, leb, ◌==◌, if◌then◌else◌, get_or, get_elem?, set, take, replicate,
  length,
}

-- The inner loop of `initialize_nchoosek`, with the rounds left: row `k` from row `k - 1`.
pub fill_row : List ℕ → ℕ → ℕ → List ℕ → List ℕ
fill_row prev zero n row = row
fill_row prev (suc left) n row =
    fill_row prev left (n + 1) (set row n (get_or prev (n - 1) 0 + get_or row (n - 1) 0))

-- Row `k` of the table that `initialize_nchoosek` returns.
pub choose_row : ℕ → List ℕ
unfolding fill_row
choose_row zero = replicate 65 1
choose_row (suc k) = fill_row (choose_row k) (65 - suc k) (suc k) (replicate 65 0)

-- `N_CHOOSE_K[k][n]`
pub n_choose_k : ℕ → ℕ → ℕ
unfolding choose_row
n_choose_k k n = get_or (choose_row k) n 0

-- The number of leading entries below the target.
pub lower_bound : List ℕ → ℕ → ℕ
lower_bound [] target = 0
lower_bound (x ∷ xs) target = if ltb x target then suc (lower_bound xs target) else 0

pub data Search : Type 0 where
  found : ℕ → Search
  insert_at : ℕ → Search

-- `slice::binary_search` on a sorted slice that holds the target at most once.
binary_search : List ℕ → ℕ → Search
unfolding lower_bound
binary_search row target =
    let p = lower_bound row target in
    elim (get_elem? row p) [
      | none ↦ insert_at p
      | some y ↦ if y == target then found p else insert_at p
    ]

-- The largest `n' < n` with `N_CHOOSE_K[k][n'] <= x`.
pub largest : ℕ → ℕ → ℕ → ℕ
unfolding binary_search choose_row
largest k n x = elim (binary_search (take n (choose_row k)) (x + 1)) [
  | found p ↦ p - 1
  | insert_at p ↦ p - 1
]

-- A non-pawn group: `IndexerPieceGroup` without the kind of its pieces.
pub record Group : Type 0 where
  pub start : ℕ
  pub stop : ℕ
  pub n_squares : ℕ
  pub combinations : ℕ

abbrev pub size : Group → ℕ
size g = g.stop - g.start

-- The loop over `k` of `cpidx_to_index`, with the rounds left.
pub encode_slots : List ℕ → ℕ → ℕ → ℕ → ℕ → ℕ
encode_slots pidx zero k i index = index
encode_slots pidx (suc left) k i index =
    let c = get_or pidx (i - 1) 0 in
    encode_slots pidx left (k + 1) (i - 1) (index + (if k == 1 then c else n_choose_k k c))

-- The loop over the groups of `cpidx_to_index`.
pub encode_groups : List Group → ℕ → List ℕ → ℕ
unfolding encode_slots
encode_groups [] index pidx = index
encode_groups (g ∷ gs) index pidx =
    encode_groups gs (encode_slots pidx (size g) 1 g.stop (index * g.combinations)) pidx

-- The loop over `k` of `index_to_cpidx`, from `k` down to 1.
pub decode_slots : ℕ → ℕ → ℕ → ℕ → List ℕ → List ℕ
decode_slots zero stop n x pidx = pidx
decode_slots (suc zero) stop n x pidx = set pidx (stop - 1) x
decode_slots (suc (suc k)) stop n x pidx =
    let c = largest (suc (suc k)) n x in
    decode_slots (suc k) stop c (x - n_choose_k (suc (suc k)) c) (set pidx (stop - suc (suc k)) c)

-- The loop over the groups of `index_to_cpidx`, the last group first: what is left of the index,
-- and the buffer.
pub decode_groups : List Group → ℕ → List ℕ → ℕ × List ℕ
unfolding decode_slots
decode_groups [] v pidx = (v, pidx)
decode_groups (g ∷ gs) v pidx =
    let (v', pidx') = decode_groups gs v pidx in
    (v' / g.combinations, decode_slots (size g) g.stop g.n_squares (v' % g.combinations) pidx')

-- The loop of `compute_piece_squares`: the squares left to each group.
pub piece_squares : ℕ → List (ℕ × ℕ) → List Group
piece_squares available [] = []
piece_squares available ((start, stop) ∷ spans) =
    record {
      start = start;
      stop = stop;
      n_squares = available;
      combinations = n_choose_k (stop - start) available;
    }
    ∷ piece_squares (available - (stop - start)) spans

-- The number of canonical king pairs in a pawnless endgame.
abbrev pub n_king_pairs : ℕ
n_king_pairs = 462

abbrev kings_first : List Group → List Group
kings_first [] = []
kings_first (g ∷ gs) = record g { n_squares = n_king_pairs; combinations = n_king_pairs } ∷ gs

-- `compute_piece_squares`, from the spans of the groups.
pub compute_piece_squares : List (ℕ × ℕ) → ℕ → List Group
unfolding piece_squares
compute_piece_squares spans n_pawns =
    let groups = piece_squares (64 - n_pawns) spans in
    if n_pawns == 0 then kings_first groups else groups

-- The product of the combinations, `nonpawn_combinations`.
abbrev pub product : List Group → ℕ
product [] = 1
product (g ∷ gs) = g.combinations * product gs

-- The groups that are coded by their slots: in a pawnless table the first group is the king pair,
-- whose number stands in slot 0.
abbrev pub coded_groups : ℕ → List Group → List Group
coded_groups n_pawns groups = if n_pawns == 0 then tail groups else groups

pub cpidx_to_index : ℕ → List Group → List ℕ → ℕ
unfolding encode_groups
cpidx_to_index n_pawns groups pidx =
    encode_groups (coded_groups n_pawns groups) (if n_pawns == 0 then get_or pidx 0 0 else 0) pidx

-- The assertion at the end of `index_to_cpidx`, and what it writes for the kings.
abbrev pub finish : ℕ → ℕ → List ℕ → Option (List ℕ)
finish n_pawns v pidx =
    if n_pawns == 0
    then if ltb v n_king_pairs then some (set (set pidx 0 v) 1 0) else none
    else if v == 0
    then some pidx
    else none

-- `none` is a failed assertion.
pub index_to_cpidx : ℕ → List Group → List ℕ → ℕ → Option (List ℕ)
unfolding decode_groups
index_to_cpidx n_pawns groups pidx index =
    let (v, pidx') = decode_groups (coded_groups n_pawns groups) index pidx in
    finish n_pawns v pidx'

-- `compact_pidx`: every later entry above `v[i]` goes down by one, for each `i` in turn.
abbrev pub lower : ℕ → ℕ → ℕ
lower x y = if ltb x y then y - 1 else y

abbrev pub raise : ℕ → ℕ → ℕ
raise x y = if leb x y then y + 1 else y

pub compact_rounds : ℕ → List ℕ → List ℕ
compact_rounds zero v = v
compact_rounds (suc r) [] = []
compact_rounds (suc r) (x ∷ v) = x ∷ compact_rounds r (map (lower x) v)

pub compact_pidx : List ℕ → List ℕ
unfolding compact_rounds
compact_pidx v = compact_rounds (length v - 1) v

-- `uncompact_cpidx`: the last `i` first, every later entry that is not below `v[i]` goes up by one.
pub uncompact_rounds : ℕ → List ℕ → List ℕ
uncompact_rounds zero v = v
uncompact_rounds (suc r) [] = []
uncompact_rounds (suc r) (x ∷ v) = x ∷ map (raise x) (uncompact_rounds r v)

pub uncompact_cpidx : List ℕ → List ℕ
unfolding uncompact_rounds
uncompact_cpidx v = uncompact_rounds (length v - 1) v
