-- ===== src/Indexer/Plan.antt =====
-- The groups that `compute_piece_squares` sets up, and the index of the pieces other than pawns,
-- src/egt/indexer.rs.
use chess_egt.Common.{
  ℕ, zero, suc, ◌+◌, ◌-◌, ◌*◌, ◌≤◌, ◌<◌, ◌≡◌, refl, ◌∙◌, sym, List, [], ◌∷◌, get_or, set, length,
  arith, dec_lt, some, false, true, ◌==◌, ltb, length-set,
}
use chess_egt.Indexer.{
  Group, product, encode_groups, decode_groups, piece_squares, compute_piece_squares, coded_groups,
  cpidx_to_index, index_to_cpidx, n_king_pairs, finish,
}
use chess_egt.Indexer.Table.{n_choose_k_lem, get_or-set}
use chess_egt.Indexer.Radix.{
  IsPlan, AllFalling, AllFalling-Agree, Agree, encode_shift, decode_groups-length,
  decode_groups-encode_groups, encode_groups-decode_groups, encode_groups-Agree, encode_groups-lt,
}

-- The spans of the groups follow one another from `lo` to `hi`.
abbrev AreSpans : List (ℕ × ℕ) → ℕ → ℕ → Type 0
AreSpans [] lo hi = lo ≡ hi
AreSpans ((start, stop) ∷ spans) lo hi = (start ≡ lo) × (start ≤ stop) × AreSpans spans stop hi

AreSpans-le : (spans : List (ℕ × ℕ)) (lo hi : ℕ) → AreSpans spans lo hi → lo ≤ hi
AreSpans-le [] lo hi h = omega arith
AreSpans-le ((start, stop) ∷ spans) lo hi h = omega (arith, AreSpans-le spans stop hi h.2)

-- Each group is set up on the squares that the pieces before it leave.
piece_squares-IsPlan :
    (spans : List (ℕ × ℕ)) (lo hi available : ℕ)
    → AreSpans spans lo hi
    → hi ≤ 8
    → available + lo ≡ 64
    → IsPlan (piece_squares available spans) lo hi
unfolding piece_squares
piece_squares-IsPlan [] lo hi available h b e = h
piece_squares-IsPlan ((start, stop) ∷ spans) lo hi available h b e =
    let bound = AreSpans-le spans stop hi h.2 in
    (
      record {
        ordered = h.1;
        pieces = omega arith;
        squares = omega arith;
        room = omega arith;
        count = n_choose_k_lem (stop - start) available (omega arith) (omega arith);
      },
      h.0,
      piece_squares-IsPlan spans stop hi (available - (stop - start)) h.2 b (omega arith),
    )

-- In a pawnless table the first group is the king pair, on slots 0 and 1.
abbrev KingsLead : ℕ → List (ℕ × ℕ) → Type 0
KingsLead zero [] = ⊥
KingsLead zero ((start, stop) ∷ spans) = stop ≡ 2
KingsLead (suc n) spans = Unit

-- The spans of a table of `n_pieces` pieces, the pawns in the first slots.
pub record IsTable (n_pawns : ℕ) (spans : List (ℕ × ℕ)) (n_pieces : ℕ) : Type 0 where
  pub consecutive : AreSpans spans n_pawns n_pieces
  pub few : n_pieces ≤ 8
  pub kings : KingsLead n_pawns spans

-- The first slot of the coded groups.
abbrev first_slot : ℕ → ℕ
first_slot zero = 2
first_slot (suc n) = suc n

coded-IsPlan :
    (n_pawns : ℕ) (spans : List (ℕ × ℕ)) (n_pieces : ℕ)
    → IsTable n_pawns spans n_pieces
    → IsPlan
        (coded_groups n_pawns (compute_piece_squares spans n_pawns))
        (first_slot n_pawns)
        n_pieces
unfolding compute_piece_squares piece_squares
coded-IsPlan zero [] n_pieces t = absurd t.kings
coded-IsPlan zero ((start, stop) ∷ spans) n_pieces t =
    piece_squares-IsPlan spans 2 n_pieces (64 - (stop - start))
      (let e : stop ≡ 2 = t.kings in rw e at t.consecutive.2) t.few
      (omega (arith, t.kings, t.consecutive.0))
coded-IsPlan (suc n) spans n_pieces t =
    let test : (suc n == 0) ≡ false = ground arith in
    rw test (
      piece_squares-IsPlan spans (suc n) n_pieces (64 - suc n) t.consecutive t.few
        (omega (arith, AreSpans-le spans (suc n) n_pieces t.consecutive, t.few)))

-- What the coded groups are multiplied by.
abbrev lead_count : ℕ → ℕ
lead_count zero = n_king_pairs
lead_count (suc n) = 1

product_lem :
    (n_pawns : ℕ) (spans : List (ℕ × ℕ)) (n_pieces : ℕ)
    → IsTable n_pawns spans n_pieces
    → product (compute_piece_squares spans n_pawns)
      ≡ lead_count n_pawns * product (coded_groups n_pawns (compute_piece_squares spans n_pawns))
unfolding compute_piece_squares piece_squares
product_lem zero [] n_pieces t = absurd t.kings
product_lem zero ((start, stop) ∷ spans) n_pieces t = refl
product_lem (suc n) spans n_pieces t =
    let test : (suc n == 0) ≡ false = ground arith in rw test (omega arith)

decode_groups-lt :
    (gs : List Group) (lo hi v c : ℕ) (out : List ℕ)
    → IsPlan gs lo hi
    → hi ≤ length out
    → v < c * product gs
    → (decode_groups gs v out).0 < c
decode_groups-lt gs lo hi v c out p l h =
    let (e, f) = encode_groups-decode_groups gs lo hi v out p l in
    let q = (decode_groups gs v out).0 in
    let shift = encode_shift gs q (decode_groups gs v out).1 lo hi p f in
    elim (dec_lt q c) [ yes lt ↦ lt | no ge ↦ absurd (grind (arith, shift, e)) ]

-- The king pair's number stands in slot 0 of a pawnless table, and slot 1 is 0.
abbrev pub KingsCoded : ℕ → List ℕ → Type 0
KingsCoded zero pidx = (get_or pidx 0 0 < n_king_pairs) × (get_or pidx 1 0 ≡ 0)
KingsCoded (suc n) pidx = Unit

-- The leading digit that `cpidx_to_index` starts from.
abbrev pub lead : ℕ → List ℕ → ℕ
lead zero pidx = get_or pidx 0 0
lead (suc n) pidx = 0

cpidx_to_index_lem :
    (n_pawns : ℕ) (groups : List Group) (pidx : List ℕ)
    → cpidx_to_index n_pawns groups pidx
      ≡ encode_groups (coded_groups n_pawns groups) (lead n_pawns pidx) pidx
unfolding cpidx_to_index
cpidx_to_index_lem zero groups pidx = refl
cpidx_to_index_lem (suc n) groups pidx =
    let test : (suc n == 0) ≡ false = ground arith in rw test refl

-- The buffer that is left when the assertion holds.
abbrev finished : ℕ → ℕ → List ℕ → List ℕ
finished zero v pidx = set (set pidx 0 v) 1 0
finished (suc n) v pidx = pidx

finish_lem :
    (n_pawns v : ℕ) (pidx : List ℕ)
    → v < lead_count n_pawns
    → finish n_pawns v pidx ≡ some (finished n_pawns v pidx)
finish_lem zero v pidx h = let test : ltb v n_king_pairs ≡ true = ground arith in rw test refl
finish_lem (suc n) v pidx h =
    let test : (suc n == 0) ≡ false = ground arith in
    let none_left : (v == 0) ≡ true = ground arith in rw (test, none_left) refl

finished-Agree :
    (n_pawns v n_pieces : ℕ) (pidx : List ℕ)
    → 2 ≤ length pidx
    → Agree (finished n_pawns v pidx) pidx (first_slot n_pawns) n_pieces
finished-Agree zero v n_pieces pidx l j h h' =
    let len = length-set pidx 0 v in
    ground
      (arith, get_or-set pidx 0 j v (omega arith), get_or-set (set pidx 0 v) 1 j 0 (omega arith))
finished-Agree (suc n) v n_pieces pidx l j h h' = refl

finished-lead :
    (n_pawns v : ℕ) (pidx : List ℕ)
    → 2 ≤ length pidx
    → v < lead_count n_pawns
    → (lead n_pawns (finished n_pawns v pidx) ≡ v) × KingsCoded n_pawns (finished n_pawns v pidx)
finished-lead zero v pidx l h =
    let len = length-set pidx 0 v in
    let one = get_or-set (set pidx 0 v) 1 0 0 (omega arith) in
    let zero_slot = get_or-set pidx 0 0 v (omega arith) in
    let second = get_or-set (set pidx 0 v) 1 1 0 (omega arith) in
    (ground (arith, one, zero_slot), (ground (arith, one, zero_slot), ground (arith, second)))
finished-lead (suc n) v pidx l h = (omega arith, tt)

lead-lt :
    (n_pawns : ℕ) (pidx : List ℕ) → KingsCoded n_pawns pidx → lead n_pawns pidx < lead_count n_pawns
lead-lt zero pidx k = k.0
lead-lt (suc n) pidx k = omega arith

module _ (n_pawns : ℕ) (spans : List (ℕ × ℕ)) (n_pieces : ℕ)
    (t : IsTable n_pawns spans n_pieces) where
  -- Every index below the number of placements is decoded, with no assertion failing, to falling
  -- squares in each group and in a pawnless table to a king pair's number, from which it is encoded
  -- again.
  pub cpidx_to_index-index_to_cpidx :
      (index : ℕ) (out : List ℕ)
      → index < product (compute_piece_squares spans n_pawns)
      → n_pieces ≤ length out
      → 2 ≤ length out
      → (pidx : List ℕ) × (index_to_cpidx n_pawns (compute_piece_squares spans n_pawns) out index
          ≡ some pidx)
        × (cpidx_to_index n_pawns (compute_piece_squares spans n_pawns) pidx ≡ index)
        × AllFalling (coded_groups n_pawns (compute_piece_squares spans n_pawns)) pidx
        × KingsCoded n_pawns pidx
  unfolding index_to_cpidx
  cpidx_to_index-index_to_cpidx index out h l two =
      let groups = compute_piece_squares spans n_pawns in
      let gs = coded_groups n_pawns groups in
      let p = coded-IsPlan n_pawns spans n_pieces t in
      let v = (decode_groups gs index out).0 in
      let buffer = (decode_groups gs index out).1 in
      let len : 2 ≤ length buffer = omega (arith, decode_groups-length gs index out) in
      let small : v < lead_count n_pawns =
        decode_groups-lt gs (first_slot n_pawns) n_pieces index (lead_count n_pawns) out p l
          (omega (arith, product_lem n_pawns spans n_pieces t)) in
      let (e, f) = encode_groups-decode_groups gs (first_slot n_pawns) n_pieces index out p l in
      let pidx = finished n_pawns v buffer in
      let same = finished-Agree n_pawns v n_pieces buffer len in
      let (led, kings) = finished-lead n_pawns v buffer len small in
      (
        pidx,
        finish_lem n_pawns v buffer small,
        cpidx_to_index_lem n_pawns groups pidx
            ∙ rw led
                (encode_groups-Agree gs (first_slot n_pawns) n_pieces v pidx buffer p same ∙ e),
        AllFalling-Agree gs (first_slot n_pawns) n_pieces buffer pidx p (λ j a b. sym (same j a b))
            f,
        kings,
      )

  -- The index of a placement (falling squares in each group, and in a pawnless table a king pair's
  -- number) is below the number of placements, and is decoded to that placement.
  pub index_to_cpidx-cpidx_to_index :
      (pidx out : List ℕ)
      → AllFalling (coded_groups n_pawns (compute_piece_squares spans n_pawns)) pidx
      → KingsCoded n_pawns pidx
      → n_pieces ≤ length out
      → 2 ≤ length out
      → (cpidx_to_index n_pawns (compute_piece_squares spans n_pawns) pidx
          < product (compute_piece_squares spans n_pawns))
        × ((back : List ℕ) × (index_to_cpidx n_pawns
                (compute_piece_squares spans n_pawns)
                out
                (cpidx_to_index n_pawns (compute_piece_squares spans n_pawns) pidx)
              ≡ some back)
            × (lead n_pawns back ≡ lead n_pawns pidx)
            × Agree back pidx (first_slot n_pawns) n_pieces)
  unfolding index_to_cpidx
  index_to_cpidx-cpidx_to_index pidx out f k l two =
      let groups = compute_piece_squares spans n_pawns in
      let gs = coded_groups n_pawns groups in
      let p = coded-IsPlan n_pawns spans n_pieces t in
      let first = lead n_pawns pidx in
      let index = encode_groups gs first pidx in
      let (e, agree) =
        decode_groups-encode_groups gs (first_slot n_pawns) n_pieces first pidx out p f l in
      let buffer = (decode_groups gs index out).1 in
      let len : 2 ≤ length buffer = omega (arith, decode_groups-length gs index out) in
      let small : first < lead_count n_pawns = lead-lt n_pawns pidx k in
      let same = finished-Agree n_pawns first n_pieces buffer len in
      let (led, kings) = finished-lead n_pawns first buffer len small in
      rw (cpidx_to_index_lem n_pawns groups pidx) (
        grind (
          arith,
          encode_shift gs first pidx (first_slot n_pawns) n_pieces p f,
          encode_groups-lt gs (first_slot n_pawns) n_pieces pidx p f,
          product_lem n_pawns spans n_pieces t,
          small,
        ),
        (
          finished n_pawns first buffer,
          rw e (finish_lem n_pawns first buffer small),
          led,
          λ j a b. same j a b ∙ agree j a b,
        ),
      )
