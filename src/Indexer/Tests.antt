-- ===== src/Indexer/Tests.antt =====
-- Runs of the indexing functions, and the theorems on them at concrete inputs.
use chess_egt.Common.{ℕ, ◌+◌, ◌≤◌, ◌<◌, ◌≡◌, refl, List, [], ◌∷◌, some, get_or, arith}
use chess_egt.Indexer.{
  n_choose_k, largest, encode_slots, decode_slots, compute_piece_squares, product, coded_groups,
  cpidx_to_index, index_to_cpidx, compact_pidx, uncompact_cpidx,
}
use chess_egt.Indexer.Choose.{choose}
use chess_egt.Indexer.Compact
use chess_egt.Indexer.Plan
use chess_egt.Indexer.Radix.{AllFalling, Agree}
use chess_egt.Indexer.Rank
use chess_egt.Indexer.Table

program : Unit {0}
unfolding n_choose_k largest encode_slots decode_slots compute_piece_squares cpidx_to_index
    index_to_cpidx compact_pidx uncompact_cpidx
program = tt

-- KRR_K: the kings in slots 0 and 1, the rooks in slots 2 and 3.
abbrev two_rooks : List (ℕ × ℕ)
two_rooks = (0, 2) ∷ (2, 4) ∷ []

two_rooks_range : product (compute_piece_squares two_rooks 0) ≡ 873_642
unfolding program
two_rooks_range = refl

run_decode :
    index_to_cpidx 0 (compute_piece_squares two_rooks 0) (0 ∷ 0 ∷ 0 ∷ 0 ∷ []) 123_456
    ≡ some (65 ∷ 0 ∷ 33 ∷ 13 ∷ [])
unfolding program
run_decode = refl

run_encode : cpidx_to_index 0 (compute_piece_squares two_rooks 0) (65 ∷ 0 ∷ 33 ∷ 13 ∷ []) ≡ 123_456
unfolding program
run_encode = refl

run_compact : compact_pidx (9 ∷ 4 ∷ 30 ∷ []) ≡ 9 ∷ 4 ∷ 28 ∷ []
unfolding program
run_compact = refl

two_rooks-IsTable : Plan.IsTable 0 two_rooks 4
two_rooks-IsTable = record { consecutive = omega arith; few = omega arith; kings = refl }

abbrev blank : List ℕ
blank = 0 ∷ 0 ∷ 0 ∷ 0 ∷ []

abbrev rooks_placed : List ℕ
rooks_placed = 65 ∷ 0 ∷ 33 ∷ 13 ∷ []

cpidx_to_index-index_to_cpidx_example :
    (pidx : List ℕ) × (index_to_cpidx 0 (compute_piece_squares two_rooks 0) blank 123_456
      ≡ some pidx)
    × (cpidx_to_index 0 (compute_piece_squares two_rooks 0) pidx ≡ 123_456)
    × AllFalling (coded_groups 0 (compute_piece_squares two_rooks 0)) pidx
    × Plan.KingsCoded 0 pidx
cpidx_to_index-index_to_cpidx_example =
    Plan.cpidx_to_index-index_to_cpidx 0 two_rooks 4 two_rooks-IsTable 123_456 blank
      (rw two_rooks_range (omega arith)) (omega arith) (omega arith)

rooks_fall : AllFalling (coded_groups 0 (compute_piece_squares two_rooks 0)) rooks_placed
unfolding program
rooks_fall = omega arith

index_to_cpidx-cpidx_to_index_example :
    (cpidx_to_index 0 (compute_piece_squares two_rooks 0) rooks_placed
      < product (compute_piece_squares two_rooks 0))
    × ((back : List ℕ) × (index_to_cpidx 0
            (compute_piece_squares two_rooks 0)
            blank
            (cpidx_to_index 0 (compute_piece_squares two_rooks 0) rooks_placed)
          ≡ some back)
        × (Plan.lead 0 back ≡ Plan.lead 0 rooks_placed)
        × Agree back rooks_placed 2 4)
index_to_cpidx-cpidx_to_index_example =
    Plan.index_to_cpidx-cpidx_to_index 0 two_rooks 4 two_rooks-IsTable rooks_placed blank rooks_fall
      (omega arith) (omega arith) (omega arith)

abbrev three : List ℕ
three = 40 ∷ 17 ∷ 5 ∷ []

decode_slots-encode_slots_example :
    (encode_slots three 3 1 3 0 < choose 62 3)
    × ((j : ℕ)
        → j < 3
        → 3 ≤ j + 3
        → get_or (decode_slots 3 3 62 (encode_slots three 3 1 3 0) blank) j 0 ≡ get_or three j 0)
decode_slots-encode_slots_example =
    Rank.decode_slots-encode_slots three blank 3 3 62 (omega arith) (omega arith) (omega arith)
      (omega arith) (omega arith)

encode_slots-decode_slots_example :
    (encode_slots (decode_slots 2 3 62 1000 blank) 2 1 3 0 ≡ 1000)
    × Rank.IsFalling (decode_slots 2 3 62 1000 blank) 3 2 62
encode_slots-decode_slots_example =
    Rank.encode_slots-decode_slots blank 2 3 62 1000 (omega arith) (omega arith) (omega arith)
      (omega arith) (omega arith)

uncompact_cpidx-compact_pidx_example :
    (uncompact_cpidx (compact_pidx three) ≡ three) × Compact.IsCompact 64 (compact_pidx three)
uncompact_cpidx-compact_pidx_example =
    Compact.uncompact_cpidx-compact_pidx 64 three (omega arith) (omega arith)

compact_pidx-uncompact_cpidx_example :
    (compact_pidx (uncompact_cpidx (9 ∷ 4 ∷ 28 ∷ [])) ≡ 9 ∷ 4 ∷ 28 ∷ [])
    × Compact.AllDistinct (uncompact_cpidx (9 ∷ 4 ∷ 28 ∷ []))
    × Compact.All (λ y. y < 64) (uncompact_cpidx (9 ∷ 4 ∷ 28 ∷ []))
compact_pidx-uncompact_cpidx_example =
    Compact.compact_pidx-uncompact_cpidx 64 (9 ∷ 4 ∷ 28 ∷ []) (omega arith)

n_choose_k_table_example : (n_choose_k 3 5 ≡ choose 5 3) × (n_choose_k 3 5 ≤ 4_426_165_368)
n_choose_k_table_example = Table.n_choose_k_table 3 5 (omega arith) (omega arith)
