-- ===== src/Retrograde/Solver/Start/Cover.antt =====
-- The summary that `initialize_table` of src/retrograde.rs leaves covers the values it writes.
use chess_egt.Common.{
  ℕ, zero, suc, ◌+◌, ◌-◌, ◌*◌, ◌/◌, ◌≤◌, ◌<◌, ◌≡◌, refl, ap, min, List, [], ◌∷◌, ◌++◌, length,
  length-append, get_or, get_or_out, get_or-append, replicate, EgtResult, arith, dec_lt,
}
use chess_egt.Outcome.{promotion, capture, checkmate, MaybeDtcOutcome}
use chess_egt.Retrograde.{
  SummaryKind, loss_kind, win_kind, BlockSummary, PlySummary, div_ceil, index,
}
use chess_egt.Retrograde.Summary.{AllFour, IsSummary}
use chess_egt.Retrograde.Solver.Covered.{Recorded}
use chess_egt.Retrograde.Solver.Rules.{Chess, Egt, returns}
use chess_egt.Retrograde.Solver.Start.{
  Chunk, initialize_cell, initialize_cells, new_chunk, InitCounts, merge_counts, initialize_blocks,
  initialize_table,
}
use chess_egt.Retrograde.Solver.Start.Bounds.{
  Holds, then_run-Holds, Four, Grows, CoveredBy, CoveredBy-Grows, neither-CoveredBy,
  invalid_neither, Kept, initialize_cell-Kept,
}

pub zero-CoveredBy : (bounds : BlockSummary) → CoveredBy bounds 0
zero-CoveredBy bounds = neither-CoveredBy bounds 0 invalid_neither.0 invalid_neither.1

abbrev KeptAll : ℕ → Chunk → List MaybeDtcOutcome × Chunk → Type 0
KeptAll n c (values, c') =
    Four c.ply_bounds
    → (length values ≡ n)
      × Four c'.ply_bounds
      × Grows c.ply_bounds c'.ply_bounds
      × ((i : ℕ) → CoveredBy c'.ply_bounds (get_or values i 0))

cons-CoveredBy :
    (bounds : BlockSummary) (v : MaybeDtcOutcome) (values : List MaybeDtcOutcome)
    → CoveredBy bounds v
    → ((i : ℕ) → CoveredBy bounds (get_or values i 0))
    → (i : ℕ) → CoveredBy bounds (get_or (v ∷ values) i 0)
cons-CoveredBy bounds v values h all zero = h
cons-CoveredBy bounds v values h all (suc i) = all i

KeptAll-cons :
    (n : ℕ) (c : Chunk) (cell : MaybeDtcOutcome × Chunk) (rest : List MaybeDtcOutcome × Chunk)
    → Kept c cell
    → KeptAll n cell.1 rest
    → KeptAll (suc n) c (cell.0 ∷ rest.0, rest.1)
KeptAll-cons n c (v, c') (values, c'') k ks four =
    let (four', g, covered) = k four in
    let (l, four'', g', all) = ks four' in
    (
      ap suc l,
      four'',
      λ kind. omega (arith, g kind, g' kind),
      cons-CoveredBy c''.ply_bounds v values
          (CoveredBy-Grows c'.ply_bounds c''.ply_bounds v g' covered) all,
    )

four_zeros : (k : SummaryKind) → get_or {A = ℕ} (replicate 4 0) (index k) 0 ≤ 2
four_zeros loss_kind = omega arith
four_zeros (win_kind checkmate) = omega arith
four_zeros (win_kind capture) = omega arith
four_zeros (win_kind promotion) = omega arith

new_chunk-Four : Four new_chunk.ply_bounds
new_chunk-Four = (refl, four_zeros)

-- The values and the blocks of some chunks, from the block `block` on.
abbrev BlocksCover : ℕ → ℕ → ℕ → List MaybeDtcOutcome × List BlockSummary × InitCounts → Type 0
BlocksCover size block n (values, blocks, counts) =
    (length values ≡ min (n * 4096) (size - block * 4096))
    × (length blocks ≡ n)
    × AllFour blocks
    × ((i : ℕ) → CoveredBy (get_or blocks (i / 4096) []) (get_or values i 0))

-- The first of the chunks is full, or it is the last with any cells.
first_then_rest :
    (len i : ℕ) (here rest : List MaybeDtcOutcome) (bounds : BlockSummary)
    (blocks : List BlockSummary)
    → length here ≡ len
    → len ≤ 4096
    → (len < 4096 → length rest ≡ 0)
    → ((i : ℕ) → CoveredBy bounds (get_or here i 0))
    → ((i : ℕ) → CoveredBy (get_or blocks (i / 4096) []) (get_or rest i 0))
    → CoveredBy (get_or (bounds ∷ blocks) (i / 4096) []) (get_or (here ++ rest) i 0)
first_then_rest len i here rest bounds blocks l full last h h' = elim (dec_lt i len) [
  | yes lt ↦
      let first : i / 4096 ≡ 0 = omega (arith, lt, full) in
      rw (first, (get_or-append here rest i 0).0 (omega (arith, lt, l))) (h i)
  | no n ↦ elim (dec_lt len 4096) [
    | yes short ↦
        let e : get_or (here ++ rest) i 0 ≡ 0 =
          get_or_out (here ++ rest) i 0
            (omega (arith, length-append here rest, last short, l, n)) in
        rw e (zero-CoveredBy (get_or (bounds ∷ blocks) (i / 4096) []))
    | no long ↦
        let next : i / 4096 ≡ suc ((i - length here) / 4096) = omega (arith, n, long, full, l) in
        rw (next, (get_or-append here rest i 0).1 (omega (arith, n, l))) (h' (i - length here))
  ]
]

BlocksCover-cons :
    (size block n : ℕ) (chunk : List MaybeDtcOutcome × Chunk)
    (rest : List MaybeDtcOutcome × List BlockSummary × InitCounts) (counts : InitCounts)
    → KeptAll (min 4096 (size - block * 4096)) new_chunk chunk
    → BlocksCover size (block + 1) n rest
    → BlocksCover size block (suc n) (chunk.0 ++ rest.0, chunk.1.ply_bounds ∷ rest.1, counts)
BlocksCover-cons size block n (here, c) (values, blocks, rest_counts) counts k (l, m, four, all) =
    let (l', four', g, all') = k new_chunk-Four in
    let len = min 4096 (size - block * 4096) in
    (
      omega (arith, length-append here values, l, l'),
      ap suc m,
      (four'.0, four),
      λ i.
          first_then_rest len i here values c.ply_bounds blocks l' (omega arith)
            (λ short. omega (arith, short, l)) all' all,
    )

-- A summary of the table's size over an array of that length, which covers its values.
abbrev pub Initialized : ℕ → List MaybeDtcOutcome → PlySummary → Type 0
Initialized size values s =
    (length values ≡ size)
    × (s.size ≡ size)
    × IsSummary s
    × ((i : ℕ) → Recorded s i (get_or values i 0))

abbrev pub AllInitialized : ℕ → List MaybeDtcOutcome × PlySummary × InitCounts → Type 0
AllInitialized size t = Initialized size t.0 t.1

module _ (chess : Chess) (egt : Egt chess)
    (probe : chess.Position → EgtResult MaybeDtcOutcome) where
  initialize_cells-KeptAll :
      (idx n : ℕ) (c : Chunk) → Holds (KeptAll n c) (initialize_cells chess egt probe idx n c)
  unfolding initialize_cells
  initialize_cells-KeptAll idx zero c =
      λ four. (refl, four, λ k. omega arith, λ i. zero-CoveredBy c.ply_bounds)
  initialize_cells-KeptAll idx (suc n) c =
      then_run-Holds (Kept c) (KeptAll (suc n) c) (initialize_cell chess egt probe idx c) _
        (initialize_cell-Kept chess egt probe idx c)
        (λ cell k.
          then_run-Holds (KeptAll n cell.1) (KeptAll (suc n) c)
            (initialize_cells chess egt probe (idx + 1) n cell.1) _
            (initialize_cells-KeptAll (idx + 1) n cell.1)
            (λ rest ks. KeptAll-cons n c cell rest k ks))

  initialize_blocks-BlocksCover :
      (block n : ℕ)
      → Holds (BlocksCover egt.index_range block n) (initialize_blocks chess egt probe block n)
  unfolding initialize_blocks
  initialize_blocks-BlocksCover block zero = (omega arith, refl, tt, λ i. zero-CoveredBy [])
  initialize_blocks-BlocksCover block (suc n) =
      let len = min 4096 (egt.index_range - block * 4096) in
      let P = BlocksCover egt.index_range block (suc n) in
      then_run-Holds (KeptAll len new_chunk) P
        (initialize_cells chess egt probe (block * 4096) len new_chunk) _
        (initialize_cells-KeptAll (block * 4096) len new_chunk)
        (λ chunk k.
          then_run-Holds (BlocksCover egt.index_range (block + 1) n) P
            (initialize_blocks chess egt probe (block + 1) n) _
            (initialize_blocks-BlocksCover (block + 1) n)
            (λ rest ks.
              BlocksCover-cons egt.index_range block n chunk rest
                (merge_counts chunk.1.counts rest.2) k ks))

  pub initialize_table-Holds :
      Holds (AllInitialized egt.index_range) (initialize_table chess egt probe)
  unfolding initialize_table
  initialize_table-Holds =
      let n = div_ceil egt.index_range 4096 in
      then_run-Holds (BlocksCover egt.index_range 0 n) (AllInitialized egt.index_range)
        (initialize_blocks chess egt probe 0 n) _ (initialize_blocks-BlocksCover 0 n)
        (λ t (l, m, four, all). (omega (arith, l), refl, record { enough = m; four = four }, all))

  -- If the initialization gives a result, then the array has the length of the table, the summary has
  -- as many blocks as it needs, and the bounds of each block are above the plies of all the wins and
  -- losses that stand there.
  pub initialize_table-Initialized :
      (values : List MaybeDtcOutcome) (s : PlySummary) (counts : InitCounts)
      → initialize_table chess egt probe ≡ returns (values, s, counts)
      → Initialized egt.index_range values s
  initialize_table-Initialized values s counts e = rw e at initialize_table-Holds
