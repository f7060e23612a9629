-- ===== src/Reader/Tests.antt =====
-- Runs of the reader, and the theorems on it at concrete inputs.
use chess_egt.Common.{ℕ, ◌+◌, ◌/◌, ◌%◌, ◌<◌, ◌≡◌, ◌≢◌, refl, ok, err, io, internal, none, arith}
use chess_egt.Reader.{
  EgtFileReader, Packages, construct, locate_frame, frame_at, read_from_index, write_to_index,
  frame_chunk_cached, read_from_index_cached, frame_bytes,
}
use chess_egt.Reader.Layout
use chess_egt.Reader.Access.{IsMemory, view}
use chess_egt.Reader.Access

-- Packages of a table without a file, which are never asked.
abbrev no_packages : Packages
no_packages = record {
  get_range = λ from stop. err (io "no object");
  decompress = λ n bytes. err (io "no frame");
}

abbrev table : EgtFileReader
table = construct 10 4

last_frame : frame_bytes table 2 ≡ 4
unfolding construct frame_bytes
last_frame = refl

crossing :
    frame_chunk_cached table 3 5 ≡ err (internal "frame_chunk range crosses a frame boundary")
unfolding construct frame_chunk_cached
crossing = refl

cold : read_from_index_cached table 3 ≡ ok none
unfolding construct read_from_index_cached
cold = refl

locate_frame_lem_example :
    (locate_frame table 9 ≡ (9 / 4, 9 % 4))
    × (9 % 4 < (frame_at table (9 / 4)).len)
    × ((frame_at table (9 / 4)).start + 9 % 4 ≡ 9)
unfolding construct
locate_frame_lem_example = Layout.locate_frame_lem table 9 refl (omega arith) (omega arith)

read_from_index_lem_example :
    (r' : EgtFileReader) × (read_from_index no_packages table 9 ≡ ok (r', view table 9))
    × IsMemory r'
    × (r'.index_range ≡ table.index_range)
    × ((j : ℕ) → view r' j ≡ view table j)
unfolding construct
read_from_index_lem_example =
    Access.read_from_index_lem no_packages table 9 (Access.construct_lem 10 4 (omega arith)).0
      (omega arith)

write_to_index_lem_example :
    (r' : EgtFileReader) × (write_to_index no_packages table 9 74 ≡ ok r')
    × IsMemory r'
    × (r'.index_range ≡ table.index_range)
    × (view r' 9 ≡ 74)
    × ((j : ℕ) → j ≢ 9 → view r' j ≡ view table j)
unfolding construct
write_to_index_lem_example =
    Access.write_to_index_lem no_packages table 9 74 (Access.construct_lem 10 4 (omega arith)).0
      (omega arith)
