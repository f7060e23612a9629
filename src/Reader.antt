-- ===== src/Reader.antt =====
-- `EgtFileReader`, src/egt_file.rs: the frames of a table, and reads and writes by index.
-- The seek table, the object store and the decompressor are other packages: a record of what they
-- answer. A function that takes `&mut self` returns the reader with its result; on an error the
-- reader is unchanged.
pub mod Layout
pub mod Access
mod Tests
use chess_egt.Common.{
  ℕ, zero, suc, ◌+◌, ◌-◌, ◌*◌, ◌/◌, ◌%◌, min, Bool, true, false, ◌||◌, not, Option, some, none,
  List, [], ◌∷◌, map, ltb, leb, ◌==◌, if◌then◌else◌, length, get_or, set, take, drop, replicate,
  EgtError, EgtResult, ok, err, internal, io, index_out_of_range, ◌>>=◌, ◌>>◌,
}
use chess_egt.Outcome.{MaybeDtcOutcome, invalid_word}
use chess_egt.Frame.{detranspose_frame}

pub record FrameDescriptor : Type 0 where
  pub start : ℕ
  pub len : ℕ

-- `zeekstd::SeekTable`
pub record SeekTable : Type 0 where
  pub frame_start_comp : ℕ → EgtResult ℕ
  pub frame_end_comp : ℕ → EgtResult ℕ

-- `get_range` of the object store, and `zstd_safe::decompress` into a buffer of some length: the bytes
-- that are written.
pub record Packages : Type 0 where
  pub get_range : ℕ → ℕ → EgtResult (List ℕ)
  pub decompress : ℕ → List ℕ → EgtResult (List ℕ)

pub record EgtFileReader : Type 0 where
  pub index_range : ℕ
  pub frame_size : ℕ
  pub frame_layout : List FrameDescriptor
  pub frames : List (Option (List MaybeDtcOutcome))
  pub seek_table : Option SeekTable

-- The descriptors from `start` on, with the frames left.
pub layout_from : ℕ → ℕ → ℕ → ℕ → List FrameDescriptor
layout_from index_range frame_size zero start = []
layout_from index_range frame_size (suc left) start =
    record { start = start; len = min frame_size (index_range - start) }
    ∷ layout_from index_range frame_size left (start + frame_size)

abbrev pub num_frames : ℕ → ℕ → ℕ
num_frames index_range frame_size = (index_range + (frame_size - 1)) / frame_size

-- The part of `construct` that sets up the frames.
unfoldable pub construct : ℕ → ℕ → EgtFileReader
unfolding layout_from
construct index_range frame_size =
    let layout = layout_from index_range frame_size (num_frames index_range frame_size) 0 in
    record {
      index_range = index_range;
      frame_size = frame_size;
      frame_layout = layout;
      frames = replicate (length layout) none;
      seek_table = none;
    }

-- `partition_point`: the number of leading frames that start at or before the index.
pub partition_point : List FrameDescriptor → ℕ → ℕ
partition_point [] index = 0
partition_point (frame ∷ frames) index =
    let rest = partition_point frames index in if leb frame.start index then suc rest else 0

abbrev no_frame : FrameDescriptor
no_frame = record { start = 0; len = 0 }

abbrev pub frame_at : EgtFileReader → ℕ → FrameDescriptor
frame_at r f = get_or r.frame_layout f no_frame

pub locate_frame : EgtFileReader → ℕ → ℕ × ℕ
unfolding partition_point
locate_frame r index =
    let frame_idx = partition_point r.frame_layout index - 1 in
    (frame_idx, index - (frame_at r frame_idx).start)

unfoldable pub frame_bytes : EgtFileReader → ℕ → ℕ
frame_bytes r frame_idx = (frame_at r frame_idx).len * 2

-- The last branch is a read out of range, which panics.
abbrev detransposed : Option (List ℕ) → EgtResult (List MaybeDtcOutcome)
detransposed (some words) = ok words
detransposed none = err (internal "index out of bounds")

pub decode_frame : Packages → List ℕ → ℕ → EgtResult (List MaybeDtcOutcome)
decode_frame p compressed len = do
  transposed ← p.decompress (len * 2) compressed
  if length transposed == len * 2
      then detransposed (detranspose_frame transposed len)
      else err (io "decompressed tablebase frame has wrong length")

-- What `ensure_uncompressed` stores for a cold frame.
abbrev cold_frame : Packages → Option SeekTable → ℕ → ℕ → EgtResult (List MaybeDtcOutcome)
cold_frame p none frame_idx len = ok (replicate len invalid_word)
cold_frame p (some table) frame_idx len = do
  from ← table.frame_start_comp frame_idx
  stop ← table.frame_end_comp frame_idx
  compressed ← p.get_range from stop
  if length compressed == stop - from
      then decode_frame p compressed len
      else err (internal "truncated tablebase range")

abbrev pub resident : EgtFileReader → ℕ → Option (List MaybeDtcOutcome)
resident r frame_idx = get_or r.frames frame_idx none

abbrev pub keep_frame : EgtFileReader → ℕ → List MaybeDtcOutcome → EgtFileReader
keep_frame r frame_idx words = record r { frames = set r.frames frame_idx (some words) }

-- `get_frame_data` with its `ensure_uncompressed`: the reader and the frame's words.
abbrev pub data_or_load :
    Packages
    → EgtFileReader
    → ℕ
    → Option (List MaybeDtcOutcome)
    → EgtResult (EgtFileReader × List MaybeDtcOutcome)
data_or_load p r frame_idx (some words) = ok (r, words)
data_or_load p r frame_idx none = do
  words ← cold_frame p r.seek_table frame_idx (frame_at r frame_idx).len
  ok (keep_frame r frame_idx words, words)

pub get_frame_data : Packages → EgtFileReader → ℕ → EgtResult (EgtFileReader × List MaybeDtcOutcome)
unfolding decode_frame
get_frame_data p r frame_idx = data_or_load p r frame_idx (resident r frame_idx)

pub read_from_index : Packages → EgtFileReader → ℕ → EgtResult (EgtFileReader × MaybeDtcOutcome)
unfolding locate_frame get_frame_data
read_from_index p r index =
    let (frame_idx, offset) = locate_frame r index in
    if leb r.index_range index
    then err (index_out_of_range index r.index_range)
    else get_frame_data p r frame_idx >>= λ (r', words). ok (r', get_or words offset invalid_word)

pub write_to_index : Packages → EgtFileReader → ℕ → MaybeDtcOutcome → EgtResult EgtFileReader
unfolding locate_frame get_frame_data
write_to_index p r index outcome =
    let (frame_idx, offset) = locate_frame r index in
    if leb r.index_range index
    then err (index_out_of_range index r.index_range)
    else get_frame_data p r frame_idx >>= λ (r', words).
        ok (keep_frame r' frame_idx (set words offset outcome))

abbrev out_of_range : EgtFileReader → ℕ → ℕ → Bool
out_of_range r start stop = ltb stop start || ltb r.index_range stop

abbrev pub crosses : EgtFileReader → ℕ → ℕ → ℕ → ℕ → Bool
crosses r frame_idx offset start stop = ltb ((frame_at r frame_idx).len - offset) (stop - start)

abbrev pub slice : ℕ → ℕ → List MaybeDtcOutcome → List MaybeDtcOutcome
slice offset n words = take n (drop offset words)

frame_chunk : Packages → EgtFileReader → ℕ → ℕ → EgtResult (EgtFileReader × List MaybeDtcOutcome)
unfolding locate_frame get_frame_data
frame_chunk p r start stop =
    let (frame_idx, offset) = locate_frame r start in
    if out_of_range r start stop
    then err (index_out_of_range stop r.index_range)
    else if start == stop
    then ok (r, [])
    else if crosses r frame_idx offset start stop
    then err (internal "frame_chunk range crosses a frame boundary")
    else get_frame_data p r frame_idx >>= λ (r', words). ok (r', slice offset (stop - start) words)

abbrev on_resident {ℓ} :
    {A : Type ℓ} → (List MaybeDtcOutcome → A) → Option (List MaybeDtcOutcome) → Option A
on_resident f none = none
on_resident f (some words) = some (f words)

unfoldable pub frame_chunk_cached :
    EgtFileReader → ℕ → ℕ → EgtResult (Option (List MaybeDtcOutcome))
unfolding locate_frame
frame_chunk_cached r start stop =
    let (frame_idx, offset) = locate_frame r start in
    if out_of_range r start stop
    then err (index_out_of_range stop r.index_range)
    else if start == stop
    then ok (some [])
    else if crosses r frame_idx offset start stop
    then err (internal "frame_chunk range crosses a frame boundary")
    else ok (on_resident (slice offset (stop - start)) (resident r frame_idx))

pub read_from_index_cached : EgtFileReader → ℕ → EgtResult (Option MaybeDtcOutcome)
unfolding locate_frame
read_from_index_cached r index =
    let (frame_idx, offset) = locate_frame r index in
    if leb r.index_range index
    then err (index_out_of_range index r.index_range)
    else ok (on_resident (λ words. get_or words offset invalid_word) (resident r frame_idx))
