-- ===== src/Stats.antt =====
-- Statistics of tables, src/stats.rs: the metadata of one table, the sums over selected tables, and
-- their validation.
-- A text is the list of its code points, whose order is that of the UTF-8 bytes. A histogram, a
-- BTreeMap, is the list of its entries by rising ply. `+` on usize and u64 wraps at 2 ^ 64.
pub mod Totals
pub mod Validate
pub mod Partition
pub mod Merge
mod Tests
use Prim.Native.Nat.{Ordering}
use chess_egt.Outcome.{then_cmp}
use chess_egt.Common.{
  ℕ, zero, suc, ◌+◌, ◌-◌, ◌*◌, ◌/◌, ◌%◌, ◌^◌, compare, Bool, true, false, not, ◌&&◌, ◌||◌, Option,
  some, none, List, [], ◌∷◌, ◌++◌, map, ltb, leb, ◌==◌, if◌then◌else◌, length, EgtResult, ok, err,
  io, ◌>>=◌, ◌>>◌,
}

abbrev pub Text : Type 0
Text = List ℕ

abbrev pub Histogram : Type 0
Histogram = List (ℕ × ℕ)

pub record LongestDtcPosition : Type 0 where
  pub epd : Text
  pub ply : ℕ

pub record EgtStats : Type 0 where
  pub tablename : Text
  pub bytes : ℕ
  pub sha256 : Text
  pub index_range : ℕ
  pub frame_size : ℕ
  pub num_frames : ℕ
  pub unique_positions : ℕ
  pub win : ℕ
  pub draw : ℕ
  pub loss : ℕ
  pub invalid_opposite_check : ℕ
  pub invalid_ep_squares_occupied : ℕ
  pub invalid_illegal_ep_capture : ℕ
  pub redundant : ℕ
  pub histogram_win : Histogram
  pub histogram_loss : Histogram
  pub longest_dtc_win : List LongestDtcPosition
  pub longest_dtc_loss : List LongestDtcPosition

-- The fields that hold explicit nulls carry nothing.
pub record PlaceholderStats : Type 0 where
  pub tablename : Text
  pub index_range : ℕ

pub data StatsRecord : Type 0 where
  complete : EgtStats → StatsRecord
  missing : PlaceholderStats → StatsRecord

pub record AggregateStats : Type 0 where
  pub selected_tables : ℕ
  pub available_tables : ℕ
  pub index_range : ℕ
  pub bytes : Option ℕ
  pub num_frames : Option ℕ
  pub unique_positions : Option ℕ
  pub win : Option ℕ
  pub draw : Option ℕ
  pub loss : Option ℕ
  pub invalid_opposite_check : Option ℕ
  pub invalid_ep_squares_occupied : Option ℕ
  pub invalid_illegal_ep_capture : Option ℕ
  pub redundant : Option ℕ
  pub histogram_win : Option Histogram
  pub histogram_loss : Option Histogram
  pub longest_dtc_win : Option (List LongestDtcPosition)
  pub longest_dtc_loss : Option (List LongestDtcPosition)

abbrev pub default : AggregateStats
default = record {
  selected_tables = 0;
  available_tables = 0;
  index_range = 0;
  bytes = some 0;
  num_frames = some 0;
  unique_positions = some 0;
  win = some 0;
  draw = some 0;
  loss = some 0;
  invalid_opposite_check = some 0;
  invalid_ep_squares_occupied = some 0;
  invalid_illegal_ep_capture = some 0;
  redundant = some 0;
  histogram_win = some [];
  histogram_loss = some [];
  longest_dtc_win = some [];
  longest_dtc_loss = some [];
}

-- `a + b` on usize or u64.
abbrev pub add64 : ℕ → ℕ → ℕ
add64 a b = (a + b) % 2 ^ 64

abbrev pub sum : Option ℕ → Option ℕ → Option ℕ
sum (some a) (some b) = some (add64 a b)
sum none b = none
sum (some a) none = none

-- `*histogram.entry(ply).or_default() += count`
pub add_entry : ℕ → ℕ → Histogram → Histogram
add_entry p count [] = (p, count) ∷ []
add_entry p count ((q, n) ∷ h) =
    let rest = add_entry p count h in
    if p == q
    then (q, add64 n count) ∷ h
    else if ltb p q
    then (p, count) ∷ (q, n) ∷ h
    else (q, n) ∷ rest

pub add_entries : Histogram → Histogram → Histogram
unfolding add_entry
add_entries h [] = h
add_entries h ((p, count) ∷ source) = add_entries (add_entry p count h) source

-- `last_key_value`, the ply.
abbrev pub last_ply : Histogram → Option ℕ
last_ply [] = none
last_ply ((p, n) ∷ []) = some p
last_ply ((p, n) ∷ e ∷ h) = last_ply (e ∷ h)

abbrev pub is_maximum : Option ℕ → ℕ → Bool
is_maximum none ply = false
is_maximum (some maximum) ply = ply == maximum

-- `retain`
pub retain_maximum : Option ℕ → List LongestDtcPosition → List LongestDtcPosition
retain_maximum maximum [] = []
retain_maximum maximum (x ∷ xs) =
    let rest = retain_maximum maximum xs in if is_maximum maximum x.ply then x ∷ rest else rest

text_cmp : Text → Text → Ordering
text_cmp [] [] = Ordering.eq
text_cmp [] (b ∷ ys) = Ordering.lt
text_cmp (a ∷ xs) [] = Ordering.gt
text_cmp (a ∷ xs) (b ∷ ys) = then_cmp (compare a b) (text_cmp xs ys)

-- The comparison that `sort_unstable_by` is given.
pub example_cmp : LongestDtcPosition → LongestDtcPosition → Ordering
unfolding text_cmp
example_cmp a b = then_cmp (text_cmp a.epd b.epd) (compare a.ply b.ply)

abbrev pub is_gt : Ordering → Bool
is_gt Ordering.gt = true
is_gt Ordering.lt = false
is_gt Ordering.eq = false

abbrev is_eq : Ordering → Bool
is_eq Ordering.eq = true
is_eq Ordering.lt = false
is_eq Ordering.gt = false

pub place : LongestDtcPosition → List LongestDtcPosition → List LongestDtcPosition
unfolding example_cmp
place x [] = x ∷ []
place x (y ∷ ys) = let rest = place x ys in if is_gt (example_cmp x y) then y ∷ rest else x ∷ y ∷ ys

-- What `sort_unstable_by` leaves: two examples that compare as equal are equal, so there is one
-- sorted list.
pub sort_examples : List LongestDtcPosition → List LongestDtcPosition
unfolding place
sort_examples [] = []
sort_examples (x ∷ xs) = place x (sort_examples xs)

abbrev pub same_as_head : LongestDtcPosition → List LongestDtcPosition → Bool
same_as_head x [] = false
same_as_head x (y ∷ ys) = is_eq (example_cmp x y)

pub dedup : List LongestDtcPosition → List LongestDtcPosition
unfolding example_cmp
dedup [] = []
dedup (x ∷ xs) = let rest = dedup xs in if same_as_head x rest then rest else x ∷ rest

-- The histogram and the examples that `merge_distribution` leaves.
pub merge_distribution :
    Option Histogram
    → Option Histogram
    → Option (List LongestDtcPosition)
    → Option (List LongestDtcPosition)
    → Option Histogram × Option (List LongestDtcPosition)
unfolding add_entries retain_maximum sort_examples dedup
merge_distribution (some histogram) (some source) (some examples) (some source_examples) =
    let histogram' = add_entries histogram source in
    let kept = retain_maximum (last_ply histogram') (examples ++ source_examples) in
    (some histogram', some (dedup (sort_examples kept)))
merge_distribution none source examples source_examples = (none, none)
merge_distribution (some histogram) none examples source_examples = (none, none)
merge_distribution (some histogram) (some source) none source_examples = (none, none)
merge_distribution (some histogram) (some source) (some examples) none = (none, none)

pub merge : AggregateStats → AggregateStats → AggregateStats
unfolding merge_distribution
merge s other =
    let wins =
      merge_distribution s.histogram_win other.histogram_win s.longest_dtc_win
        other.longest_dtc_win in
    let losses =
      merge_distribution s.histogram_loss other.histogram_loss s.longest_dtc_loss
        other.longest_dtc_loss in
    record {
      selected_tables = add64 s.selected_tables other.selected_tables;
      available_tables = add64 s.available_tables other.available_tables;
      index_range = add64 s.index_range other.index_range;
      bytes = sum s.bytes other.bytes;
      num_frames = sum s.num_frames other.num_frames;
      unique_positions = sum s.unique_positions other.unique_positions;
      win = sum s.win other.win;
      draw = sum s.draw other.draw;
      loss = sum s.loss other.loss;
      invalid_opposite_check = sum s.invalid_opposite_check other.invalid_opposite_check;
      invalid_ep_squares_occupied =
          sum s.invalid_ep_squares_occupied other.invalid_ep_squares_occupied;
      invalid_illegal_ep_capture =
          sum s.invalid_illegal_ep_capture other.invalid_illegal_ep_capture;
      redundant = sum s.redundant other.redundant;
      histogram_win = wins.0;
      histogram_loss = losses.0;
      longest_dtc_win = wins.1;
      longest_dtc_loss = losses.1;
    }

-- `AggregateStats::add`
abbrev one_table : EgtStats → AggregateStats
one_table stats = record {
  selected_tables = 0;
  available_tables = 1;
  index_range = stats.index_range;
  bytes = some stats.bytes;
  num_frames = some stats.num_frames;
  unique_positions = some stats.unique_positions;
  win = some stats.win;
  draw = some stats.draw;
  loss = some stats.loss;
  invalid_opposite_check = some stats.invalid_opposite_check;
  invalid_ep_squares_occupied = some stats.invalid_ep_squares_occupied;
  invalid_illegal_ep_capture = some stats.invalid_illegal_ep_capture;
  redundant = some stats.redundant;
  histogram_win = some stats.histogram_win;
  histogram_loss = some stats.histogram_loss;
  longest_dtc_win = some stats.longest_dtc_win;
  longest_dtc_loss = some stats.longest_dtc_loss;
}

pub add : AggregateStats → EgtStats → AggregateStats
unfolding merge
add s stats = merge s (one_table stats)

pub add_record : AggregateStats → StatsRecord → AggregateStats
unfolding add
add_record s (complete stats) = add (record s { selected_tables = add64 s.selected_tables 1 }) stats
add_record s (missing stats) = record {
  selected_tables = add64 s.selected_tables 1;
  available_tables = s.available_tables;
  index_range = add64 s.index_range stats.index_range;
  bytes = none;
  num_frames = none;
  unique_positions = none;
  win = none;
  draw = none;
  loss = none;
  invalid_opposite_check = none;
  invalid_ep_squares_occupied = none;
  invalid_illegal_ep_capture = none;
  redundant = none;
  histogram_win = none;
  histogram_loss = none;
  longest_dtc_win = none;
  longest_dtc_loss = none;
}
