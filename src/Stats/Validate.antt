-- ===== src/Stats/Validate.antt =====
-- The validation of statistics, src/stats.rs.
use chess_egt.Common.{
  ℕ, ◌+◌, ◌-◌, ◌*◌, ◌/◌, ◌^◌, Bool, true, false, not, ◌&&◌, ◌||◌, Option, some, none, List, [], ◌∷◌,
  ltb, leb, ◌==◌, if◌then◌else◌, length, EgtError, EgtResult, ok, err, io, ◌>>◌,
}
use chess_egt.Stats.{
  Text, Histogram, LongestDtcPosition, EgtStats, AggregateStats, last_ply, is_maximum,
}

abbrev pub checked_add : ℕ → ℕ → Option ℕ
checked_add a b = if ltb (a + b) (2 ^ 64) then some (a + b) else none

abbrev pub checked_more : Option ℕ → ℕ → Option ℕ
checked_more none b = none
checked_more (some a) b = checked_add a b

abbrev pub is_exactly : Option ℕ → ℕ → Bool
is_exactly none b = false
is_exactly (some a) b = a == b

abbrev pub bad_outcomes : EgtError
bad_outcomes = io "outcome counts do not match position and index totals"

-- The four counts of invalid and redundant indices.
abbrev pub Partition : Type 0
Partition = ℕ × ℕ × ℕ × ℕ

abbrev all_indices : ℕ → Partition → Option ℕ
all_indices unique (a, b, c, d) =
    checked_more (checked_more (checked_more (checked_add unique a) b) c) d

unfoldable pub validate_outcomes : ℕ → ℕ → ℕ → ℕ → ℕ → Partition → EgtResult (Unit {0})
validate_outcomes index_range unique_positions win draw loss counts =
    if not (is_exactly (checked_more (checked_add win draw) loss) unique_positions)
      || not (is_exactly (all_indices unique_positions counts) index_range)
    then err bad_outcomes
    else ok tt

abbrev has_empty_entry : Histogram → Bool
has_empty_entry [] = false
has_empty_entry ((p, n) ∷ h) = n == 0 || has_empty_entry h

abbrev total_from : Option ℕ → Histogram → Option ℕ
total_from start [] = start
total_from start ((p, n) ∷ h) = total_from (checked_more start n) h

-- `char::is_whitespace`
abbrev is_whitespace : ℕ → Bool
is_whitespace c =
    (leb 9 c && leb c 13)
    || c == 32
    || c == 133
    || c == 160
    || c == 5760
    || (leb 8192 c && leb c 8202)
    || c == 8232
    || c == 8233
    || c == 8239
    || c == 8287
    || c == 12288

-- `trim().is_empty()`
abbrev is_blank : Text → Bool
is_blank [] = true
is_blank (c ∷ cs) = is_whitespace c && is_blank cs

abbrev has_bad_example : Option ℕ → List LongestDtcPosition → Bool
has_bad_example maximum [] = false
has_bad_example maximum (x ∷ xs) =
    is_blank x.epd || not (is_maximum maximum x.ply) || has_bad_example maximum xs

abbrev bad_distribution : EgtError
bad_distribution = io "histogram or longest-DTC examples do not match outcomes"

validate_distribution : Histogram → ℕ → List LongestDtcPosition → EgtResult (Unit {0})
validate_distribution histogram count examples =
    if has_empty_entry histogram
      || not (is_exactly (total_from (some 0) histogram) count)
      || has_bad_example (last_ply histogram) examples
    then err bad_distribution
    else ok tt

abbrev frame_limit : ℕ
frame_limit = 256 * 1024

abbrev is_hexdigit : ℕ → Bool
is_hexdigit c = (leb 48 c && leb c 57) || (leb 65 c && leb c 70) || (leb 97 c && leb c 102)

abbrev all_hex : Text → Bool
all_hex [] = true
all_hex (c ∷ cs) = is_hexdigit c && all_hex cs

abbrev same_text : Text → Text → Bool
same_text [] [] = true
same_text [] (b ∷ ys) = false
same_text (a ∷ xs) [] = false
same_text (a ∷ xs) (b ∷ ys) = a == b && same_text xs ys

abbrev div_ceil : ℕ → ℕ → ℕ
div_ceil a b = (a + (b - 1)) / b

-- `EgtStats::validate`, for a table of that name.
validate_table : EgtStats → Text → EgtResult (Unit {0})
unfolding validate_outcomes validate_distribution
validate_table s tablename =
    if not (same_text s.tablename tablename)
      || not (length s.sha256 == 64)
      || not (all_hex s.sha256)
      || s.bytes == 0
      || s.index_range == 0
      || not (s.frame_size == frame_limit)
      || not (s.num_frames == div_ceil s.index_range s.frame_size)
    then err (io "invalid table identity, SHA-256, or frame geometry")
    else do
      validate_outcomes s.index_range s.unique_positions s.win s.draw s.loss (
        s.invalid_opposite_check, s.invalid_ep_squares_occupied, s.invalid_illegal_ep_capture,
        s.redundant,
      )
      validate_distribution s.histogram_win s.win s.longest_dtc_win
      validate_distribution s.histogram_loss s.loss s.longest_dtc_loss

abbrev is_some {ℓ} : {A : Type ℓ} → Option A → Bool
is_some none = false
is_some (some a) = true

abbrev agree : Bool → Bool → Bool
agree true b = b
agree false b = not b

-- Each optional field is present just when `complete` holds.
abbrev all_present : AggregateStats → Bool → Bool
all_present s complete =
    agree complete (is_some s.bytes)
    && agree complete (is_some s.num_frames)
    && agree complete (is_some s.unique_positions)
    && agree complete (is_some s.win)
    && agree complete (is_some s.draw)
    && agree complete (is_some s.loss)
    && agree complete (is_some s.invalid_opposite_check)
    && agree complete (is_some s.invalid_ep_squares_occupied)
    && agree complete (is_some s.invalid_illegal_ep_capture)
    && agree complete (is_some s.redundant)
    && agree complete (is_some s.histogram_win)
    && agree complete (is_some s.histogram_loss)
    && agree complete (is_some s.longest_dtc_win)
    && agree complete (is_some s.longest_dtc_loss)

abbrev is_zero : Option ℕ → Bool
is_zero none = false
is_zero (some n) = n == 0

abbrev is_empty {ℓ} : {A : Type ℓ} → Option (List A) → Bool
is_empty none = false
is_empty (some []) = true
is_empty (some (x ∷ xs)) = false

-- `self == &Self::default()`
abbrev is_default : AggregateStats → Bool
is_default s =
    s.selected_tables == 0
    && s.available_tables == 0
    && s.index_range == 0
    && is_zero s.bytes
    && is_zero s.num_frames
    && is_zero s.unique_positions
    && is_zero s.win
    && is_zero s.draw
    && is_zero s.loss
    && is_zero s.invalid_opposite_check
    && is_zero s.invalid_ep_squares_occupied
    && is_zero s.invalid_illegal_ep_capture
    && is_zero s.redundant
    && is_empty s.histogram_win
    && is_empty s.histogram_loss
    && is_empty s.longest_dtc_win
    && is_empty s.longest_dtc_loss

-- `unwrap`, which panics on `none`; it is called only where every field is present.
abbrev unwrap {ℓ} : {A : Type ℓ} → A → Option A → A
unwrap d none = d
unwrap d (some a) = a

-- `AggregateStats::validate`
validate_aggregate : AggregateStats → EgtResult (Unit {0})
unfolding validate_outcomes validate_distribution
validate_aggregate s =
    let complete = s.available_tables == s.selected_tables in
    let no_tables = s.selected_tables == 0 in
    if ltb s.selected_tables s.available_tables
      || not (agree no_tables (s.index_range == 0))
      || ltb s.index_range s.selected_tables
      || not (all_present s complete)
    then err (io "inconsistent aggregate counts or nullability")
    else if not complete
    then ok tt
    else if no_tables
    then if is_default s then ok tt else err (io "nonzero metadata in an empty aggregate")
    else if ltb (unwrap 0 s.bytes) s.available_tables
        || ltb (unwrap 0 s.num_frames) s.available_tables
        || ltb s.index_range (unwrap 0 s.num_frames)
    then err (io "inconsistent aggregate file totals")
    else do
      validate_outcomes s.index_range (unwrap 0 s.unique_positions) (unwrap 0 s.win)
          (unwrap 0 s.draw) (unwrap 0 s.loss)
          (
            unwrap 0 s.invalid_opposite_check,
            unwrap 0 s.invalid_ep_squares_occupied,
            unwrap 0 s.invalid_illegal_ep_capture,
            unwrap 0 s.redundant,
          )
      validate_distribution (unwrap [] s.histogram_win) (unwrap 0 s.win)
          (unwrap [] s.longest_dtc_win)
      validate_distribution (unwrap [] s.histogram_loss) (unwrap 0 s.loss)
          (unwrap [] s.longest_dtc_loss)
