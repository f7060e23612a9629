-- ===== src/Reader/Layout.antt =====
-- The frame layout that `construct` sets up and `locate_frame` searches, src/egt_file.rs.
use chess_egt.Common.{
  ℕ, zero, suc, ◌+◌, ◌-◌, ◌*◌, ◌/◌, ◌%◌, ◌<◌, ◌≡◌, refl, ap, ◌∙◌, min, leb, get_or, length, true,
  arith,
}
use native.Mathlib.Nat.{mod-lt, div-add-mod', lt-div-mul-add, div-lt_iff_lt-mul}
use chess_egt.Reader.{
  FrameDescriptor, EgtFileReader, layout_from, num_frames, partition_point, frame_at, locate_frame,
}

pub length-layout_from : (range fs k s : ℕ) → length (layout_from range fs k s) ≡ k
unfolding layout_from
length-layout_from range fs zero s = refl
length-layout_from range fs (suc k) s = ap suc (length-layout_from range fs k (s + fs))

frame_in_layout :
    (range fs k s j : ℕ) (d : FrameDescriptor)
    → j < k
    → get_or (layout_from range fs k s) j d
      ≡ record { start = s + j * fs; len = min fs (range - (s + j * fs)) }
unfolding layout_from
frame_in_layout range fs zero s j d h = elim h [ ]
frame_in_layout range fs (suc k) s zero d h = let e : s + 0 * fs ≡ s = omega arith in rw e refl
frame_in_layout range fs (suc k) s (suc j) d h =
    let e : s + fs + j * fs ≡ s + suc j * fs = omega arith in
    frame_in_layout range fs k (s + fs) j d (omega arith) ∙ rw e refl

none_start : (range fs k s i : ℕ) → i < s → partition_point (layout_from range fs k s) i ≡ 0
unfolding layout_from partition_point
none_start range fs zero s i h = refl
none_start range fs (suc k) s i h = ground (arith, h)

partition_point-layout_from :
    (range fs k s i j o : ℕ)
    → j < k
    → o < fs
    → i ≡ s + j * fs + o
    → partition_point (layout_from range fs k s) i ≡ suc j
unfolding layout_from partition_point
partition_point-layout_from range fs zero s i j o h l e = elim h [ ]
partition_point-layout_from range fs (suc k) s i zero o h l e =
    let later = none_start range fs k (s + fs) i (omega arith) in ground (arith, e, later)
partition_point-layout_from range fs (suc k) s i (suc j) o h l e =
    let later =
      partition_point-layout_from range fs k (s + fs) i j o (omega arith) l (omega arith) in
    let le : leb s i ≡ true = ground (arith, e) in rw (le, later) refl

-- A frame per `fs` indices.
pub in_num_frames : (range fs i : ℕ) → 0 < fs → i < range → i / fs < num_frames range fs
in_num_frames range fs i p h =
    let above = lt-div-mul-add {a = range + (fs - 1)} {b = fs} p in
    (div-lt_iff_lt-mul {k = fs} {x = i} {y = num_frames range fs} p).1 (omega (arith, above))

-- Where `locate_frame` finds an index: in the frame of its quotient by the frame size, at its remainder,
-- which lies inside the frame.
pub locate_frame_lem :
    (r : EgtFileReader) (i : ℕ)
    → r.frame_layout
      ≡ layout_from r.index_range r.frame_size (num_frames r.index_range r.frame_size) 0
    → 0 < r.frame_size
    → i < r.index_range
    → (locate_frame r i ≡ (i / r.frame_size, i % r.frame_size))
      × (i % r.frame_size < (frame_at r (i / r.frame_size)).len)
      × ((frame_at r (i / r.frame_size)).start + i % r.frame_size ≡ i)
unfolding locate_frame
locate_frame_lem r i e p h =
    let j = i / r.frame_size in
    let n = num_frames r.index_range r.frame_size in
    let inside = in_num_frames r.index_range r.frame_size i p h in
    let parts = div-add-mod' i r.frame_size in
    let small = mod-lt i p in
    let found : partition_point r.frame_layout i - 1 ≡ j = rw e (
      omega (
        arith,
        partition_point-layout_from r.index_range r.frame_size n 0 i j (i % r.frame_size) inside
            small (omega (arith, parts)),
      )) in
    let here : frame_at r j ≡ record {
      start = 0 + j * r.frame_size;
      len = min r.frame_size (r.index_range - (0 + j * r.frame_size));
    } =
      rw e (frame_in_layout r.index_range r.frame_size n 0 j _ inside) in
    (
      rw (found, here) (ap (λ x. (j, x)) (omega (arith, parts))),
      rw here (omega (arith, small, parts, h)),
      rw here (omega (arith, parts)),
    )
