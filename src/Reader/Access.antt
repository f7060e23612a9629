-- ===== src/Reader/Access.antt =====
-- Reads and writes by index of a table that is kept in memory, src/egt_file.rs.
use chess_egt.Common.{
  ℕ, zero, suc, ◌/◌, ◌%◌, ◌<◌, ◌≡◌, ◌≢◌, refl, ap, ◌∙◌, sym, inl, inr, Option, Option-cases, some,
  none, List, leb, get_or, set, length, length-set, get_or-set_self, get_or-set_ne, replicate,
  length-replicate, false, ok, ◌>>=◌, arith, ℕ_discrete,
}
use native.Mathlib.Nat.{div-add-mod'}
use chess_egt.Outcome.{MaybeDtcOutcome, invalid_word}
use chess_egt.Reader.{
  EgtFileReader, Packages, layout_from, num_frames, construct, frame_at, resident, keep_frame,
  get_frame_data, read_from_index, write_to_index,
}
use chess_egt.Reader.Layout.{in_num_frames, locate_frame_lem, length-layout_from}

-- A reader without a file behind it: laid out as `construct` does, each resident frame of its length.
pub record IsMemory (r : EgtFileReader) : Type 0 where
  pub positive : 0 < r.frame_size
  pub layout :
      r.frame_layout
      ≡ layout_from r.index_range r.frame_size (num_frames r.index_range r.frame_size) 0
  pub as_many : length r.frames ≡ num_frames r.index_range r.frame_size
  pub sizes :
      (f : ℕ) (words : List ℕ) → resident r f ≡ some words → length words ≡ (frame_at r f).len
  pub no_table : r.seek_table ≡ none

abbrev word_in : Option (List ℕ) → ℕ → MaybeDtcOutcome
word_in none offset = invalid_word
word_in (some words) offset = get_or words offset invalid_word

-- The word at an index: INVALID in a frame that is not allocated.
abbrev pub view : EgtFileReader → ℕ → MaybeDtcOutcome
view r i = word_in (resident r (i / r.frame_size)) (i % r.frame_size)

keep-IsMemory :
    (r : EgtFileReader) (f : ℕ) (words : List ℕ)
    → IsMemory r
    → f < length r.frames
    → length words ≡ (frame_at r f).len
    → IsMemory (keep_frame r f words)
keep-IsMemory r f words m h e = record {
  positive = m.positive;
  layout = m.layout;
  as_many = length-set r.frames f (some words) ∙ m.as_many;
  sizes = λ g ws there. elim (ℕ_discrete f g) [
    | yes same ↦
        let now : some words ≡ some ws =
          sym (get_or-set_self r.frames f (some words) none h)
          ∙ ap (λ x. get_or (set r.frames f (some words)) x none) same
          ∙ there in
        let equal : words ≡ ws = cc in rw (sym equal, sym same) e
    | no other ↦ m.sizes g ws (sym (get_or-set_ne r.frames f g (some words) none other) ∙ there)
  ];
  no_table = m.no_table;
}

view-keep :
    (r : EgtFileReader) (f : ℕ) (words : List ℕ) (i : ℕ)
    → f < length r.frames
    → i / r.frame_size ≡ f
    → view (keep_frame r f words) i ≡ get_or words (i % r.frame_size) invalid_word
view-keep r f words i h e = rw (e, get_or-set_self r.frames f (some words) none h) refl

view-keep_ne :
    (r : EgtFileReader) (f : ℕ) (words : List ℕ) (i : ℕ)
    → f ≢ i / r.frame_size
    → view (keep_frame r f words) i ≡ view r i
view-keep_ne r f words i n =
    rw (get_or-set_ne r.frames f (i / r.frame_size) (some words) none n) refl

get_or-replicate {ℓ} : {A : Type ℓ} (n i : ℕ) (d : A) → get_or (replicate n d) i d ≡ d
get_or-replicate zero i d = refl
get_or-replicate (suc n) zero d = refl
get_or-replicate (suc n) (suc i) d = get_or-replicate n i d

-- What `get_frame_data` gives for a frame of the table.
record Loaded (p : Packages) (r : EgtFileReader) (f : ℕ) : Type 0 where
  reader : EgtFileReader
  words : List ℕ
  gives : get_frame_data p r f ≡ ok (reader, words)
  memory : IsMemory reader
  same_range : reader.index_range ≡ r.index_range
  same_size : reader.frame_size ≡ r.frame_size
  same_layout : reader.frame_layout ≡ r.frame_layout
  is_resident : resident reader f ≡ some words
  same_view : (i : ℕ) → view reader i ≡ view r i

loaded :
    (p : Packages) (r : EgtFileReader) (f : ℕ) → IsMemory r → f < length r.frames → Loaded p r f
unfolding get_frame_data
loaded p r f m h = elim (Option-cases (resident r f)) [
  | inr (words, e) ↦ record {
    reader = r;
    words = words;
    gives = rw e refl;
    memory = m;
    same_range = refl;
    same_size = refl;
    same_layout = refl;
    is_resident = e;
    same_view = λ i. refl;
  }
  | inl e ↦
      let blank = replicate (frame_at r f).len invalid_word in
      record {
        reader = keep_frame r f blank;
        words = blank;
        gives = rw (e, m.no_table) refl;
        memory = keep-IsMemory r f blank m h (length-replicate (frame_at r f).len invalid_word);
        same_range = refl;
        same_size = refl;
        same_layout = refl;
        is_resident = get_or-set_self r.frames f (some blank) none h;
        same_view = λ i. elim (ℕ_discrete (i / r.frame_size) f) [
          | yes same ↦
              view-keep r f blank i h same
              ∙ get_or-replicate (frame_at r f).len (i % r.frame_size) invalid_word
              ∙ rw (same, e) refl
          | no other ↦ view-keep_ne r f blank i (λ x. other (sym x))
        ];
      }
]

frame_of :
    (r : EgtFileReader) (i : ℕ)
    → IsMemory r
    → i < r.index_range
    → i / r.frame_size < length r.frames
frame_of r i m h = rw m.as_many (in_num_frames r.index_range r.frame_size i m.positive h)

-- The word that is seen in a frame that is loaded.
seen :
    (p : Packages) (r : EgtFileReader) (f j : ℕ) (l : Loaded p r f)
    → j / r.frame_size ≡ f
    → get_or l.words (j % r.frame_size) invalid_word ≡ view r j
seen p r f j l e =
    let here : view l.reader j ≡ get_or l.words (j % r.frame_size) invalid_word =
      rw (l.same_size, e, l.is_resident) refl in
    sym here ∙ l.same_view j

room :
    (p : Packages) (r : EgtFileReader) (i : ℕ) (l : Loaded p r (i / r.frame_size))
    → IsMemory r
    → i < r.index_range
    → i / r.frame_size < length l.reader.frames
room p r i l m h =
    rw (l.memory.as_many, l.same_range, l.same_size)
      (in_num_frames r.index_range r.frame_size i m.positive h)

-- In a table that is kept in memory, a read of an index of the table succeeds and gives the word there;
-- it leaves such a table with the same words.
pub read_from_index_lem :
    (p : Packages) (r : EgtFileReader) (i : ℕ)
    → IsMemory r
    → i < r.index_range
    → (r' : EgtFileReader) × (read_from_index p r i ≡ ok (r', view r i))
      × IsMemory r'
      × (r'.index_range ≡ r.index_range)
      × ((j : ℕ) → view r' j ≡ view r j)
unfolding read_from_index
read_from_index_lem p r i m h =
    let l = loaded p r (i / r.frame_size) m (frame_of r i m h) in
    let at = (locate_frame_lem r i m.layout m.positive h).0 in
    let inside : leb r.index_range i ≡ false = ground (arith, h) in
    let word : get_or l.words (i % r.frame_size) invalid_word ≡ view r i =
      seen p r (i / r.frame_size) i l refl in
    (
      l.reader,
      rw inside (
          ap (λ loc. get_frame_data p r loc.0 >>= λ (r', ws). ok (r', get_or ws loc.1 invalid_word))
            at
          ∙ rw (l.gives, word) refl),
      l.memory,
      l.same_range,
      l.same_view,
    )

others :
    (p : Packages) (r : EgtFileReader) (i j v : ℕ)
    → IsMemory r
    → (l : Loaded p r (i / r.frame_size)) → i / r.frame_size < length l.reader.frames
    → j ≢ i
    → view (keep_frame l.reader (i / r.frame_size) (set l.words (i % r.frame_size) v)) j ≡ view r j
others p r i j v m l b ne = elim (ℕ_discrete (j / r.frame_size) (i / r.frame_size)) [
  | yes e ↦
      let apart : i % r.frame_size ≢ j % r.frame_size =
        λ x. ne (sym (div-add-mod' j r.frame_size) ∙ rw (e, sym x) (div-add-mod' i r.frame_size)) in
      view-keep l.reader (i / r.frame_size) _ j b (rw l.same_size e)
      ∙ rw l.same_size
          (get_or-set_ne l.words (i % r.frame_size) (j % r.frame_size) v invalid_word apart)
      ∙ seen p r (i / r.frame_size) j l e
  | no n ↦
      view-keep_ne l.reader (i / r.frame_size) _ j (rw l.same_size (λ x. n (sym x))) ∙ l.same_view j
]

-- In a table that is kept in memory, a write at an index of the table succeeds: afterwards that index holds
-- the word that was written, every other index of the table what it held, and the table is still kept in memory.
pub write_to_index_lem :
    (p : Packages) (r : EgtFileReader) (i v : ℕ)
    → IsMemory r
    → i < r.index_range
    → (r' : EgtFileReader) × (write_to_index p r i v ≡ ok r')
      × IsMemory r'
      × (r'.index_range ≡ r.index_range)
      × (view r' i ≡ v)
      × ((j : ℕ) → j ≢ i → view r' j ≡ view r j)
unfolding write_to_index
write_to_index_lem p r i v m h =
    let f = i / r.frame_size in
    let l = loaded p r f m (frame_of r i m h) in
    let (at, off, _) = locate_frame_lem r i m.layout m.positive h in
    let inside : leb r.index_range i ≡ false = ground (arith, h) in
    let words = set l.words (i % r.frame_size) v in
    let b = room p r i l m h in
    let size = l.memory.sizes f l.words l.is_resident in
    let long : i % r.frame_size < length l.words = rw (size, l.same_layout) off in
    (
      keep_frame l.reader f words,
      rw inside (
          ap
            (λ loc.
              get_frame_data p r loc.0 >>= λ (r', ws). ok (keep_frame r' loc.0 (set ws loc.1 v)))
            at
          ∙ rw l.gives refl),
      keep-IsMemory l.reader f words l.memory b (length-set l.words (i % r.frame_size) v ∙ size),
      l.same_range,
      view-keep l.reader f words i b (rw l.same_size refl)
          ∙ rw l.same_size (get_or-set_self l.words (i % r.frame_size) v invalid_word long),
      λ j ne. others p r i j v m l b ne,
    )

some-none : (words : List ℕ) → some words ≡ none → ⊥
some-none words e = cc

-- A new table is kept in memory, and holds INVALID at every index.
pub construct_lem :
    (range frame_size : ℕ)
    → 0 < frame_size
    → IsMemory (construct range frame_size)
      × ((i : ℕ) → view (construct range frame_size) i ≡ invalid_word)
unfolding construct
construct_lem range frame_size p = (
  record {
    positive = p;
    layout = refl;
    as_many =
        length-replicate _ none
        ∙ length-layout_from range frame_size (num_frames range frame_size) 0;
    sizes = λ f words e.
        absurd (some-none words (sym e ∙ get_or-replicate {A = Option (List ℕ)} _ f none));
    no_table = refl;
  },
  λ i.
      ap (λ o. word_in o (i % frame_size))
        (get_or-replicate {A = Option (List ℕ)}
          (length (layout_from range frame_size (num_frames range frame_size) 0)) (i / frame_size)
          none),
)
