-- ===== src/Cache/Accounting.antt =====
-- The resident bytes are those of the retained frames, src/egt_file.rs.
use chess_egt.Common.{
  ℕ, ◌+◌, ◌^◌, ◌≤◌, ◌<◌, ◌≡◌, refl, ◌∙◌, sym, ◌%◌, false, Bool-cases, ℕ_discrete, inl, inr, Option,
  List, [], ◌∷◌, ltb, ◌==◌, if◌then◌else◌, arith,
}
use chess_egt.Cache.{
  Entry, CacheMemory, empty_cache, has_key, contains, touch, record_access, retain_others,
  forget_file, clear_frames,
}

abbrev pub total_bytes : List Entry → ℕ
total_bytes [] = 0
total_bytes (e ∷ es) = e.bytes + total_bytes es

-- The number of entries of one frame.
abbrev pub entries_of : ℕ → ℕ → List Entry → ℕ
entries_of file frame [] = 0
entries_of file frame (e ∷ es) = (if has_key file frame e then 1 else 0) + entries_of file frame es

pub data Call : Type 0 where
  access : ℕ → ℕ → ℕ → Call
  forget : ℕ → Call
  clear : Call

abbrev pub run_one : CacheMemory → Call → CacheMemory
run_one m (access file frame bytes) = (record_access m file frame bytes).0
run_one m (forget file) = forget_file m file
run_one m clear = clear_frames m

abbrev pub run : CacheMemory → List Call → CacheMemory
run m [] = m
run m (c ∷ cs) = run (run_one m c) cs

-- Every frame has one entry at most, and `resident` is the sum of the entries' bytes and fits in usize.
pub record IsAccounted (m : CacheMemory) : Type 0 where
  pub sum : m.resident ≡ total_bytes m.frames
  pub once : (file frame : ℕ) → entries_of file frame m.frames ≤ 1
  pub fits : m.resident < 2 ^ 64

total_bytes-touch :
    (file frame now : ℕ) (es : List Entry) → total_bytes (touch file frame now es) ≡ total_bytes es
total_bytes-touch file frame now [] = refl
total_bytes-touch file frame now (e ∷ es) = elim (Bool-cases (has_key file frame e)) [
  | inl t ↦ rw t (omega (arith, total_bytes-touch file frame now es))
  | inr f ↦ rw f (omega (arith, total_bytes-touch file frame now es))
]

entries_of-touch :
    (g k file frame now : ℕ) (es : List Entry)
    → entries_of g k (touch file frame now es) ≡ entries_of g k es
entries_of-touch g k file frame now [] = refl
entries_of-touch g k file frame now (e ∷ es) = elim (Bool-cases (has_key file frame e)) [
  | inl t ↦ rw t (omega (arith, entries_of-touch g k file frame now es))
  | inr f ↦ rw f (omega (arith, entries_of-touch g k file frame now es))
]

not_contained :
    (file frame : ℕ) (es : List Entry)
    → contains file frame es ≡ false
    → entries_of file frame es ≡ 0
not_contained file frame [] e = refl
not_contained file frame (x ∷ es) e = elim (Bool-cases (has_key file frame x)) [
  | inl t ↦ absurd (let bad = rw t at e in ground (arith, bad))
  | inr f ↦ let rest = rw f at e in rw f (omega (arith, not_contained file frame es rest))
]

split_bytes :
    (file : ℕ) (es : List Entry)
    → total_bytes (retain_others file es).0 + (retain_others file es).1 ≡ total_bytes es
split_bytes file [] = refl
split_bytes file (e ∷ es) = ground (arith, split_bytes file es)

fewer_entries :
    (g k file : ℕ) (es : List Entry) → entries_of g k (retain_others file es).0 ≤ entries_of g k es
fewer_entries g k file [] = omega arith
fewer_entries g k file (e ∷ es) = elim (Bool-cases (e.file == file)) [
  | inl t ↦ rw t (omega (arith, fewer_entries g k file es))
  | inr f ↦ rw f (omega (arith, fewer_entries g k file es))
]

add_once :
    (file frame bytes now g k : ℕ) (es : List Entry)
    → entries_of g k es ≤ 1
    → entries_of file frame es ≡ 0
    → entries_of g k (record { file = file; frame = frame; bytes = bytes; last_used = now } ∷ es)
      ≤ 1
add_once file frame bytes now g k es h none_there = elim (ℕ_discrete file g) [
  | no n ↦ ground (arith, n, h)
  | yes e ↦ elim (ℕ_discrete frame k) [
    | no n ↦ ground (arith, n, h)
    | yes e' ↦ let zero_there = rw (e, e') at none_there in ground (arith, zero_there)
  ]
]

access-IsAccounted :
    (m : CacheMemory) (file frame bytes : ℕ)
    → IsAccounted m
    → IsAccounted (record_access m file frame bytes).0
unfolding record_access
access-IsAccounted m file frame bytes a = elim (Bool-cases (ltb (m.resident + bytes) (2 ^ 64))) [
  | inr f ↦ rw f (record { sum = a.sum; once = a.once; fits = a.fits })
  | inl t ↦ elim (Bool-cases (contains file frame m.frames)) [
    | inl c ↦
        rw (t, c)
          (record {
            sum = a.sum ∙ sym (total_bytes-touch file frame _ m.frames);
            once = λ g k. omega (
              arith,
              a.once g k,
              entries_of-touch g k file frame ((m.clock + 1) % 2 ^ 64) m.frames,
            );
            fits = a.fits;
          })
    | inr n ↦
        rw (t, n)
          (record {
            sum = omega (arith, a.sum);
            once = λ g k.
                add_once file frame bytes ((m.clock + 1) % 2 ^ 64) g k m.frames (a.once g k)
                  (not_contained file frame m.frames n);
            fits = ground (arith, t);
          })
  ]
]

forget-IsAccounted : (m : CacheMemory) (file : ℕ) → IsAccounted m → IsAccounted (forget_file m file)
unfolding forget_file
forget-IsAccounted m file a = record {
  sum = omega (arith, a.sum, split_bytes file m.frames);
  once = λ g k. omega (arith, a.once g k, fewer_entries g k file m.frames);
  fits = omega (arith, a.fits);
}

run-IsAccounted : (cs : List Call) (m : CacheMemory) → IsAccounted m → IsAccounted (run m cs)
unfolding clear_frames
run-IsAccounted [] m a = a
run-IsAccounted (access file frame bytes ∷ cs) m a =
    run-IsAccounted cs _ (access-IsAccounted m file frame bytes a)
run-IsAccounted (forget file ∷ cs) m a = run-IsAccounted cs _ (forget-IsAccounted m file a)
run-IsAccounted (clear ∷ cs) m a =
    run-IsAccounted cs _ (record { sum = refl; once = λ g k. omega arith; fits = omega arith })

-- After any accesses, forgotten files and clears of a new cache: every frame has one entry at most, and the
-- resident bytes are the sum of those of the entries and fit in usize.
pub run_lem :
    (cache_size : Option ℕ) (calls : List Call) → IsAccounted (run (empty_cache cache_size) calls)
run_lem cache_size calls =
    run-IsAccounted calls (empty_cache cache_size)
      (record { sum = refl; once = λ g k. omega arith; fits = omega arith })

no_entry : (file k : ℕ) (es : List Entry) → entries_of file k (retain_others file es).0 ≡ 0
no_entry file k [] = refl
no_entry file k (e ∷ es) = elim (Bool-cases (e.file == file)) [
  | inl t ↦ rw t (no_entry file k es)
  | inr f ↦ rw (f, f) (omega (arith, no_entry file k es))
]

-- A forgotten file has no entry left, and what is released is what its entries took.
pub forget_file_lem :
    (m : CacheMemory) (file : ℕ)
    → IsAccounted m
    → ((k : ℕ) → entries_of file k (forget_file m file).frames ≡ 0)
      × ((forget_file m file).resident + (retain_others file m.frames).1 ≡ m.resident)
unfolding forget_file
forget_file_lem m file a =
    (λ k. no_entry file k m.frames, omega (arith, a.sum, split_bytes file m.frames))
