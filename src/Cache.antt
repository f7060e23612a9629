-- ===== src/Cache.antt =====
-- The accounting of `SharedFileCache`, src/egt_file.rs: which uncompressed frames are retained, and how
-- many bytes they take. Each function runs under the cache's lock, so it is one step.
-- A file is the number that its pointer is; the map of frames is the list of its entries. A weak
-- pointer to the file is left out: only `enforce_limit` reads it, which is not modelled.
pub mod Accounting
mod Tests
use chess_egt.Common.{
  ℕ, zero, suc, ◌+◌, ◌-◌, ◌%◌, ◌^◌, Bool, true, false, not, ◌&&◌, ◌||◌, Option, none, some, List,
  [], ◌∷◌, ltb, ◌==◌, if◌then◌else◌, EgtResult, ok, err, internal,
}

-- An entry of the map: `FrameKey` and `CachedFrame`.
pub record Entry : Type 0 where
  pub file : ℕ
  pub frame : ℕ
  pub bytes : ℕ
  pub last_used : ℕ

pub record CacheMemory : Type 0 where
  pub assigned : Option ℕ
  pub resident : ℕ
  pub clock : ℕ
  pub frames : List Entry

-- `SharedFileCache::new`
abbrev pub empty_cache : Option ℕ → CacheMemory
empty_cache cache_size = record { assigned = cache_size; resident = 0; clock = 0; frames = [] }

abbrev pub has_key : ℕ → ℕ → Entry → Bool
has_key file frame e = e.file == file && e.frame == frame

abbrev pub contains : ℕ → ℕ → List Entry → Bool
contains file frame [] = false
contains file frame (e ∷ es) = has_key file frame e || contains file frame es

-- `get_mut` of a key, with the write of `last_used`.
abbrev pub touch : ℕ → ℕ → ℕ → List Entry → List Entry
touch file frame now [] = []
touch file frame now (e ∷ es) =
    (if has_key file frame e then record e { last_used = now } else e) ∷ touch file frame now es

abbrev pub exceeds : Option ℕ → ℕ → Bool
exceeds none resident = false
exceeds (some limit) resident = ltb limit resident

-- `record_access`: on an overflow the clock has moved on.
unfoldable pub record_access : CacheMemory → ℕ → ℕ → ℕ → CacheMemory × EgtResult Bool
record_access m file frame bytes =
    let now = (m.clock + 1) % 2 ^ 64 in
    let new_resident = m.resident + bytes in
    let fresh : Entry = record { file = file; frame = frame; bytes = bytes; last_used = now } in
    if not (ltb new_resident (2 ^ 64))
    then (record m { clock = now }, err (internal "cache memory accounting overflow"))
    else if contains file frame m.frames
    then (
      record m { clock = now; frames = touch file frame now m.frames },
      ok (exceeds m.assigned m.resident),
    )
    else (
      record m { clock = now; resident = new_resident; frames = fresh ∷ m.frames },
      ok (exceeds m.assigned new_resident),
    )

-- The loop of `retain` in `forget_file`: the entries that stay, and the bytes released.
abbrev pub retain_others : ℕ → List Entry → List Entry × ℕ
retain_others file [] = ([], 0)
retain_others file (e ∷ es) =
    let (kept, released) = retain_others file es in
    if e.file == file then (kept, e.bytes + released) else (e ∷ kept, released)

-- `forget_file`. The subtraction does not underflow: the files' bytes are part of `resident`.
unfoldable pub forget_file : CacheMemory → ℕ → CacheMemory
forget_file m file =
    let (kept, released) = retain_others file m.frames in
    record m { frames = kept; resident = m.resident - released }

-- What `clear` does to the frames.
unfoldable pub clear_frames : CacheMemory → CacheMemory
clear_frames m = record m { frames = []; resident = 0 }
