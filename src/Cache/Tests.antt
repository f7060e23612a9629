-- ===== src/Cache/Tests.antt =====
-- A run of the cache's accounting, and the theorems on it at concrete inputs.
use chess_egt.Common.{◌≡◌, refl, List, [], ◌∷◌, some, ok, true}
use chess_egt.Cache.{empty_cache, record_access, forget_file}
use chess_egt.Cache.Accounting.{Call, access, forget, clear, run, IsAccounted, entries_of}
use chess_egt.Cache.Accounting

abbrev calls : List Call
calls = access 1 0 500 ∷ access 2 0 700 ∷ access 1 0 500 ∷ access 1 3 20 ∷ forget 2 ∷ []

resident_bytes : (run (empty_cache (some 1000)) calls).resident ≡ 520
unfolding record_access forget_file
resident_bytes = refl

over : (record_access (run (empty_cache (some 1000)) calls) 5 0 700).1 ≡ ok true
unfolding record_access forget_file
over = refl

run_lem_example : IsAccounted (run (empty_cache (some 1000)) calls)
run_lem_example = Accounting.run_lem (some 1000) calls
