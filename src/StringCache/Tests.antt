-- ===== src/StringCache/Tests.antt =====
-- moxt/libmisc.cpp: a run of calls on the string cache.
use moxt_cpp.StringCache.{
  Cache, Call, set_string, free_string, run, seq_get_string_in_cache, seq_free_string_in_cache,
  seq_set_string_in_cache,
}
use moxt_cpp.StringCache.Run.{texts, Sound, is_some, run-Sound, answers-run}
use moxt_cpp.Prelude.{◌≡◌, codes, List, [], ◌∷◌, some, true}
use native.Mathlib.Decide.{ℕ_discrete}
use moxt_cpp.Prelude.Outcome.{ok, ◌>>=◌}

-- The latest call first: key 7 is set, freed and set again, key 9 is set twice.
abbrev calls : List Call
calls =
    set_string 9 (codes "later")
    ∷ set_string 7 (codes "again")
    ∷ free_string 7
    ∷ set_string 9 (codes "old")
    ∷ set_string 7 (codes "first")
    ∷ []

run-Sound_example : (c : Cache) × (run calls ≡ ok c) × Sound c (texts calls)
run-Sound_example = run-Sound calls

answers-run_example :
    ((run calls >>= λ c. seq_get_string_in_cache 9 c) ≡ ok (some (codes "later")))
    × ((run calls >>= λ c. seq_free_string_in_cache 9 c >>= λ r. ok r.1) ≡ ok true)
    × ((run calls >>= λ c. seq_set_string_in_cache 9 (codes "new") c >>= λ r. ok r.1)
        ≡ ok (some (codes "new")))
unfolding texts is_some ℕ_discrete
answers-run_example = answers-run calls 9 (codes "new")
