-- ===== src/Far/Tests.antt =====
-- moxt/libfar.cpp: a run of calls on two names.
use moxt_cpp.Far.{Call, set_int, set_string, set_bool, clear}
use moxt_cpp.Far.Store.{run, last_set, run-Reads}
use moxt_cpp.Far.{seq_far_get_int, seq_far_get_string, seq_far_get_bool, seq_far_get_float}
use moxt_cpp.Prelude.{◌≡◌, codes, List, [], ◌∷◌, true, false}
use moxt_cpp.Prelude.Int.{pos, negsuc}
use moxt_cpp.Prelude.Text.{same_text}
use native.Mathlib.Decide.{ℕ_discrete}
use moxt_cpp.Prelude.Outcome.{ok}

-- The latest call first: "id" is set twice after a clear, "name" once.
abbrev calls : List Call
calls =
    set_int (codes "id") (negsuc 4)
    ∷ set_string (codes "name") (codes "data")
    ∷ set_bool (codes "id") true
    ∷ clear
    ∷ set_int (codes "old") (pos 1)
    ∷ []

run-Reads_example :
    (seq_far_get_int (run calls) (codes "name") ≡ pos 0)
    × (seq_far_get_float (run calls) (codes "name") ≡ 0)
    × (seq_far_get_bool (run calls) (codes "name") ≡ false)
    × (seq_far_get_string (run calls) (codes "name") ≡ ok (codes "data", 4))
unfolding last_set same_text ℕ_discrete
run-Reads_example = run-Reads calls (codes "name")
