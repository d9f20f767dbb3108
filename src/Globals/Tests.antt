-- ===== src/Globals/Tests.antt =====
-- moxt/libmisc.cpp: a run of calls on the global maps.
use native.Mathlib.Decide.{ℕ_discrete}
use moxt_cpp.Prelude.Assoc
use moxt_cpp.Globals.{
  seq_set_global_int, seq_set_global_string, Call, set_int, set_string, run, seq_get_global_int,
}
use moxt_cpp.Prelude.{◌≡◌, refl, codes, List, [], ◌∷◌}

abbrev calls : List Call
calls = set_string 1 (codes "new") ∷ set_int 1 40 ∷ set_string 1 (codes "old") ∷ set_int 1 39 ∷ []

last_int_set : seq_get_global_int 1 (run calls) ≡ 40
unfolding run seq_get_global_int Assoc.lookup seq_set_global_string seq_set_global_int Assoc.insert
    ℕ_discrete
last_int_set = refl
