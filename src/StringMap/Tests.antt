-- ===== src/StringMap/Tests.antt =====
-- moxt/libmisc.cpp: a run of calls on a string map.
use moxt_cpp.Prelude.Assoc
use moxt_cpp.StringMap.{seq_ssmap_set, Call, set_name, get_name, run, seq_ssmap_get, c_string}
use moxt_cpp.Prelude.{◌≡◌, refl, codes, ◌++◌, ◌∷◌, List, []}
use moxt_cpp.Prelude.Text.{same_text}
use native.Mathlib.Decide.{ℕ_discrete}

-- The latest call first: "side" is set twice, "type" only read.
abbrev calls : List Call
calls =
    get_name (codes "type")
    ∷ set_name (codes "side") (codes "Buy" ++ 0 ∷ codes "Sell")
    ∷ set_name (codes "side") (codes "None")
    ∷ []

side : (seq_ssmap_get (run calls) (codes "side")).0 ≡ codes "Buy"
unfolding run seq_ssmap_get Assoc.lookup seq_ssmap_set Assoc.insert same_text c_string ℕ_discrete
side = refl
