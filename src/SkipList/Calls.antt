-- ===== src/SkipList/Calls.antt =====
-- moxt/libskiplist.cpp: the `seq_skiplist_*` calls on a skip list of Fixed12 numbers. The
-- destructor is `free_list`. `seq_skiplist_dump` prints to the console and is not modelled.
use moxt_cpp.Prelude.{ℕ, Bool, Option, none, some, List, [], ◌∷◌, codes, length, if◌then◌else◌}
use moxt_cpp.Prelude.Int.{ℤ, pos}
use moxt_cpp.Prelude.Outcome.{Outcome, ok, ◌>>=◌}
use moxt_cpp.Fixed12.Parse.{new_string_view}
use moxt_cpp.SkipList.{SkipList, new_list, insert, remove, search, top_n, begin, next}
use moxt_cpp.SkipList.Heap.{get_key, get_value}

-- The key of the footer.
unfoldable pub footer_key : Bool → Outcome ℤ
footer_key is_forward =
    if is_forward
    then new_string_view (codes "999999.999999999999")
    else new_string_view (codes "0.0")

unfoldable pub seq_skiplist_new : Bool → Outcome SkipList
seq_skiplist_new is_forward = do f ← footer_key is_forward; new_list f is_forward

unfoldable pub seq_skiplist_insert : SkipList → ℤ → ℤ → Bool → Outcome (SkipList × Bool)
seq_skiplist_insert list key value update_if_exists = insert key value update_if_exists list

-- The value, or `Fixed12Zero`.
abbrev pub or_fixed12_zero : Option ℤ → ℤ
or_fixed12_zero none = pos 0
or_fixed12_zero (some v) = v

unfoldable pub seq_skiplist_remove : SkipList → ℤ → Outcome (SkipList × ℤ)
seq_skiplist_remove list key = do r ← remove key list; ok (r.0, or_fixed12_zero r.1)

abbrev pub node_value : Option ℕ → SkipList → Outcome ℤ
node_value none list = ok (pos 0)
node_value (some node) list = get_value node list.memory

unfoldable pub seq_skiplist_search : SkipList → ℤ → Outcome ℤ
seq_skiplist_search list key = do node ← search key list; node_value node list

abbrev pub keys_of : List (ℤ × ℤ) → List ℤ
keys_of [] = []
keys_of ((k, v) ∷ es) = k ∷ keys_of es

abbrev pub values_of : List (ℤ × ℤ) → List ℤ
values_of [] = []
values_of ((k, v) ∷ es) = v ∷ values_of es

-- What is written to `keys`, `values` and `resSize`.
unfoldable pub seq_skiplist_top_n : SkipList → ℤ → Outcome (List ℤ × List ℤ × ℕ)
seq_skiplist_top_n list n = do v ← top_n n list; ok (keys_of v, values_of v, length v)

unfoldable pub seq_skiplist_begin : SkipList → Outcome (Option ℕ)
seq_skiplist_begin list = begin list

unfoldable pub seq_skiplist_next : SkipList → Option ℕ → Outcome (Option ℕ)
seq_skiplist_next list node = next node list

unfoldable pub seq_skiplist_node_value : SkipList → ℕ → Outcome (ℤ × ℤ)
seq_skiplist_node_value list node = do
  key ← get_key node list.memory
  value ← get_value node list.memory
  ok (key, value)
