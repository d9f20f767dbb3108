-- ===== src/SkipList/Tests.antt =====
-- moxt/skiplist/skiplist.hpp and moxt/libskiplist.cpp: tests of the lists.
use moxt_cpp.SkipList.{SkipList, insert, remove, search, free_list, precedes}
use moxt_cpp.SkipList.Heap.{Memory}
use moxt_cpp.SkipList.Random.{IsSeed, next, next-IsSeed, modulus, multiplier}
use moxt_cpp.SkipList.Cells.{Cell}
use moxt_cpp.SkipList.Spec.{entries, value_of, put_entry, drop_entry}
use moxt_cpp.SkipList.Calls.{
  seq_skiplist_remove, seq_skiplist_search, seq_skiplist_top_n, or_fixed12_zero, keys_of, values_of,
}
use moxt_cpp.SkipList.Free.{free_list-empty}
use moxt_cpp.SkipList.Beyond.{behind_footer}
use moxt_cpp.SkipList.Refine.{
  Call, insert_key, remove_key, run, held, Holding, bound, InRange, key_of, run-Holding,
  answers-held,
}
use moxt_cpp.Prelude.{
  ◌≡◌, refl, ap, ℕ, suc, ◌%◌, ◌*◌, ◌<◌, Bool, true, false, none, List, [], ◌∷◌, All, length, take,
  arith,
}
use moxt_cpp.Prelude.Int.{ℤ, pos}
use moxt_cpp.Prelude.Outcome.{ok, fault, bad_index, ◌>>=◌}

-- Keys put in and taken out, the latest call first.
abbrev calls : List Call
calls =
    insert_key (pos 20) (pos 4) true
    ∷ remove_key (pos 25)
    ∷ insert_key (pos 25) (pos 3) false
    ∷ insert_key (pos 20) (pos 3) false
    ∷ insert_key (pos 10) (pos 2) false
    ∷ insert_key (pos 30) (pos 1) false
    ∷ []

left : held true calls ≡ (pos 10, pos 2) ∷ (pos 20, pos 4) ∷ (pos 30, pos 1) ∷ []
unfolding held put_entry drop_entry precedes
left = refl

in_range : All (λ c. InRange true (key_of c)) calls
unfolding precedes
in_range = (refl, (refl, (refl, (refl, (refl, (refl, tt))))))

run-Holding_example : Holding true (held true calls) (run true calls)
run-Holding_example = run-Holding true calls in_range

answers-held_example :
    let es = held true calls in
    ((run true calls >>= λ s. seq_skiplist_search s (pos 20))
      ≡ ok (or_fixed12_zero (value_of (pos 20) es)))
    × ((run true calls >>= λ s. seq_skiplist_remove s (pos 20) >>= λ r. ok r.1)
        ≡ ok (or_fixed12_zero (value_of (pos 20) es)))
    × ((run true calls >>= λ s. seq_skiplist_top_n s (pos 2))
        ≡ ok (keys_of (take 2 es), values_of (take 2 es), length (take 2 es)))
unfolding precedes
answers-held_example = answers-held true calls (pos 20) (pos 2) in_range refl

-- The list after the calls.
abbrev holding : Holding true (held true calls) (run true calls)
holding = run-Holding true calls in_range

abbrev list : SkipList
list = holding.list

abbrev cells : List Cell
cells = holding.cells

before_bound : precedes list.is_forward (pos 25) (bound true) ≡ true
unfolding precedes
before_bound = rw holding.direction refl

bound_before : precedes list.is_forward (bound true) (pos 1_000_000_000_000_000_000) ≡ true
unfolding precedes
bound_before = rw holding.direction refl

length-entries : (cs : List Cell) → length (entries cs) ≡ length cs
length-entries [] = refl
length-entries (c ∷ cs) = ap suc (length-entries cs)

not_empty : 0 < length cells
not_empty = omega (arith, length-entries cells, ap length holding.holds, ap length left)

free_list-empty_example : (m : Memory) × (free_list list ≡ ok m) × ((a : ℕ) → m.nodes a ≡ none)
free_list-empty_example = free_list-empty list (bound true) cells holding.inv

behind_footer_example :
    (search (pos 1_000_000_000_000_000_000) list ≡ fault bad_index)
    × ((w : ℤ) (u : Bool) → insert (pos 1_000_000_000_000_000_000) w u list ≡ fault bad_index)
    × (remove (pos 1_000_000_000_000_000_000) list ≡ fault bad_index)
behind_footer_example =
    behind_footer list (bound true) (pos 1_000_000_000_000_000_000) cells holding.inv not_empty
      bound_before

next-IsSeed_example : (next 1 ≡ 1 * multiplier % modulus) × IsSeed (next 1)
next-IsSeed_example = next-IsSeed 1 (omega arith, omega arith)
