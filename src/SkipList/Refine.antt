-- ===== src/SkipList/Refine.antt =====
-- moxt/libskiplist.cpp: what the calls on a list answer after any sequence of inserts and removals.
use moxt_cpp.SkipList.{SkipList, precedes}
use moxt_cpp.SkipList.Cells.{Cell}
use moxt_cpp.SkipList.Invariant.{Inv}
use moxt_cpp.SkipList.Spec.{Entries, entries, value_of, put_entry, drop_entry}
use moxt_cpp.SkipList.Calls.{
  footer_key, seq_skiplist_new, seq_skiplist_insert, seq_skiplist_remove, seq_skiplist_search,
  seq_skiplist_top_n, or_fixed12_zero, keys_of, values_of,
}
use moxt_cpp.SkipList.Create.{new_list-Inv}
use moxt_cpp.SkipList.Lookup.{seq_skiplist_search-value_of}
use moxt_cpp.SkipList.Update.{insert-put_entry}
use moxt_cpp.SkipList.Erase.{remove-drop_entry}
use moxt_cpp.SkipList.Top.{top_n-take}
use moxt_cpp.Decimal.{value}
use moxt_cpp.Fixed12.Parse.Value.{new_string_view-short}
use moxt_cpp.Prelude.{
  ◌≡◌, refl, sym, ◌∙◌, ap, Bool, true, false, List, [], ◌∷◌, All, arith, codes, take, length,
  if◌then◌else◌,
}
use moxt_cpp.Prelude.Int.{ℤ, pos, pos_part}
use moxt_cpp.Prelude.Outcome.{Outcome, ok, ◌>>=◌}

pub data Call : Type 0 where
  insert_key : ℤ → ℤ → Bool → Call
  remove_key : ℤ → Call

abbrev pub key_of : Call → ℤ
key_of (insert_key key value update) = key
key_of (remove_key key) = key

abbrev pub call : Call → SkipList → Outcome SkipList
call (insert_key key value update) s = do r ← seq_skiplist_insert s key value update; ok r.0
call (remove_key key) s = do r ← seq_skiplist_remove s key; ok r.0

-- A new list after calls, the latest first.
unfoldable pub run : Bool → List Call → Outcome SkipList
run fwd [] = seq_skiplist_new fwd
run fwd (c ∷ calls) = do s ← run fwd calls; call c s

abbrev pub change : Bool → Call → Entries → Entries
change fwd (insert_key key value update) es = (put_entry fwd key value update es).0
change fwd (remove_key key) es = drop_entry key es

-- The entries that a list should hold after calls.
unfoldable pub held : Bool → List Call → Entries
held fwd [] = []
held fwd (c ∷ calls) = change fwd c (held fwd calls)

-- The key of the footer: 999999.999999999999, or 0 in a backward list.
abbrev pub bound : Bool → ℤ
bound fwd = if fwd then pos 999_999_999_999_999_999 else pos 0

abbrev pub InRange : Bool → ℤ → Type 0
InRange fwd key = precedes fwd key (bound fwd) ≡ true

footer_key-bound : (fwd : Bool) → footer_key fwd ≡ ok (bound fwd)
unfolding footer_key
footer_key-bound true =
    new_string_view-short false (codes "999999") (codes "999999999999") (omega arith) (omega arith)
      (omega arith) (omega arith) (omega arith)
footer_key-bound false =
    new_string_view-short false (codes "0") (codes "0") (omega arith) (omega arith) (omega arith)
      (omega arith) (omega arith)

-- A list in order that holds given entries.
pub record Holding (fwd : Bool) (es : Entries) (r : Outcome SkipList) : Type 0 where
  pub list : SkipList
  pub cells : List Cell
  pub result : r ≡ ok list
  pub direction : list.is_forward ≡ fwd
  pub inv : Inv list (bound fwd) cells
  pub holds : entries cells ≡ es

new_Holding : (fwd : Bool) → Holding fwd [] (seq_skiplist_new fwd)
unfolding seq_skiplist_new
new_Holding fwd =
    let (s, e, d, v) = new_list-Inv (bound fwd) fwd in
    record {
      list = s;
      cells = [];
      result = rw (footer_key-bound fwd) e;
      direction = d;
      inv = v;
      holds = refl;
    }

InRange-precedes :
    (fwd : Bool) (key : ℤ) (s : SkipList)
    → s.is_forward ≡ fwd
    → InRange fwd key
    → precedes s.is_forward key (bound fwd) ≡ true
InRange-precedes fwd key s e h = rw e h

call_Holding :
    (fwd : Bool) (c : Call) (es : Entries) (r : Outcome SkipList)
    → InRange fwd (key_of c)
    → Holding fwd es r
    → Holding fwd (change fwd c es) (r >>= λ s. call c s)
unfolding seq_skiplist_insert seq_skiplist_remove
call_Holding fwd (insert_key key value update) es r h w =
    let d =
      insert-put_entry w.list (bound fwd) key value update w.cells w.inv
        (InRange-precedes fwd key w.list w.direction h) in
    record {
      list = d.list;
      cells = d.cells;
      result = rw (w.result, d.result) refl;
      direction = d.direction ∙ w.direction;
      inv = d.inv;
      holds =
          ap (λ p. p.0) (sym d.spec)
          ∙ (λ i. (put_entry (w.direction i) key value update (w.holds i)).0);
    }
call_Holding fwd (remove_key key) es r h w =
    let d =
      remove-drop_entry w.list (bound fwd) key w.cells w.inv
        (InRange-precedes fwd key w.list w.direction h) in
    record {
      list = d.list;
      cells = d.cells;
      result = rw (w.result, d.result) refl;
      direction = d.direction ∙ w.direction;
      inv = d.inv;
      holds = d.spec ∙ ap (drop_entry key) w.holds;
    }

-- After any sequence of inserts and removals of keys before the footer's key, no call has failed,
-- the list is in order, and its nodes hold the entries that the calls leave in a sorted list.
pub run-Holding :
    (fwd : Bool) (calls : List Call)
    → All (λ c. InRange fwd (key_of c)) calls
    → Holding fwd (held fwd calls) (run fwd calls)
unfolding run held
run-Holding fwd [] h = new_Holding fwd
run-Holding fwd (c ∷ calls) (h, hs) =
    call_Holding fwd c (held fwd calls) (run fwd calls) h (run-Holding fwd calls hs)

-- After any such sequence, a search answers with the value that a sorted list of entries would hold
-- for the key, or 0; a removal with the same; and `topN` with the keys and values of the first
-- entries and their number.
pub answers-held :
    (fwd : Bool) (calls : List Call) (key n : ℤ)
    → All (λ c. InRange fwd (key_of c)) calls
    → InRange fwd key
    → let es = held fwd calls in
      let top = take (pos_part n) es in
      ((run fwd calls >>= λ s. seq_skiplist_search s key) ≡ ok (or_fixed12_zero (value_of key es)))
      × ((run fwd calls >>= λ s. seq_skiplist_remove s key >>= λ r. ok r.1)
          ≡ ok (or_fixed12_zero (value_of key es)))
      × ((run fwd calls >>= λ s. seq_skiplist_top_n s n)
          ≡ ok (keys_of top, values_of top, length top))
unfolding seq_skiplist_remove seq_skiplist_top_n
answers-held fwd calls key n hs h =
    let w = run-Holding fwd calls hs in
    let p = InRange-precedes fwd key w.list w.direction h in
    let d = remove-drop_entry w.list (bound fwd) key w.cells w.inv p in
    (
      rw (w.result, seq_skiplist_search-value_of w.list (bound fwd) key w.cells w.inv p, w.holds)
          refl,
      rw (w.result, d.result, w.holds) refl,
      rw (w.result, top_n-take w.list (bound fwd) w.cells n w.inv, w.holds) refl,
    )
