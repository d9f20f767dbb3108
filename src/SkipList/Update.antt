-- ===== src/SkipList/Update.antt =====
-- moxt/skiplist/skiplist.hpp: `insert`, of a key that is there and of one that is not.
use mathlib.Core.Path.{subst}
use moxt_cpp.SkipList.{SkipList, precedes, insert, insert_over, insert_at}
use moxt_cpp.SkipList.Overwrite.{set_cell, changed, value_set, changed-Inv}
use moxt_cpp.SkipList.Cells.{Cell, addrs}
use moxt_cpp.SkipList.Order.{AllBefore, AllAfter, position}
use moxt_cpp.SkipList.Invariant.{Inv, Holds, All-parts}
use moxt_cpp.SkipList.Insert.{insert_at-Inserted}
use moxt_cpp.SkipList.Place.{descend-place, forward-place, footer-key, cell-key, first-zero}
use moxt_cpp.SkipList.Spec.{
  Entries, entries, put_entry, put_entry-before, entries-append, after, after-append,
}
use moxt_cpp.SkipList.Lookup.{bound_ne, behind_all, Sorted-rest}
use moxt_cpp.Prelude.{
  ◌≡◌, refl, sym, ◌∙◌, ap, Bool, true, false, List, [], ◌∷◌, ◌++◌, arith, inl, inr, Bool-cases,
  if◌then◌else◌,
}
use moxt_cpp.Prelude.Int.{ℤ, eqb_ℤ}
use moxt_cpp.Prelude.Outcome.{ok}

-- What `insert` leaves behind, with its answer.
pub record Done (s : SkipList) (bound : ℤ) (es : Entries) (key value : ℤ) (update : Bool)
    : Type 0 where
  pub list : SkipList
  pub answer : Bool
  pub cells : List Cell
  pub result : insert key value update s ≡ ok (list, answer)
  pub direction : list.is_forward ≡ s.is_forward
  pub inv : Inv list bound cells
  pub spec : put_entry s.is_forward key value update es ≡ (entries cells, answer)

module _ (s : SkipList) (bound key value : ℤ) (update : Bool) (pre : List Cell)
    (p : precedes s.is_forward key bound ≡ true) (b : AllBefore s.is_forward key pre) where
  -- The entries once a key was put between `pre` and `post`.
  put_between :
      (post : List Cell) (c : Cell)
      → c.key ≡ key
      → c.value ≡ value
      → put_entry s.is_forward key value update (entries post) ≡ ((key, value) ∷ entries post, true)
      → put_entry s.is_forward key value update (entries (pre ++ post))
        ≡ (entries (pre ++ c ∷ post), true)
  put_between post c k w e =
      ap (λ l. put_entry s.is_forward key value update l) (entries-append pre post)
      ∙ put_entry-before s.is_forward key value update pre (entries post) b
      ∙ ap (after (entries pre)) e
      ∙ after-append (entries pre) ((key, value) ∷ entries post) true
      ∙ ap (λ l. (l, true))
          (ap (λ x. entries pre ++ x ∷ entries post) (λ i. (sym k i, sym w i))
            ∙ sym (entries-append pre (c ∷ post)))

  at_end : Inv s bound (pre ++ []) → Done s bound (entries (pre ++ [])) key value update
  unfolding insert put_entry addrs
  at_end v =
      let d = descend-place s bound key pre [] v p b tt in
      let r = insert_at-Inserted s bound pre [] v d.0 key value d.2 p b tt in
      record {
        list = r.list;
        answer = true;
        cells = pre ++ r.cell ∷ [];
        result =
            rw
              (
                d.1,
                forward-place s bound key pre [] v p b tt 0 (omega arith),
                footer-key s bound (pre ++ []) v,
                bound_ne s.is_forward key bound p,
                r.result,
              )
              refl;
        direction = r.direction;
        inv = r.inv;
        spec = put_between [] r.cell r.holds_key r.holds_value refl;
      }

  module _ (c : Cell) (post : List Cell) (v : Inv s bound (pre ++ c ∷ post))
      (a : AllAfter s.is_forward key (c ∷ post)) where
    -- The node that `insert` looks at.
    at_cell :
        let u = (descend-place s bound key pre (c ∷ post) v p b a).0 in
        insert key value update s
        ≡ (if eqb_ℤ c.key key then insert_over c.addr value update s else insert_at u key value s)
    unfolding insert
    at_cell =
        rw
          (
            (descend-place s bound key pre (c ∷ post) v p b a).1,
            forward-place s bound key pre (c ∷ post) v p b a 0 (omega arith),
            first-zero s.footer c post,
            cell-key s.memory c (All-parts (Holds s.memory) pre (c ∷ post) v.holds).1.0,
          )
          refl

    between : eqb_ℤ c.key key ≡ false → Done s bound (entries (pre ++ c ∷ post)) key value update
    unfolding put_entry
    between e =
        let d = descend-place s bound key pre (c ∷ post) v p b a in
        let o =
          behind_all s.is_forward key c post a (Sorted-rest s.is_forward pre (c ∷ post) v.sorted)
            e in
        let r = insert_at-Inserted s bound pre (c ∷ post) v d.0 key value d.2 p b o in
        record {
          list = r.list;
          answer = true;
          cells = pre ++ r.cell ∷ c ∷ post;
          result = at_cell ∙ rw (e, r.result) refl;
          direction = r.direction;
          inv = r.inv;
          spec = put_between (c ∷ post) r.cell r.holds_key r.holds_value (rw (a.0, e) refl);
        }

    over_lem :
        eqb_ℤ c.key key ≡ true
        → put_entry s.is_forward key value update (entries (pre ++ c ∷ post))
          ≡ (entries (pre ++ set_cell (if update then value else c.value) c ∷ post), update)
    unfolding put_entry
    over_lem e =
        ap (λ l. put_entry s.is_forward key value update l) (entries-append pre (c ∷ post))
        ∙ put_entry-before s.is_forward key value update pre (entries (c ∷ post)) b
        ∙ rw (a.0, e)
            (after-append (entries pre) ((c.key, if update then value else c.value) ∷ entries post)
              update)
        ∙ ap (λ l. (l, update))
            (sym (entries-append pre (set_cell (if update then value else c.value) c ∷ post)))

    over : eqb_ℤ c.key key ≡ true → Done s bound (entries (pre ++ c ∷ post)) key value update
    unfolding insert_over
    over e = elim (Bool-cases update) [
      | inl y ↦ record {
        list = changed s bound pre c post v value;
        answer = true;
        cells = pre ++ set_cell value c ∷ post;
        result = at_cell ∙ rw (e, y, value_set s bound pre c post v value) refl;
        direction = refl;
        inv = changed-Inv s bound pre c post v value;
        spec = over_lem e ∙ rw y refl;
      }
      | inr y ↦ record {
        list = s;
        answer = false;
        cells = pre ++ c ∷ post;
        result = at_cell ∙ rw (e, y) refl;
        direction = refl;
        inv = v;
        spec = over_lem e ∙ rw y refl;
      }
    ]

  at_place :
      (post : List Cell)
      → Inv s bound (pre ++ post)
      → AllAfter s.is_forward key post
      → Done s bound (entries (pre ++ post)) key value update
  at_place [] v a = at_end v
  at_place (c ∷ post) v a = elim (Bool-cases (eqb_ℤ c.key key)) [
    | inl e ↦ over c post v a e
    | inr e ↦ between c post v a e
  ]

-- In a list in order, inserting a key before the footer's key returns; the list is in order
-- afterwards, and its entries and the answer are those of a sorted list of entries in which the key
-- was put in its place, or given the value where it was there and that was asked for.
pub insert-put_entry :
    (s : SkipList) (bound key value : ℤ) (update : Bool) (cs : List Cell)
    → Inv s bound cs
    → precedes s.is_forward key bound ≡ true
    → Done s bound (entries cs) key value update
insert-put_entry s bound key value update cs v p =
    let q = position s.is_forward key cs v.sorted in
    subst (λ l. Done s bound (entries l) key value update) (sym q.whole)
      (at_place s bound key value update q.pre p q.before q.post (subst (Inv s bound) q.whole v)
        q.after)
