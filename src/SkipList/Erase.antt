-- ===== src/SkipList/Erase.antt =====
-- moxt/skiplist/skiplist.hpp and moxt/libskiplist.cpp: `remove`, of a key that is there and of one
-- that is not.
use mathlib.Core.Path.{subst}
use moxt_cpp.SkipList.{SkipList, precedes, remove, remove_node}
use moxt_cpp.SkipList.Cells.{Cell, addrs}
use moxt_cpp.SkipList.Order.{AllBefore, AllAfter, position}
use moxt_cpp.SkipList.Invariant.{Inv, Holds, All-parts}
use moxt_cpp.SkipList.Remove.{remove_node-Removed}
use moxt_cpp.SkipList.Place.{
  descend-place, forward-place, Slot-place, footer-key, cell-key, first-zero,
}
use moxt_cpp.SkipList.Spec.{
  Entries, entries, value_of, drop_entry, value_of-before, value_of-behind, drop_entry-before,
  drop_entry-behind, entries-append,
}
use moxt_cpp.SkipList.Lookup.{bound_ne, behind_all, Sorted-rest}
use moxt_cpp.Prelude.{
  ◌≡◌, refl, sym, ◌∙◌, ap, true, false, none, List, [], ◌∷◌, ◌++◌, arith, inl, inr, Bool-cases,
  if◌then◌else◌,
}
use moxt_cpp.Prelude.Int.{ℤ, eqb_ℤ}
use moxt_cpp.Prelude.Outcome.{ok}

-- What `remove` leaves behind, with the value that it found.
pub record Erased (s : SkipList) (bound : ℤ) (es : Entries) (key : ℤ) : Type 0 where
  pub list : SkipList
  pub cells : List Cell
  pub result : remove key s ≡ ok (list, value_of key es)
  pub direction : list.is_forward ≡ s.is_forward
  pub inv : Inv list bound cells
  pub spec : entries cells ≡ drop_entry key es

module _ (s : SkipList) (bound key : ℤ) (pre : List Cell)
    (p : precedes s.is_forward key bound ≡ true) (b : AllBefore s.is_forward key pre) where
  values : (post : List Cell) → value_of key (entries (pre ++ post)) ≡ value_of key (entries post)
  values post =
      ap (value_of key) (entries-append pre post)
      ∙ value_of-before s.is_forward key pre (entries post) b

  drops :
      (post rest : List Cell)
      → drop_entry key (entries post) ≡ entries rest
      → entries (pre ++ rest) ≡ drop_entry key (entries (pre ++ post))
  drops post rest e =
      entries-append pre rest
      ∙ ap (λ l. entries pre ++ l) (sym e)
      ∙ sym (
          ap (drop_entry key) (entries-append pre post)
          ∙ drop_entry-before s.is_forward key pre (entries post) b)

  at_end : Inv s bound (pre ++ []) → Erased s bound (entries (pre ++ [])) key
  unfolding remove value_of drop_entry addrs
  at_end v = record {
    list = s;
    cells = pre ++ [];
    result =
        rw
          (
            (descend-place s bound key pre [] v p b tt).1,
            forward-place s bound key pre [] v p b tt 0 (omega arith),
            footer-key s bound (pre ++ []) v,
            bound_ne s.is_forward key bound p,
            values [],
          )
          refl;
    direction = refl;
    inv = v;
    spec = drops [] [] refl;
  }

  module _ (c : Cell) (post : List Cell) (v : Inv s bound (pre ++ c ∷ post))
      (a : AllAfter s.is_forward key (c ∷ post)) where
    at_cell :
        let u = (descend-place s bound key pre (c ∷ post) v p b a).0 in
        remove key s ≡ (if eqb_ℤ c.key key then remove_node c.addr u s else ok (s, none))
    unfolding remove
    at_cell =
        rw
          (
            (descend-place s bound key pre (c ∷ post) v p b a).1,
            forward-place s bound key pre (c ∷ post) v p b a 0 (omega arith),
            first-zero s.footer c post,
            cell-key s.memory c (All-parts (Holds s.memory) pre (c ∷ post) v.holds).1.0,
          )
          refl

    missing : eqb_ℤ c.key key ≡ false → Erased s bound (entries (pre ++ c ∷ post)) key
    missing e =
        let o =
          behind_all s.is_forward key c post a (Sorted-rest s.is_forward pre (c ∷ post) v.sorted)
            e in
        record {
          list = s;
          cells = pre ++ c ∷ post;
          result =
              at_cell
              ∙ rw (e, values (c ∷ post), value_of-behind s.is_forward key (c ∷ post) o) refl;
          direction = refl;
          inv = v;
          spec = drops (c ∷ post) (c ∷ post) (drop_entry-behind s.is_forward key (c ∷ post) o);
        }

    there : eqb_ℤ c.key key ≡ true → Erased s bound (entries (pre ++ c ∷ post)) key
    unfolding value_of drop_entry
    there e =
        let d = descend-place s bound key pre (c ∷ post) v p b a in
        let r =
          remove_node-Removed s bound pre c post v d.0 d.2
            (Slot-place s bound key pre (c ∷ post) v p b a) in
        record {
          list = r.list;
          cells = pre ++ post;
          result = at_cell ∙ rw (e, r.result, values (c ∷ post), e) refl;
          direction = r.direction;
          inv = r.inv;
          spec = drops (c ∷ post) post (rw e refl);
        }

  at_place :
      (post : List Cell)
      → Inv s bound (pre ++ post)
      → AllAfter s.is_forward key post
      → Erased s bound (entries (pre ++ post)) key
  at_place [] v a = at_end v
  at_place (c ∷ post) v a = elim (Bool-cases (eqb_ℤ c.key key)) [
    | inl e ↦ there c post v a e
    | inr e ↦ missing c post v a e
  ]

-- In a list in order, removing a key before the footer's key returns, with the value that the list
-- holds for the key, if any; the list is in order afterwards, and holds the other entries.
pub remove-drop_entry :
    (s : SkipList) (bound key : ℤ) (cs : List Cell)
    → Inv s bound cs
    → precedes s.is_forward key bound ≡ true
    → Erased s bound (entries cs) key
remove-drop_entry s bound key cs v p =
    let q = position s.is_forward key cs v.sorted in
    subst (λ l. Erased s bound (entries l) key) (sym q.whole)
      (at_place s bound key q.pre p q.before q.post (subst (Inv s bound) q.whole v) q.after)
