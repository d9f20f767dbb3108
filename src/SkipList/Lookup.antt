-- ===== src/SkipList/Lookup.antt =====
-- moxt/skiplist/skiplist.hpp and moxt/libskiplist.cpp: `search`.
use moxt_cpp.SkipList.{SkipList, precedes, search}
use moxt_cpp.SkipList.Cells.{Cell, addrs}
use moxt_cpp.SkipList.Order.{
  AllBefore, AllAfter, Sorted, position, precedes_other, precedes_trans, precedes_ne,
}
use moxt_cpp.SkipList.Invariant.{Inv, Holds, All-parts}
use moxt_cpp.SkipList.Place.{
  descend_only-place, forward-place, footer-key, cell-key, cell-value, first-zero,
}
use moxt_cpp.SkipList.Spec.{entries, value_of, value_of-before, value_of-behind, entries-append}
use moxt_cpp.SkipList.Calls.{seq_skiplist_search, or_fixed12_zero}
use mathlib.Core.Path.{subst}
use moxt_cpp.Prelude.{
  ◌≡◌, refl, sym, Bool, true, false, List, [], ◌∷◌, ◌++◌, All, arith, inl, inr, Bool-cases,
}
use moxt_cpp.Prelude.Int.{ℤ, eqb_ℤ}
use moxt_cpp.Prelude.Outcome.{ok}

module _ (fwd : Bool) (key : ℤ) where
  pub bound_ne : (bound : ℤ) → precedes fwd key bound ≡ true → eqb_ℤ bound key ≡ false
  bound_ne bound h = ground (arith, precedes_ne fwd key bound h)

  behind_rest :
      (k : ℤ) (cs : List Cell)
      → precedes fwd key k ≡ true
      → All (λ d. precedes fwd k d.key ≡ true) cs
      → All (λ d. precedes fwd key d.key ≡ true) cs
  behind_rest k [] p h = tt
  behind_rest k (c ∷ cs) p (h, hs) = (precedes_trans fwd key k c.key p h, behind_rest k cs p hs)

  -- Where the first key that is not before `key` is another one, all are behind it.
  pub behind_all :
      (c : Cell) (post : List Cell)
      → AllAfter fwd key (c ∷ post)
      → Sorted fwd (c ∷ post)
      → eqb_ℤ c.key key ≡ false
      → All (λ d. precedes fwd key d.key ≡ true) (c ∷ post)
  behind_all c post (a, _) (h, _) n =
      let p = precedes_other fwd c.key key a n in (p, behind_rest c.key post p h)

  -- What follows the first key.
  pub behind_first :
      (c : Cell) (post : List Cell)
      → Sorted fwd (c ∷ post)
      → c.key ≡ key
      → All (λ d. precedes fwd key d.key ≡ true) post
  behind_first c post (h, _) e = subst (λ k. All (λ d. precedes fwd k d.key ≡ true) post) e h

pub Sorted-rest : (fwd : Bool) (a b : List Cell) → Sorted fwd (a ++ b) → Sorted fwd b
Sorted-rest fwd [] b h = h
Sorted-rest fwd (c ∷ a) b (_, h) = Sorted-rest fwd a b h

module _ (s : SkipList) (bound key : ℤ) (pre : List Cell)
    (p : precedes s.is_forward key bound ≡ true) (b : AllBefore s.is_forward key pre) where
  -- The search ends on the footer, on the node of the key, or on a later node.
  at_footer :
      Inv s bound (pre ++ [])
      → seq_skiplist_search s key ≡ ok (or_fixed12_zero (value_of key (entries (pre ++ []))))
  unfolding seq_skiplist_search search value_of addrs
  at_footer v =
      rw
        (
          descend_only-place s bound key pre [] v p b tt,
          forward-place s bound key pre [] v p b tt 0 (omega arith),
          footer-key s bound (pre ++ []) v,
          bound_ne s.is_forward key bound p,
          entries-append pre [],
          value_of-before s.is_forward key pre [] b,
        )
        refl

  at_node :
      (c : Cell) (post : List Cell)
      → Inv s bound (pre ++ c ∷ post)
      → AllAfter s.is_forward key (c ∷ post)
      → seq_skiplist_search s key ≡ ok (or_fixed12_zero (value_of key (entries (pre ++ c ∷ post))))
  unfolding seq_skiplist_search search value_of
  at_node c post v a =
      let h = (All-parts (Holds s.memory) pre (c ∷ post) v.holds).1.0 in
      rw
        (
          descend_only-place s bound key pre (c ∷ post) v p b a,
          forward-place s bound key pre (c ∷ post) v p b a 0 (omega arith),
          first-zero s.footer c post,
          cell-key s.memory c h,
          entries-append pre (c ∷ post),
          value_of-before s.is_forward key pre (entries (c ∷ post)) b,
        )
        (elim (Bool-cases (eqb_ℤ c.key key)) [
          | inl e ↦ rw (e, cell-value s.memory c h) refl
          | inr e ↦
              let o =
                behind_all s.is_forward key c post a
                  (Sorted-rest s.is_forward pre (c ∷ post) v.sorted) e in
              rw (e, value_of-behind s.is_forward key post o.1) refl
        ])

  at_place :
      (post : List Cell)
      → Inv s bound (pre ++ post)
      → AllAfter s.is_forward key post
      → seq_skiplist_search s key ≡ ok (or_fixed12_zero (value_of key (entries (pre ++ post))))
  at_place [] v a = at_footer v
  at_place (c ∷ post) v a = at_node c post v a

-- In a list in order, the search of a key before the footer's key returns, with the value that the
-- list holds for the key, or 0 if it holds none.
pub seq_skiplist_search-value_of :
    (s : SkipList) (bound key : ℤ) (cs : List Cell)
    → Inv s bound cs
    → precedes s.is_forward key bound ≡ true
    → seq_skiplist_search s key ≡ ok (or_fixed12_zero (value_of key (entries cs)))
seq_skiplist_search-value_of s bound key cs v p =
    let q = position s.is_forward key cs v.sorted in
    subst (λ l. seq_skiplist_search s key ≡ ok (or_fixed12_zero (value_of key (entries l))))
      (sym q.whole)
      (at_place s bound key q.pre p q.before q.post (subst (Inv s bound) q.whole v) q.after)
