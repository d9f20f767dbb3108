-- ===== src/SkipList/Place.antt =====
-- moxt/skiplist/skiplist.hpp: the node that the loops of `search`, `insert` and `remove` lead to.
use moxt_cpp.SkipList.{
  SkipList, rounds, precedes, max_level, Update, no_update, descend, descend_only,
}
use moxt_cpp.SkipList.Heap.{Memory, get_forward, get_key, get_value, load}
use moxt_cpp.SkipList.Chain.{last, first_or, Chain-first, Chain-suffix}
use moxt_cpp.SkipList.Cells.{Cell, addrs, addrs_none, All-last}
use moxt_cpp.SkipList.Walk.{column, Slot, Ready, get_forward-Slot, descend-last, descend_only-last}
use moxt_cpp.SkipList.Order.{AllBefore, AllAfter}
use moxt_cpp.SkipList.Invariant.{Inv, Fits, Holds, All-map, All-parts, Inv-Ready}
use moxt_cpp.Prelude.{
  ◌≡◌, refl, sym, ◌∙◌, ap, ℕ, suc, ◌≤◌, ◌<◌, true, List, ◌∷◌, ◌++◌, arith, some, leb,
}
use moxt_cpp.Prelude.Int.{ℤ}
use moxt_cpp.Prelude.Outcome.{ok}

module _ (s : SkipList) (bound t : ℤ) (pre post : List Cell) (v : Inv s bound (pre ++ post)) where
  -- The levels above the list's level link no node.
  pub above_all : last s.header (addrs (suc s.level) pre) ≡ s.header
  above_all =
      let h = (All-parts (Fits s.level) pre post v.heights).0 in
      ap (last s.header) (
        addrs_none (suc s.level) pre
          (All-map (Fits s.level) (λ c. c.height < suc s.level) (λ c f. omega (arith, f.1)) pre h))

  module _ (p : precedes s.is_forward t bound ≡ true) (b : AllBefore s.is_forward t pre)
      (a : AllAfter s.is_forward t post) where
    ready : Ready s.memory s.is_forward t s.header s.footer (rounds s) pre post
    ready = Inv-Ready s bound t pre post v p b a

    pub descend-place :
        (u : Update) × (descend (rounds s) s.is_forward s.level s.header t s.memory no_update
          ≡ ok (last s.header (addrs 0 pre), u))
        × ((j : ℕ) → j ≤ s.level → u j ≡ some (last s.header (addrs j pre)))
    descend-place =
        let r =
          descend-last s.memory s.is_forward t s.header s.footer (rounds s) pre post ready s.level
            no_update v.level in
        (
          r.0,
          ap (λ x. descend (rounds s) s.is_forward s.level x t s.memory no_update) (sym above_all)
              ∙ r.1,
          r.2.noted,
        )

    pub descend_only-place :
        descend_only (rounds s) s.is_forward s.level s.header t s.memory
        ≡ ok (last s.header (addrs 0 pre))
    descend_only-place =
        ap (λ x. descend_only (rounds s) s.is_forward s.level x t s.memory) (sym above_all)
        ∙ descend_only-last s.memory s.is_forward t s.header s.footer (rounds s) pre post ready
            s.level v.level

    pub column-place :
        (i : ℕ)
        → i < max_level
        → column s.memory i (last s.header (addrs i pre)) ≡ some (first_or s.footer (addrs i post))
    column-place i h =
        Chain-first (column s.memory i) (last s.header (addrs i pre)) s.footer (addrs i post) (
          Chain-suffix (column s.memory i) s.header s.footer (addrs i pre) (addrs i post)
            (ready.chains i h))

    pub Slot-place : (i : ℕ) → i < max_level → Slot s.memory i (last s.header (addrs i pre))
    Slot-place i h =
        (All-last (Slot s.memory i) s.header (addrs i pre) (addrs i post) (ready.slots i h)).0

    pub forward-place :
        (i : ℕ)
        → i < max_level
        → get_forward (last s.header (addrs i pre)) i s.memory
          ≡ ok (first_or s.footer (addrs i post))
    forward-place i h =
        get_forward-Slot s.memory i (last s.header (addrs i pre)) (first_or s.footer (addrs i post))
          (Slot-place i h) (column-place i h)

pub footer-key :
    (s : SkipList) (bound : ℤ) (cs : List Cell)
    → Inv s bound cs
    → get_key s.footer s.memory ≡ ok bound
unfolding get_key load
footer-key s bound cs v = rw (v.footer_node) refl

pub cell-key : (m : Memory) (c : Cell) → Holds m c → get_key c.addr m ≡ ok c.key
unfolding get_key load
cell-key m c h = rw h refl

pub cell-value : (m : Memory) (c : Cell) → Holds m c → get_value c.addr m ≡ ok c.value
unfolding get_value load
cell-value m c h = rw h refl

pub first-zero : (f : ℕ) (c : Cell) (cs : List Cell) → first_or f (addrs 0 (c ∷ cs)) ≡ c.addr
unfolding addrs
first-zero f c cs = let e : leb 0 c.height ≡ true = ground arith in rw e refl
