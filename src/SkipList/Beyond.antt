-- ===== src/SkipList/Beyond.antt =====
-- moxt/skiplist/skiplist.hpp: a key behind the footer's key.
use moxt_cpp.SkipList.{
  SkipList, rounds, precedes, walk, descend, descend_only, search, insert, remove, no_update,
  max_level, bare_node,
}
use moxt_cpp.SkipList.Heap.{Memory, get_forward, load, get_key}
use moxt_cpp.SkipList.Chain.{Chain}
use moxt_cpp.SkipList.Cells.{Cell, addrs, length-addrs}
use moxt_cpp.SkipList.Walk.{column, Slot, Placed, step_on}
use moxt_cpp.SkipList.Order.{AllBefore, precedes_trans}
use moxt_cpp.SkipList.Invariant.{Inv, Fits, slots_of, placed_of}
use mathlib.Core.Path.{subst}
use moxt_cpp.Prelude.{
  ◌≡◌, refl, sym, ◌∙◌, ℕ, zero, suc, ◌-◌, ◌<◌, Bool, true, false, some, List, [], ◌∷◌, All, length,
  ltb, arith,
}
use moxt_cpp.Prelude.Int.{ℤ, pos}
use moxt_cpp.Prelude.Outcome.{fault, bad_index}

module _ (m : Memory) (fwd : Bool) (t : ℤ) (footer : ℕ) (i : ℕ) where
  -- The footer has no pointer above level 0.
  at_footer :
      (fuel : ℕ) (b : ℤ)
      → m.nodes footer ≡ some (bare_node 0 b)
      → 0 < i
      → walk (suc fuel) fwd i footer t m ≡ fault bad_index
  unfolding walk get_forward load
  at_footer fuel b e h = let l : ltb i 1 ≡ false = ground arith in rw (e, l) refl

  walk_beyond :
      (fuel x : ℕ) (cs : List ℕ) (b : ℤ)
      → Chain (column m i) x cs footer
      → All (Slot m i) (x ∷ cs)
      → All (Placed m fwd t true) cs
      → Placed m fwd t true footer
      → m.nodes footer ≡ some (bare_node 0 b)
      → 0 < i
      → suc (length cs) < fuel
      → walk fuel fwd i x t m ≡ fault bad_index
  walk_beyond zero x cs b h s o f n p l = absurd (omega arith)
  walk_beyond (suc zero) x cs b h s o f n p l = absurd (omega arith)
  walk_beyond (suc (suc fuel)) x [] b h (s, _) o f n p l =
      step_on m fwd t footer (suc fuel) i x footer s h f ∙ at_footer fuel b n p
  walk_beyond (suc (suc fuel)) x (c ∷ cs) b (h, hs) (s, ss) (o, os) f n p l =
      step_on m fwd t footer (suc fuel) i x c s h o
      ∙ walk_beyond (suc fuel) c cs b hs ss os f n p (omega arith)

descend_from :
    (fuel : ℕ) (fwd : Bool) (i x : ℕ) (t : ℤ) (m : Memory)
    → walk fuel fwd (suc i) x t m ≡ fault bad_index
    → descend fuel fwd (suc i) x t m no_update ≡ fault bad_index
unfolding descend
descend_from fuel fwd i x t m h = rw h refl

descend_only_from :
    (fuel : ℕ) (fwd : Bool) (i x : ℕ) (t : ℤ) (m : Memory)
    → walk fuel fwd (suc i) x t m ≡ fault bad_index
    → descend_only fuel fwd (suc i) x t m ≡ fault bad_index
unfolding descend_only
descend_only_from fuel fwd i x t m h = rw h refl

module _ (s : SkipList) (bound t : ℤ) (cs : List Cell) (v : Inv s bound cs) (n : 0 < length cs)
    (b : precedes s.is_forward bound t ≡ true) where
  above_zero : (cs : List Cell) → All (Fits s.level) cs → 0 < length cs → 0 < s.level
  above_zero [] f h = absurd (omega arith)
  above_zero (c ∷ cs) (f, _) h = omega arith

  all_before :
      (cs : List Cell)
      → All (λ c. precedes s.is_forward c.key bound ≡ true) cs
      → AllBefore s.is_forward t cs
  all_before [] h = tt
  all_before (c ∷ cs) (h, hs) = (precedes_trans s.is_forward c.key bound t h b, all_before cs hs)

  footer_before : Placed s.memory s.is_forward t true s.footer
  unfolding get_key load
  footer_before = (bound, rw v.footer_node refl, b)

  walk_fault : walk (rounds s) s.is_forward s.level s.header t s.memory ≡ fault bad_index
  walk_fault =
      walk_beyond s.memory s.is_forward t s.footer s.level (rounds s) s.header (addrs s.level cs)
        bound (v.chains s.level v.level)
        (
          (bare_node max_level (pos 0), v.header_node, omega (arith, v.level)),
          slots_of s bound t [] cs v s.level cs v.holds v.heights,
        )
        (placed_of s bound t [] cs v true s.level cs v.holds (all_before cs v.bounded))
        footer_before v.footer_node (above_zero cs v.heights n)
        (omega (arith, v.count, length-addrs s.level cs))

  level_suc : (l : ℕ) × (s.level ≡ suc l)
  level_suc = (s.level - 1, omega (arith, above_zero cs v.heights n))

  descend_fault :
      descend (rounds s) s.is_forward s.level s.header t s.memory no_update ≡ fault bad_index
  descend_fault =
      subst (λ l. descend (rounds s) s.is_forward l s.header t s.memory no_update ≡ fault bad_index)
        (sym level_suc.1)
        (descend_from (rounds s) s.is_forward level_suc.0 s.header t s.memory (
          subst (λ l. walk (rounds s) s.is_forward l s.header t s.memory ≡ fault bad_index)
            level_suc.1 walk_fault))

  descend_only_fault :
      descend_only (rounds s) s.is_forward s.level s.header t s.memory ≡ fault bad_index
  descend_only_fault =
      subst (λ l. descend_only (rounds s) s.is_forward l s.header t s.memory ≡ fault bad_index)
        (sym level_suc.1)
        (descend_only_from (rounds s) s.is_forward level_suc.0 s.header t s.memory (
          subst (λ l. walk (rounds s) s.is_forward l s.header t s.memory ≡ fault bad_index)
            level_suc.1 walk_fault))

  -- In a list that holds a key, each of `search`, `insert` and `remove` for a key that lies behind
  -- the footer's key reads behind the footer's array of pointers.
  pub behind_footer :
      (search t s ≡ fault bad_index)
      × ((w : ℤ) (u : Bool) → insert t w u s ≡ fault bad_index)
      × (remove t s ≡ fault bad_index)
  unfolding search insert remove
  behind_footer = (rw descend_only_fault refl, λ w u. rw descend_fault refl, rw descend_fault refl)
