-- ===== src/SkipList/Top.antt =====
-- moxt/skiplist/skiplist.hpp: `topN`.
use moxt_cpp.SkipList.{SkipList, top_from, top_n, max_level, bare_node}
use moxt_cpp.SkipList.Heap.{Memory, get_key, get_value}
use moxt_cpp.SkipList.Chain.{Chain, Avoids}
use moxt_cpp.SkipList.Cells.{Cell, addresses, addrs-zero}
use moxt_cpp.SkipList.Walk.{column, Slot, get_forward-Slot}
use moxt_cpp.SkipList.Invariant.{Inv, Holds, Fits}
use moxt_cpp.SkipList.Place.{cell-key, cell-value}
use moxt_cpp.SkipList.Spec.{Entries, entries}
use mathlib.Core.Path.{subst}
use moxt_cpp.Prelude.{
  ◌≡◌, refl, ◌∙◌, ap, ℕ, zero, suc, ◌<◌, Bool, true, false, some, List, [], ◌∷◌, All, length, take,
  ◌==◌, arith,
}
use moxt_cpp.Prelude.Int.{ℤ, pos, pos_part}
use moxt_cpp.Prelude.Outcome.{Outcome, ok, ◌>>=◌}

cell-Slot : (m : Memory) (level : ℕ) (c : Cell) → Holds m c → Fits level c → Slot m 0 c.addr
cell-Slot m level c h f = (_, h, ground arith)

module _ (m : Memory) (footer level : ℕ) where
  next_node : ℕ → ℕ → ℕ → Bool → Outcome Entries
  next_node fuel n next b = elim b as (λ b. Outcome Entries) [
    | true ↦ ok []
    | false ↦ do
      key ← get_key next m
      value ← get_value next m
      rest ← top_from fuel n footer next m
      ok ((key, value) ∷ rest)
  ]

  one_more :
      (fuel n x y : ℕ)
      → Slot m 0 x
      → column m 0 x ≡ some y
      → top_from (suc fuel) (suc n) footer x m ≡ next_node fuel n y (y == footer)
  unfolding top_from next_node
  one_more fuel n x y s c = rw (get_forward-Slot m 0 x y s c) refl

  -- The loop takes the entries from the node on.
  pub top_from-take :
      (fuel n x : ℕ) (cs : List Cell)
      → Chain (column m 0) x (addresses cs) footer
      → Slot m 0 x
      → All (Holds m) cs
      → All (Fits level) cs
      → Avoids footer (addresses cs)
      → length cs < fuel
      → top_from fuel n footer x m ≡ ok (take n (entries cs))
  unfolding top_from next_node
  top_from-take zero n x cs _ _ _ _ _ l = absurd (omega arith)
  top_from-take (suc fuel) zero x [] h s _ _ _ _ = rw (get_forward-Slot m 0 x footer s h) refl
  top_from-take (suc fuel) zero x (c ∷ cs) (h, _) s _ _ _ _ =
      rw (get_forward-Slot m 0 x c.addr s h) refl
  top_from-take (suc fuel) (suc n) x [] h s _ _ _ _ =
      let e : (footer == footer) ≡ true = ground arith in
      one_more fuel n x footer s h ∙ ap (next_node fuel n footer) e
  top_from-take (suc fuel) (suc n) x (c ∷ cs) (h, hs) s (o, os) (f, fs) (a, as') l =
      let e : (c.addr == footer) ≡ false = ground (arith, a) in
      one_more fuel n x c.addr s h
      ∙ ap (next_node fuel n c.addr) e
      ∙ rw
          (
            cell-key m c o,
            cell-value m c o,
            top_from-take fuel n c.addr cs hs (cell-Slot m level c o f) os fs as' (omega arith),
          )
          refl

-- In a list in order, `topN` returns the first `n` entries in the order of the keys, all of them if
-- there are fewer, and none if `n` is negative.
pub top_n-take :
    (s : SkipList) (bound : ℤ) (cs : List Cell) (n : ℤ)
    → Inv s bound cs
    → top_n n s ≡ ok (take (pos_part n) (entries cs))
unfolding top_n
top_n-take s bound cs n v =
    top_from-take s.memory s.footer s.level (suc s.node_count) (pos_part n) s.header cs
      (subst (λ l. Chain (column s.memory 0) s.header l s.footer) (addrs-zero cs)
        (v.chains 0 (omega arith)))
      (bare_node max_level (pos 0), v.header_node, omega arith) v.holds v.heights v.unique.0.1
      (omega (arith, v.count))
