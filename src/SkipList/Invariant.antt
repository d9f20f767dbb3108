-- ===== src/SkipList/Invariant.antt =====
-- moxt/skiplist/skiplist.hpp: what is true of a list between calls.
use moxt_cpp.SkipList.{SkipList, rounds, precedes, max_level, bare_node, key_node}
use moxt_cpp.SkipList.Heap.{Memory, load, get_key}
use moxt_cpp.SkipList.Chain.{Chain, first_or, Avoids, Unique}
use moxt_cpp.SkipList.Cells.{Cell, addrs, addresses, addrs-append, All-addrs, length-addrs}
use moxt_cpp.SkipList.Walk.{column, Slot, Placed, Ready}
use moxt_cpp.SkipList.Order.{AllBefore, AllAfter, Sorted, precedes_back}
use mathlib.Core.Path.{subst}
use moxt_cpp.Prelude.{
  ◌≡◌, refl, ℕ, ◌≤◌, ◌<◌, Bool, true, false, none, some, List, [], ◌∷◌, ◌++◌, All, length,
  length-append, arith,
}
use moxt_cpp.Prelude.Int.{ℤ, pos}

abbrev pub Holds : Memory → Cell → Type 0
Holds m c = m.nodes c.addr ≡ some (key_node c.height c.key c.value)

abbrev pub Fits : ℕ → Cell → Type 0
Fits level c = (1 ≤ c.height) × (c.height ≤ level)

-- The list's nodes in order are `cs`, and `bound` is the key of its footer.
pub record Inv (s : SkipList) (bound : ℤ) (cs : List Cell) : Type 0 where
  pub header_node : s.memory.nodes s.header ≡ some (bare_node max_level (pos 0))
  pub footer_node : s.memory.nodes s.footer ≡ some (bare_node 0 bound)
  pub holds : All (Holds s.memory) cs
  pub chains : (i : ℕ) → i < max_level → Chain (column s.memory i) s.header (addrs i cs) s.footer
  pub unique : Unique (s.footer ∷ s.header ∷ addresses cs)
  pub given : All (λ a. a < s.memory.next_address) (s.footer ∷ s.header ∷ addresses cs)
  pub owned : (a : ℕ) → Avoids a (s.footer ∷ s.header ∷ addresses cs) → s.memory.nodes a ≡ none
  pub heights : All (Fits s.level) cs
  pub level : s.level < max_level
  pub sorted : Sorted s.is_forward cs
  pub bounded : All (λ c. precedes s.is_forward c.key bound ≡ true) cs
  pub count : s.node_count ≡ length cs

module _ {A : Type 0} where
  pub All-map : (P Q : A → Type 0) (f : (a : A) → P a → Q a) (cs : List A) → All P cs → All Q cs
  All-map P Q f [] _ = tt
  All-map P Q f (c ∷ cs) (p, ps) = (f c p, All-map P Q f cs ps)

  pub All-map₂ :
      (P Q R : A → Type 0) (f : (a : A) → P a → Q a → R a) (cs : List A)
      → All P cs
      → All Q cs
      → All R cs
  All-map₂ P Q R f [] _ _ = tt
  All-map₂ P Q R f (c ∷ cs) (p, ps) (q, qs) = (f c p q, All-map₂ P Q R f cs ps qs)

pub first_or-All : (P : ℕ → Type 0) (f : ℕ) (cs : List ℕ) → P f → All P cs → P (first_or f cs)
first_or-All P f [] p h = p
first_or-All P f (c ∷ cs) p (h, _) = h

-- The first part and the rest of a list of which something holds.
pub All-parts : {A : Type 0} (P : A → Type 0) (a b : List A) → All P (a ++ b) → All P a × All P b
All-parts P [] b h = (tt, h)
All-parts P (c ∷ a) b (h, hs) = let r = All-parts P a b hs in ((h, r.0), r.1)

Slot-of :
    (m : Memory) (level i : ℕ) (c : Cell)
    → Holds m c
    → Fits level c
    → i ≤ c.height
    → Slot m i c.addr
Slot-of m level i c h f k = (key_node c.height c.key c.value, h, ground arith)

pub placed :
    (m : Memory) (fwd : Bool) (t : ℤ) (b : Bool) (c : Cell)
    → Holds m c
    → precedes fwd c.key t ≡ b
    → Placed m fwd t b c.addr
unfolding get_key load
placed m fwd t b c h p = (c.key, rw h refl, p)

module _ (s : SkipList) (bound t : ℤ) (pre post : List Cell) (v : Inv s bound (pre ++ post)) where
  pub slots_of :
      (i : ℕ) (cs : List Cell)
      → All (Holds s.memory) cs
      → All (Fits s.level) cs
      → All (Slot s.memory i) (addrs i cs)
  slots_of i cs h f = All-addrs (Slot s.memory i) i cs (
      All-map₂ (Holds s.memory) (Fits s.level) (λ c. i ≤ c.height → Slot s.memory i c.addr)
        (Slot-of s.memory s.level i) cs h f)

  pub placed_of :
      (b : Bool) (i : ℕ) (cs : List Cell)
      → All (Holds s.memory) cs
      → All (λ c. precedes s.is_forward c.key t ≡ b) cs
      → All (Placed s.memory s.is_forward t b) (addrs i cs)
  placed_of b i cs h f = All-addrs (Placed s.memory s.is_forward t b) i cs (
      All-map₂ (Holds s.memory) (λ c. precedes s.is_forward c.key t ≡ b)
        (λ c. i ≤ c.height → Placed s.memory s.is_forward t b c.addr)
        (λ c p q _. placed s.memory s.is_forward t b c p q) cs h f)

  footer_placed :
      precedes s.is_forward t bound ≡ true → Placed s.memory s.is_forward t false s.footer
  unfolding get_key load
  footer_placed p = (bound, rw v.footer_node refl, precedes_back s.is_forward t bound p)

  -- The loops over the levels find the place of a key before the bound.
  pub Inv-Ready :
      precedes s.is_forward t bound ≡ true
      → AllBefore s.is_forward t pre
      → AllAfter s.is_forward t post
      → Ready s.memory s.is_forward t s.header s.footer (rounds s) pre post
  Inv-Ready p b a =
      let h = All-parts (Holds s.memory) pre post v.holds in
      record {
        chains = λ i l.
            subst (λ cs. Chain (column s.memory i) s.header cs s.footer) (addrs-append i pre post)
              (v.chains i l);
        slots = λ i l. (
          (bare_node max_level (pos 0), v.header_node, omega arith),
          subst (All (Slot s.memory i)) (addrs-append i pre post)
              (slots_of i (pre ++ post) v.holds v.heights),
        );
        before = λ i. placed_of true i pre h.0 b;
        after = λ i.
            first_or-All (Placed s.memory s.is_forward t false) s.footer (addrs i post)
              (footer_placed p) (placed_of false i post h.1 a);
        enough = λ i. omega (arith, v.count, length-append pre post, length-addrs i pre);
      }
