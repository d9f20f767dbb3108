-- ===== src/SkipList/Overwrite.antt =====
-- moxt/skiplist/skiplist.hpp: a value that is set for a key that is there.
use mathlib.Core.Path.{subst}
use moxt_cpp.SkipList.{SkipList, precedes, key_node}
use moxt_cpp.SkipList.Heap.{set_value, load}
use moxt_cpp.SkipList.Chain.{Chain, Avoids, Unique}
use moxt_cpp.SkipList.Cells.{Cell, addrs, addresses, addrs-append}
use moxt_cpp.SkipList.Order.{Sorted}
use moxt_cpp.SkipList.Walk.{column}
use moxt_cpp.SkipList.Invariant.{Inv, Holds, Fits}
use moxt_cpp.SkipList.Splice.{
  All-insert, All-drop, addresses-append, length-insert, cell_apart, cell_here,
}
use moxt_cpp.Prelude.{◌≡◌, refl, sym, ◌∙◌, ◌≢◌, ℕ, ◌<◌, Bool, true, some, List, [], ◌∷◌, ◌++◌, All}
use moxt_cpp.Prelude.Int.{ℤ}
use moxt_cpp.Prelude.Outcome.{ok}
use moxt_cpp.Prelude.Put.{put, put_here, put_there}

abbrev pub set_cell : ℤ → Cell → Cell
set_cell value c = record c { value = value }

Sorted-set :
    (fwd : Bool) (value : ℤ) (c : Cell) (a b : List Cell)
    → Sorted fwd (a ++ c ∷ b)
    → Sorted fwd (a ++ set_cell value c ∷ b)
Sorted-set fwd value c [] b h = h
Sorted-set fwd value c (x ∷ a) b (h, hs) =
    let d = All-drop (λ d. precedes fwd x.key d.key ≡ true) c a b h in
    (
      All-insert (λ d. precedes fwd x.key d.key ≡ true) (set_cell value c) a b d.0 d.1,
      Sorted-set fwd value c a b hs,
    )

module _ (s : SkipList) (bound : ℤ) (pre : List Cell) (c : Cell) (post : List Cell)
    (v : Inv s bound (pre ++ c ∷ post)) (value : ℤ) where
  abbrev pub changed : SkipList
  changed = record s {
    memory = record s.memory {
      nodes = put c.addr (some (key_node c.height c.key value)) s.memory.nodes;
    };
  }

  pub value_set : set_value c.addr value s.memory ≡ ok changed.memory
  unfolding set_value load
  value_set = rw (cell_here s bound pre c post v) refl

  same_addresses : addresses (pre ++ set_cell value c ∷ post) ≡ addresses (pre ++ c ∷ post)
  same_addresses =
      addresses-append pre (set_cell value c ∷ post) ∙ sym (addresses-append pre (c ∷ post))

  same_addrs : (i : ℕ) → addrs i (pre ++ set_cell value c ∷ post) ≡ addrs i (pre ++ c ∷ post)
  unfolding addrs
  same_addrs i = addrs-append i pre (set_cell value c ∷ post) ∙ sym (addrs-append i pre (c ∷ post))

  other_node : (a : ℕ) → c.addr ≢ a → changed.memory.nodes a ≡ s.memory.nodes a
  other_node a n = put_there c.addr a (some (key_node c.height c.key value)) s.memory.nodes n

  others :
      (cs : List Cell)
      → Avoids c.addr (addresses cs)
      → All (Holds s.memory) cs
      → All (Holds changed.memory) cs
  others [] _ _ = tt
  others (d ∷ cs) (n, ns) (h, hs) = (other_node d.addr n ∙ h, others cs ns hs)

  apart : Avoids c.addr (s.footer ∷ s.header ∷ addresses (pre ++ post))
  apart = cell_apart s bound pre c post v

  all_but :
      (a : ℕ)
      → Avoids a (s.footer ∷ s.header ∷ addresses (pre ++ c ∷ post))
      → (a ≢ c.addr) × Avoids a (s.footer ∷ s.header ∷ (addresses pre ++ addresses post))
  all_but a h =
      All-drop (λ b. a ≢ b) c.addr (s.footer ∷ s.header ∷ addresses pre) (addresses post)
        (subst (λ l. Avoids a (s.footer ∷ s.header ∷ l)) (addresses-append pre (c ∷ post)) h)

  -- A key keeps its node, which gets the new value.
  pub changed-Inv : Inv changed bound (pre ++ set_cell value c ∷ post)
  changed-Inv = record {
    header_node = other_node s.header apart.1.0 ∙ v.header_node;
    footer_node = other_node s.footer apart.0 ∙ v.footer_node;
    holds =
        All-insert (Holds changed.memory) (set_cell value c) pre post
          (put_here c.addr c.addr (some (key_node c.height c.key value)) s.memory.nodes refl)
          (others (pre ++ post) apart.1.1 (All-drop (Holds s.memory) c pre post v.holds).1);
    chains = λ i h.
        subst (λ l. Chain (column s.memory i) s.header l s.footer) (sym (same_addrs i))
          (v.chains i h);
    unique = subst (λ l. Unique (s.footer ∷ s.header ∷ l)) (sym same_addresses) v.unique;
    given =
        subst (λ l. All (λ a. a < s.memory.next_address) (s.footer ∷ s.header ∷ l))
          (sym same_addresses) v.given;
    owned = λ a n.
        let h : Avoids a (s.footer ∷ s.header ∷ addresses (pre ++ c ∷ post)) =
          subst (λ l. Avoids a (s.footer ∷ s.header ∷ l)) same_addresses n in
        other_node a (λ e. (all_but a h).0 (sym e)) ∙ v.owned a h;
    heights =
        let d = All-drop (Fits s.level) c pre post v.heights in
        All-insert (Fits s.level) (set_cell value c) pre post d.0 d.1;
    level = v.level;
    sorted = Sorted-set s.is_forward value c pre post v.sorted;
    bounded =
        let d = All-drop (λ c. precedes s.is_forward c.key bound ≡ true) c pre post v.bounded in
        All-insert (λ c. precedes s.is_forward c.key bound ≡ true) (set_cell value c) pre post d.0
          d.1;
    count = v.count ∙ length-insert c pre post ∙ sym (length-insert (set_cell value c) pre post);
  }
