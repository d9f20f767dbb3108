-- ===== src/SkipList/Create.antt =====
-- moxt/skiplist/skiplist.hpp: the constructor.
use native.Mathlib.Decide.{ℕ_discrete}
use mathlib.Core.Path.{subst}
use moxt_cpp.SkipList.{SkipList, max_level, bare_node, link_header, new_list}
use moxt_cpp.SkipList.Heap.{Memory, empty, new_node, write}
use moxt_cpp.SkipList.Random.{new_random}
use moxt_cpp.SkipList.Chain.{Avoids, Unique}
use moxt_cpp.SkipList.Cells.{addrs}
use moxt_cpp.SkipList.Walk.{column, Slot}
use moxt_cpp.SkipList.Invariant.{Inv}
use moxt_cpp.SkipList.Link.{
  SameNodes, SameNodes-trans, Slot-same, write_here, write_level, set_forward-write,
  write-SameNodes,
}
use moxt_cpp.Prelude.{
  ◌≡◌, refl, sym, ◌∙◌, ap, ◌≢◌, ℕ, zero, suc, ◌<◌, Bool, none, some, [], ◌∷◌, All, arith,
}
use moxt_cpp.Prelude.Int.{ℤ, pos}
use moxt_cpp.Prelude.Outcome.{ok}
use moxt_cpp.Prelude.Put.{put, put_there}

-- The header's pointers on the first levels.
pub record Footed (m m' : Memory) (header footer n : ℕ) : Type 0 where
  pub same : SameNodes m m'
  pub to_footer : (i : ℕ) → i < n → column m' i header ≡ some footer

link_header-Footed :
    (n header footer : ℕ) (m : Memory)
    → ((i : ℕ) → i < n → Slot m i header)
    → (m' : Memory) × (link_header n header footer m ≡ ok m') × Footed m m' header footer n
unfolding link_header
link_header-Footed zero header footer m s = (
  m,
  refl,
  record { same = record { nodes = refl; next = refl }; to_footer = λ i h. absurd (omega arith) },
)
link_header-Footed (suc n) header footer m s =
    let (m', e, f) = link_header-Footed n header footer m (λ i h. s i (omega arith)) in
    (
      write header n footer m',
      rw (e, set_forward-write header n footer m' (Slot-same n header f.same (s n (omega arith))))
          refl,
      record {
        same = SameNodes-trans f.same (write-SameNodes header n footer m');
        to_footer = λ i h. elim (ℕ_discrete n i) [
          | yes d ↦
              subst (λ i. column (write header n footer m') i header ≡ some footer) d
                (write_here header n footer m')
          | no d ↦
              write_level header n footer m' header i (λ e. d (sym e)) ∙ f.to_footer i (omega arith)
        ];
      },
    )

module _ (bound : ℤ) where
  -- The footer and the header, before the header is linked.
  abbrev with_footer : ℕ × Memory
  with_footer = new_node (bare_node 0 bound) empty

  abbrev with_header : ℕ × Memory
  with_header = new_node (bare_node max_level (pos 0)) with_footer.1

  header-Slot : (i : ℕ) → i < max_level → Slot with_header.1 i with_header.0
  unfolding new_node ℕ_discrete
  header-Slot i h = (bare_node max_level (pos 0), refl, omega arith)

  footer_there : with_header.1.nodes with_footer.0 ≡ some (bare_node 0 bound)
  unfolding new_node ℕ_discrete
  footer_there = refl

  others_free : (a : ℕ) → a ≢ 1 → a ≢ 2 → with_header.1.nodes a ≡ none
  unfolding new_node
  others_free a p q =
      put_there 2 a (some (bare_node max_level (pos 0)))
        (put 1 (some (bare_node 0 bound)) empty.nodes) (λ e. q (sym e))
      ∙ put_there 1 a (some (bare_node 0 bound)) empty.nodes (λ e. p (sym e))

  numbers : (with_footer.0 ≡ 1) × (with_header.0 ≡ 2) × (with_header.1.next_address ≡ 3)
  unfolding new_node
  numbers = (refl, refl, refl)

  header_there : with_header.1.nodes with_header.0 ≡ some (bare_node max_level (pos 0))
  unfolding new_node ℕ_discrete
  header_there = refl

  abbrev list_of : Bool → Memory → SkipList
  list_of fwd m = record {
    is_forward = fwd;
    level = 0;
    header = with_header.0;
    footer = with_footer.0;
    node_count = 0;
    rnd = new_random 0x1234_5678;
    memory = m;
  }

  Unique-new : Unique (with_footer.0 ∷ with_header.0 ∷ [])
  unfolding new_node
  Unique-new = ((omega arith, tt), (tt, tt))

  given_new : All (λ a. a < with_header.1.next_address) (with_footer.0 ∷ with_header.0 ∷ [])
  unfolding new_node
  given_new = (omega arith, (omega arith, tt))

  owned_new : (a : ℕ) → Avoids a (with_footer.0 ∷ with_header.0 ∷ []) → with_header.1.nodes a ≡ none
  owned_new a (p, (q, _)) = others_free a (λ e. p (e ∙ sym numbers.0)) (λ e. q (e ∙ sym numbers.1))

  linked_Inv :
      (fwd : Bool) (m : Memory)
      → Footed with_header.1 m with_header.0 with_footer.0 max_level
      → Inv (list_of fwd m) bound []
  unfolding addrs
  linked_Inv fwd m f = record {
    header_node = ap (λ g. g with_header.0) f.same.nodes ∙ header_there;
    footer_node = ap (λ g. g with_footer.0) f.same.nodes ∙ footer_there;
    holds = tt;
    chains = λ i h. f.to_footer i h;
    unique = Unique-new;
    given =
        subst (λ n. All (λ a. a < n) (with_footer.0 ∷ with_header.0 ∷ [])) (sym f.same.next)
          given_new;
    owned = λ a h. ap (λ g. g a) f.same.nodes ∙ owned_new a h;
    heights = tt;
    level = omega arith;
    sorted = tt;
    bounded = tt;
    count = refl;
  }

  -- A new list is in order and empty.
  pub new_list-Inv :
      (fwd : Bool)
      → (s : SkipList) × (new_list bound fwd ≡ ok s) × (s.is_forward ≡ fwd) × Inv s bound []
  unfolding new_list
  new_list-Inv fwd =
      let (m, e, f) =
        link_header-Footed max_level with_header.0 with_footer.0 with_header.1 header-Slot in
      (list_of fwd m, rw e refl, refl, linked_Inv fwd m f)
