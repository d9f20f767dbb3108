-- ===== src/SkipList/Remove.antt =====
-- moxt/skiplist/skiplist.hpp: `remove` of a key that is there.
use native.Mathlib.Decide.{dec_le, dec_lt, ℕ_discrete}
use mathlib.Core.Path.{subst}
use mathlib.Core.List.{cons≢nil}
use mathlib.Core.Option.{some-injective}
use moxt_cpp.SkipList.{
  SkipList, precedes, max_level, bare_node, key_node, Update, lower, remove_node,
}
use moxt_cpp.SkipList.Heap.{Memory, load, delete, cleared}
use moxt_cpp.SkipList.Chain.{
  Chain, last, first_or, Avoids, Unique, Chain-agree, Chain-suffix, Chain-first, bypass,
}
use moxt_cpp.SkipList.Cells.{Cell, addrs, addresses, addrs-append, Avoids-addrs, Unique-addrs}
use moxt_cpp.SkipList.Walk.{column, Slot}
use moxt_cpp.SkipList.Invariant.{Inv, Holds, Fits, All-map, All-map₂, All-parts, first_or-All}
use moxt_cpp.SkipList.Unlink.{Unlinkable, Unlinked, unlink-Unlinked}
use moxt_cpp.SkipList.Lower.{Lowered, lower-Lowered}
use moxt_cpp.SkipList.Place.{cell-value}
use moxt_cpp.SkipList.Splice.{
  All-drop, All-insert, Unique-drop, Sorted-drop, addresses-append, length-insert, addrs_in,
  addrs_out, cell_here, cell_apart,
}
use moxt_cpp.Prelude.{
  ◌≡◌, refl, sym, ◌∙◌, ap, ◌≢◌, ℕ, suc, ◌-◌, ◌≤◌, ◌<◌, true, none, some, List, [], ◌∷◌, ◌++◌, All,
  arith,
}
use moxt_cpp.Prelude.Int.{ℤ, pos}
use moxt_cpp.Prelude.Outcome.{ok}
use moxt_cpp.Prelude.Put.{assign_there, put_here, put_there}

module _ (i : ℕ) (c : Cell) (post : List Cell) where
  addrs_head : i ≤ c.height → addrs i (c ∷ post) ≡ c.addr ∷ addrs i post
  unfolding addrs
  addrs_head h = addrs_in i c [] post h

  addrs_skip : c.height < i → addrs i (c ∷ post) ≡ addrs i post
  unfolding addrs
  addrs_skip h = addrs_out i c [] post h

-- A level that links no node is above all nodes.
addrs_none-heights : (i : ℕ) (cs : List Cell) → addrs i cs ≡ [] → All (λ c. c.height < i) cs
addrs_none-heights i [] e = tt
addrs_none-heights i (c ∷ cs) e = elim (dec_le i c.height) [
  | yes h ↦ absurd (cons≢nil (sym (addrs_head i c cs h) ∙ e))
  | no h ↦ (omega arith, addrs_none-heights i cs (sym (addrs_skip i c cs (omega arith)) ∙ e))
]

first_or-nil : (f : ℕ) (cs : List ℕ) → Avoids f cs → first_or f cs ≡ f → cs ≡ []
first_or-nil f [] h e = refl
first_or-nil f (c ∷ cs) (h, _) e = absurd (h (sym e))

module _ (s : SkipList) (bound : ℤ) (pre : List Cell) (c : Cell) (post : List Cell)
    (v : Inv s bound (pre ++ c ∷ post)) where
  abbrev before : ℕ → ℕ
  before j = last s.header (addrs j pre)

  abbrev after : ℕ → ℕ
  after j = first_or s.footer (addrs j post)

  height-Fits : Fits s.level c
  height-Fits = (All-drop (Fits s.level) c pre post v.heights).0

  apart : Avoids c.addr (s.footer ∷ s.header ∷ addresses (pre ++ post))
  apart = cell_apart s bound pre c post v

  node-Slot : (j : ℕ) → j ≤ c.height → Slot s.memory j c.addr
  node-Slot j h =
      let f = height-Fits in
      (key_node c.height c.key c.value, cell_here s bound pre c post v, ground arith)

  -- The chain of a level from the last node before the removed one.
  from_before :
      (j : ℕ) → j < max_level → Chain (column s.memory j) (before j) (addrs j (c ∷ post)) s.footer
  from_before j h =
      Chain-suffix (column s.memory j) s.header s.footer (addrs j pre) (addrs j (c ∷ post)) (
        subst (λ l. Chain (column s.memory j) s.header l s.footer) (addrs-append j pre (c ∷ post))
          (v.chains j h))

  behind :
      (j : ℕ)
      → j < max_level
      → j ≤ c.height
      → (column s.memory j (before j) ≡ some c.addr) × (column s.memory j c.addr ≡ some (after j))
  behind j h k =
      let r =
        subst (λ l. Chain (column s.memory j) (before j) l s.footer) (addrs_head j c post k)
          (from_before j h) in
      (r.0, Chain-first (column s.memory j) c.addr s.footer (addrs j post) r.1)

  post_apart : (j : ℕ) → c.addr ≢ after j
  post_apart j =
      first_or-All (λ a. c.addr ≢ a) s.footer (addrs j post) apart.0
        (Avoids-addrs c.addr j post
          (All-parts (λ a. c.addr ≢ a) (addresses pre) (addresses post)
            (subst (Avoids c.addr) (addresses-append pre post) apart.1.1)).1)

  unlinkable :
      (u : Update)
      → ((j : ℕ) → j ≤ s.level → u j ≡ some (before j))
      → ((j : ℕ) → j < max_level → Slot s.memory j (before j))
      → Unlinkable s.memory c.addr u before after c.height 0 (suc s.level)
  unlinkable u n sl = record {
    low = omega (arith, v.level);
    high = omega (arith, height-Fits.1);
    noted = λ j _ h. n j (omega arith);
    place = λ j _ h. sl j (omega (arith, v.level));
    linked = λ j _ h. (behind j (omega (arith, height-Fits.1, v.level)) h).0;
    onward = λ j _ h. (behind j (omega (arith, height-Fits.1, v.level)) h).1;
    room = node-Slot;
    passed = λ j _ h k. (
      after j,
      Chain-first (column s.memory j) (before j) s.footer (addrs j post) (
          subst (λ l. Chain (column s.memory j) (before j) l s.footer) (addrs_skip j c post k)
            (from_before j (omega (arith, v.level)))),
      λ e. post_apart j (sym e),
    );
  }

  module _ (m : Memory) (r : Unlinked s.memory m c.addr before c.height 0) where
    abbrev gone : Memory
    gone = cleared c.addr m

    node_gone : (a : ℕ) → c.addr ≢ a → gone.nodes a ≡ s.memory.nodes a
    unfolding cleared
    node_gone a n = put_there c.addr a none m.nodes n ∙ ap (λ f. f a) r.same.nodes

    next_gone : gone.next_address ≡ s.memory.next_address
    unfolding cleared
    next_gone = r.same.next

    column-gone : (j a : ℕ) → c.addr ≢ a → column gone j a ≡ column m j a
    unfolding cleared
    column-gone j a n = ap (λ f. f j) (assign_there c.addr a (λ i. none) m.arrays n)

    delete-gone : delete c.addr m ≡ ok gone
    unfolding delete load
    delete-gone = rw (r.same.nodes, cell_here s bound pre c post v) refl

    columns_gone :
        (j : ℕ) (cs : List ℕ) → Avoids c.addr cs → All (λ a. column gone j a ≡ column m j a) cs
    columns_gone j [] h = tt
    columns_gone j (d ∷ cs) (h, hs) = (column-gone j d h, columns_gone j cs hs)

    columns_same :
        (j : ℕ) (cs : List ℕ) → c.height < j → All (λ a. column m j a ≡ column s.memory j a) cs
    columns_same j [] h = tt
    columns_same j (d ∷ cs) h = (r.above j h d, columns_same j cs h)

    level_apart : (j : ℕ) → Avoids c.addr (s.header ∷ addrs j (pre ++ post))
    level_apart j = (apart.1.0, Avoids-addrs c.addr j (pre ++ post) apart.1.1)

    low-Chain :
        (j : ℕ)
        → j < max_level
        → j ≤ c.height
        → Chain (column m j) s.header (addrs j (pre ++ post)) s.footer
    low-Chain j h k =
        let e = addrs_in j c pre post k in
        subst (λ l. Chain (column m j) s.header l s.footer) (sym (addrs-append j pre post))
          (bypass c.addr (column s.memory j) (column m j) s.header s.footer (addrs j pre)
            (addrs j post)
            (subst (λ l. Unique (s.header ∷ l)) e
              (
                Avoids-addrs s.header j (pre ++ c ∷ post) v.unique.1.0,
                Unique-addrs j (pre ++ c ∷ post) v.unique.1.1,
              ))
            (subst (λ l. Chain (column s.memory j) s.header l s.footer) e (v.chains j h))
            (r.bypassed j (omega arith) k))

    high-Chain :
        (j : ℕ)
        → j < max_level
        → c.height < j
        → Chain (column m j) s.header (addrs j (pre ++ post)) s.footer
    high-Chain j h k =
        Chain-agree (column s.memory j) (column m j) s.header s.footer (addrs j (pre ++ post))
          (subst (λ l. Chain (column s.memory j) s.header l s.footer) (addrs_out j c pre post k)
            (v.chains j h))
          (columns_same j (s.header ∷ addrs j (pre ++ post)) k)

    gone-Chain :
        (j : ℕ) → j < max_level → Chain (column gone j) s.header (addrs j (pre ++ post)) s.footer
    gone-Chain j h =
        Chain-agree (column m j) (column gone j) s.header s.footer (addrs j (pre ++ post))
          (elim (dec_lt c.height j) [
            | yes k ↦ high-Chain j h k
            | no k ↦ low-Chain j h (omega arith)
          ])
          (columns_gone j (s.header ∷ addrs j (pre ++ post)) (level_apart j))

    header_gone : gone.nodes s.header ≡ some (bare_node max_level (pos 0))
    header_gone = node_gone s.header apart.1.0 ∙ v.header_node

    lowered :
        (level : ℕ) × (lower s.header s.footer s.level gone ≡ ok level)
        × Lowered gone s.header s.footer s.level level
    lowered =
        lower-Lowered gone s.header s.footer s.level
          (λ j. first_or s.footer (addrs j (pre ++ post)))
          (λ j h. (bare_node max_level (pos 0), header_gone, omega (arith, v.level)))
          (λ j h.
            Chain-first (column gone j) s.header s.footer (addrs j (pre ++ post))
              (gone-Chain j (omega (arith, v.level))))

    -- No node reaches above the lowered level.
    heights_gone :
        (level : ℕ) → Lowered gone s.header s.footer s.level level → All (Fits level) (pre ++ post)
    heights_gone level l =
        let f = (All-drop (Fits s.level) c pre post v.heights).1 in
        elim (dec_lt level s.level) [
          | yes h ↦
              let e = l.straight (suc level) (omega arith) h in
              let g =
                Chain-first (column gone (suc level)) s.header s.footer
                  (addrs (suc level) (pre ++ post))
                  (gone-Chain (suc level) (omega (arith, v.level))) in
              let a = Avoids-addrs s.footer (suc level) (pre ++ post) (footer_apart) in
              let n =
                first_or-nil s.footer (addrs (suc level) (pre ++ post)) a
                  (some-injective _ _ (sym g ∙ e)) in
              All-map₂ (Fits s.level) (λ c. c.height < suc level) (Fits level)
                (λ c f h. (f.0, omega (arith, h))) (pre ++ post) f
                (addrs_none-heights (suc level) (pre ++ post) n)
          | no h ↦
              All-map (Fits s.level) (Fits level) (λ c f. (f.0, omega (arith, f.1))) (pre ++ post) f
        ]
      where
        footer_apart : Avoids s.footer (addresses (pre ++ post))
        footer_apart =
            subst (Avoids s.footer) (sym (addresses-append pre post))
              (All-drop (λ a. s.footer ≢ a) c.addr (addresses pre) (addresses post)
                (subst (Avoids s.footer) (addresses-append pre (c ∷ post)) v.unique.0.1)).1

    Holds-gone :
        (cs : List Cell)
        → Avoids c.addr (addresses cs)
        → All (Holds s.memory) cs
        → All (Holds gone) cs
    Holds-gone [] _ _ = tt
    Holds-gone (d ∷ cs) (n, ns) (h, hs) = (node_gone d.addr n ∙ h, Holds-gone cs ns hs)

    owned_gone :
        (a : ℕ) → Avoids a (s.footer ∷ s.header ∷ addresses (pre ++ post)) → gone.nodes a ≡ none
    unfolding cleared
    owned_gone a n = elim (ℕ_discrete c.addr a) [
      | yes e ↦ put_here c.addr a none m.nodes e
      | no d ↦
          node_gone a d
          ∙ v.owned a (
              subst (λ l. Avoids a (s.footer ∷ s.header ∷ l))
                (sym (addresses-append pre (c ∷ post)))
                (All-insert (λ b. a ≢ b) c.addr (s.footer ∷ s.header ∷ addresses pre)
                  (addresses post) (λ e. d (sym e))
                  (subst (λ l. Avoids a (s.footer ∷ s.header ∷ l)) (addresses-append pre post) n)))
    ]

    -- The list without the node.
    removed :
        (level : ℕ)
        → Lowered gone s.header s.footer s.level level
        → Inv
            (record s { level = level; node_count = s.node_count - 1; memory = gone })
            bound
            (pre ++ post)
    removed level l = record {
      header_node = header_gone;
      footer_node = node_gone s.footer apart.0 ∙ v.footer_node;
      holds = Holds-gone (pre ++ post) apart.1.1 (All-drop (Holds s.memory) c pre post v.holds).1;
      chains = gone-Chain;
      unique =
          subst (λ l. Unique (s.footer ∷ s.header ∷ l)) (sym (addresses-append pre post))
            (Unique-drop c.addr (s.footer ∷ s.header ∷ addresses pre) (addresses post) (
              subst (λ l. Unique (s.footer ∷ s.header ∷ l)) (addresses-append pre (c ∷ post))
                v.unique));
      given =
          subst (λ n. All (λ a. a < n) (s.footer ∷ s.header ∷ addresses (pre ++ post)))
            (sym next_gone)
            (subst (λ l. All (λ a. a < s.memory.next_address) (s.footer ∷ s.header ∷ l))
              (sym (addresses-append pre post))
              (All-drop (λ a. a < s.memory.next_address) c.addr
                (s.footer ∷ s.header ∷ addresses pre) (addresses post)
                (subst (λ l. All (λ a. a < s.memory.next_address) (s.footer ∷ s.header ∷ l))
                  (addresses-append pre (c ∷ post)) v.given)).1);
      owned = owned_gone;
      heights = heights_gone level l;
      level = omega (arith, l.fits, v.level);
      sorted = Sorted-drop s.is_forward c pre post v.sorted;
      bounded = (All-drop (λ c. precedes s.is_forward c.key bound ≡ true) c pre post v.bounded).1;
      count = omega (arith, v.count, length-insert c pre post);
    }

  pub record Removed (u : Update) : Type 0 where
    pub list : SkipList
    pub result : remove_node c.addr u s ≡ ok (list, some c.value)
    pub direction : list.is_forward ≡ s.is_forward
    pub inv : Inv list bound (pre ++ post)
    pub unlisted : list.memory.nodes c.addr ≡ none

  pub remove_node-Removed :
      (u : Update)
      → ((j : ℕ) → j ≤ s.level → u j ≡ some (before j))
      → ((j : ℕ) → j < max_level → Slot s.memory j (before j))
      → Removed u
  unfolding remove_node cleared
  remove_node-Removed u n sl =
      let (m, e, r) =
        unlink-Unlinked c.addr u before after c.height s.memory 0 (suc s.level)
          (unlinkable u n sl) in
      let (level, d, l) = lowered m r in
      record {
        list = record s { level = level; node_count = s.node_count - 1; memory = cleared c.addr m };
        result =
            rw (cell-value s.memory c (cell_here s bound pre c post v), e, delete-gone m r, d) refl;
        direction = refl;
        inv = removed m r level l;
        unlisted = put_here c.addr c.addr none m.nodes refl;
      }
