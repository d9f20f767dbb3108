-- ===== src/SkipList/Insert.antt =====
-- moxt/skiplist/skiplist.hpp: `insert` of a key that is not there.
use native.Mathlib.Decide.{ℕ_discrete, dec_lt}
use mathlib.Core.Path.{subst}
use moxt_cpp.SkipList.{
  SkipList, precedes, max_level, bare_node, key_node, Update, get_random_level, raise, insert_at,
}
use moxt_cpp.SkipList.Heap.{Memory, new_node}
use moxt_cpp.SkipList.Random.{uniform}
use moxt_cpp.SkipList.Chain.{
  Chain, last, first_or, Avoids, Unique, Chain-agree, Chain-suffix, Chain-first, splice,
}
use moxt_cpp.SkipList.Cells.{
  Cell, addrs, addresses, addrs-append, Avoids-addrs, Unique-addrs, All-last,
}
use moxt_cpp.SkipList.Walk.{column, Slot, set_update-put}
use moxt_cpp.SkipList.Order.{AllBefore}
use moxt_cpp.SkipList.Place.{above_all}
use moxt_cpp.SkipList.Invariant.{Inv, Holds, Fits, All-map, slots_of}
use moxt_cpp.SkipList.Link.{Linkable, Linked, link-Linked}
use moxt_cpp.SkipList.Splice.{
  All-insert, All-drop, addresses-append, Unique-insert, fresh-Avoids, Sorted-insert, length-insert,
  addrs_in, addrs_out,
}
use moxt_cpp.Prelude.{
  ◌≡◌, refl, sym, ◌∙◌, ap, ◌≢◌, ℕ, suc, ◌≤◌, ◌<◌, true, none, some, List, [], ◌∷◌, ◌++◌, All, ltb,
  arith, inl, inr, Bool-cases,
}
use moxt_cpp.Prelude.Int.{ℤ, pos}
use moxt_cpp.Prelude.Outcome.{ok}
use moxt_cpp.Prelude.Put.{assign_there, put, put_here, put_there}

-- The random level is between 1 and 15.
random_level : (rnd : ℕ) → (1 ≤ (get_random_level rnd).0) × ((get_random_level rnd).0 < max_level)
unfolding get_random_level uniform
random_level rnd = ground arith

all_of : (P : ℕ → Type 0) → ((a : ℕ) → P a) → (cs : List ℕ) → All P cs
all_of P f [] = tt
all_of P f (c ∷ cs) = (f c, all_of P f cs)

module _ (s : SkipList) (bound : ℤ) (pre post : List Cell) (v : Inv s bound (pre ++ post)) where
  abbrev before : ℕ → ℕ
  before j = last s.header (addrs j pre)

  abbrev after : ℕ → ℕ
  after j = first_or s.footer (addrs j post)

  -- What the new node's level, the list's level and `update` are.
  record Raised (random : ℕ) (u : Update) : Type 0 where
    height : ℕ
    level : ℕ
    update : Update
    result : raise random u s ≡ ok (height, level, update)
    positive : 1 ≤ height
    fits : height ≤ level
    grown : s.level ≤ level
    low : level < max_level
    noted : (j : ℕ) → j ≤ height → update j ≡ some (before j)

  raised :
      (random : ℕ) (u : Update)
      → 1 ≤ random
      → random < max_level
      → ((j : ℕ) → j ≤ s.level → u j ≡ some (before j))
      → Raised random u
  raised random u p q n = elim (Bool-cases (ltb s.level random)) [
    | inl e ↦ record {
      height = suc s.level;
      level = suc s.level;
      update = put (suc s.level) (some s.header) u;
      result = rw (e, set_update-put (suc s.level) s.header u (ground arith)) refl;
      positive = omega arith;
      fits = omega arith;
      grown = omega arith;
      low = ground arith;
      noted = λ j h. elim (ℕ_discrete (suc s.level) j) [
        | yes d ↦
            put_here (suc s.level) j (some s.header) u d
            ∙ ap some (sym (above_all s bound (pos 0) pre post v) ∙ ap before d)
        | no d ↦ put_there (suc s.level) j (some s.header) u d ∙ n j (omega arith)
      ];
    }
    | inr e ↦ record {
      height = random;
      level = s.level;
      update = u;
      result = rw e refl;
      positive = p;
      fits = ground arith;
      grown = omega arith;
      low = v.level;
      noted = λ j h. n j (ground arith);
    }
  ]

  module _ (height : ℕ) (key value : ℤ) where
    abbrev new : ℕ
    new = s.memory.next_address

    abbrev cell : Cell
    cell = record { addr = new; key = key; value = value; height = height }

    abbrev grown_memory : Memory
    grown_memory = (new_node (key_node height key value) s.memory).1

    new_apart : Avoids new (s.footer ∷ s.header ∷ addresses (pre ++ post))
    new_apart = fresh-Avoids new (s.footer ∷ s.header ∷ addresses (pre ++ post)) v.given

    node_kept : (a : ℕ) → new ≢ a → grown_memory.nodes a ≡ s.memory.nodes a
    unfolding new_node
    node_kept a n = put_there new a (some (key_node height key value)) s.memory.nodes n

    node_new : grown_memory.nodes new ≡ some (key_node height key value)
    unfolding new_node
    node_new = put_here new new (some (key_node height key value)) s.memory.nodes refl

    new_address : (new_node (key_node height key value) s.memory).0 ≡ new
    unfolding new_node
    new_address = refl

    next_grown : grown_memory.next_address ≡ suc new
    unfolding new_node
    next_grown = refl

    column_kept : (i a : ℕ) → new ≢ a → column grown_memory i a ≡ column s.memory i a
    unfolding new_node
    column_kept i a n = ap (λ f. f i) (assign_there new a (λ j. none) s.memory.arrays n)

    Slot-kept : (i a : ℕ) → new ≢ a → Slot s.memory i a → Slot grown_memory i a
    Slot-kept i a n (d, e, h) = (d, node_kept a n ∙ e, h)

    columns_kept :
        (i : ℕ) (cs : List ℕ)
        → Avoids new cs
        → All (λ a. column grown_memory i a ≡ column s.memory i a) cs
    columns_kept i [] h = tt
    columns_kept i (c ∷ cs) (h, hs) = (column_kept i c h, columns_kept i cs hs)

    level_apart : (i : ℕ) → Avoids new (s.header ∷ addrs i (pre ++ post))
    level_apart i = (new_apart.1.0, Avoids-addrs new i (pre ++ post) new_apart.1.1)

    -- The chains before the node is linked.
    grown-Chain :
        (i : ℕ)
        → i < max_level
        → Chain (column grown_memory i) s.header (addrs i (pre ++ post)) s.footer
    grown-Chain i h =
        Chain-agree (column s.memory i) (column grown_memory i) s.header s.footer
          (addrs i (pre ++ post)) (v.chains i h)
          (columns_kept i (s.header ∷ addrs i (pre ++ post)) (level_apart i))

    all_slots : (i : ℕ) → i < max_level → All (Slot s.memory i) (s.header ∷ addrs i (pre ++ post))
    all_slots i h = (
      (bare_node max_level (pos 0), v.header_node, omega arith),
      slots_of s bound key pre post v i (pre ++ post) v.holds v.heights,
    )

    last_of : (P : ℕ → Type 0) (i : ℕ) → All P (s.header ∷ addrs i (pre ++ post)) → P (before i)
    last_of P i h =
        (All-last P s.header (addrs i pre) (addrs i post)
          (subst (λ l. All P (s.header ∷ l)) (addrs-append i pre post) h)).0

    linkable :
        (u : Update)
        → 1 ≤ height
        → height < max_level
        → ((j : ℕ) → j ≤ height → u j ≡ some (before j))
        → Linkable grown_memory new u before after height
    linkable u p l n = record {
      low = l;
      noted = n;
      apart = λ j h h'. last_of (λ a. new ≢ a) j (level_apart j) (sym h');
      place = λ j h.
          Slot-kept j (before j) (last_of (λ a. new ≢ a) j (level_apart j))
            (last_of (Slot s.memory j) j (all_slots j (omega arith)));
      room = λ j h. (key_node height key value, node_new, ground arith);
      onward = λ j h. Chain-first (column grown_memory j) (before j) s.footer (addrs j post) (
          Chain-suffix (column grown_memory j) s.header s.footer (addrs j pre) (addrs j post) (
            subst (λ l. Chain (column grown_memory j) s.header l s.footer) (addrs-append j pre post)
              (grown-Chain j (omega arith))));
    }

    module _ (m : Memory) (r : Linked grown_memory m new before height) where
      kept : (a : ℕ) → new ≢ a → m.nodes a ≡ s.memory.nodes a
      kept a n = ap (λ f. f a) r.same.nodes ∙ node_kept a n

      Holds-kept :
          (cs : List Cell) → Avoids new (addresses cs) → All (Holds s.memory) cs → All (Holds m) cs
      Holds-kept [] _ _ = tt
      Holds-kept (c ∷ cs) (n, ns) (h, hs) = (kept c.addr n ∙ h, Holds-kept cs ns hs)

      low-Chain :
          (i : ℕ)
          → i < max_level
          → i ≤ height
          → Chain (column m i) s.header (addrs i (pre ++ cell ∷ post)) s.footer
      low-Chain i h k =
          let e = addrs-append i pre post in
          rw (addrs_in i cell pre post k) (
            splice new (column grown_memory i) (column m i) s.header s.footer (addrs i pre)
              (addrs i post)
              (subst (λ l. Unique (s.header ∷ l)) e
                (
                  Avoids-addrs s.header i (pre ++ post) v.unique.1.0,
                  Unique-addrs i (pre ++ post) v.unique.1.1,
                ))
              (subst (λ l. Avoids new (s.header ∷ l)) e (level_apart i))
              (subst (λ l. Chain (column grown_memory i) s.header l s.footer) e (grown-Chain i h))
              (r.spliced i k))

      high-Chain :
          (i : ℕ)
          → i < max_level
          → height < i
          → Chain (column m i) s.header (addrs i (pre ++ cell ∷ post)) s.footer
      high-Chain i h k = rw (addrs_out i cell pre post k) (
          Chain-agree (column grown_memory i) (column m i) s.header s.footer (addrs i (pre ++ post))
            (grown-Chain i h)
            (all_of (λ a. column m i a ≡ column grown_memory i a) (r.above i k)
              (s.header ∷ addrs i (pre ++ post))))

      chains_kept :
          (i : ℕ)
          → i < max_level
          → Chain (column m i) s.header (addrs i (pre ++ cell ∷ post)) s.footer
      chains_kept i h = elim (dec_lt height i) [
        | yes k ↦ high-Chain i h k
        | no k ↦ low-Chain i h (omega arith)
      ]

      Unique-kept : Unique (s.footer ∷ s.header ∷ addresses (pre ++ cell ∷ post))
      Unique-kept =
          let e = addresses-append pre post in
          rw (addresses-append pre (cell ∷ post)) (
            Unique-insert new (s.footer ∷ s.header ∷ addresses pre) (addresses post)
              (subst (λ l. Unique (s.footer ∷ s.header ∷ l)) e v.unique)
              (subst (λ l. Avoids new (s.footer ∷ s.header ∷ l)) e new_apart))

      given_kept : All (λ a. a < suc new) (s.footer ∷ s.header ∷ addresses (pre ++ cell ∷ post))
      given_kept =
          let e = addresses-append pre post in
          rw (addresses-append pre (cell ∷ post)) (
            All-insert (λ a. a < suc new) new (s.footer ∷ s.header ∷ addresses pre) (addresses post)
              (omega arith)
              (subst (λ l. All (λ a. a < suc new) (s.footer ∷ s.header ∷ l)) e
                (All-map (λ a. a < new) (λ a. a < suc new) (λ a l. omega arith)
                  (s.footer ∷ s.header ∷ addresses (pre ++ post)) v.given)))

      owned_kept :
          (a : ℕ)
          → Avoids a (s.footer ∷ s.header ∷ addresses (pre ++ cell ∷ post))
          → m.nodes a ≡ none
      owned_kept a n =
          let d =
            All-drop (λ b. a ≢ b) new (s.footer ∷ s.header ∷ addresses pre) (addresses post)
              (subst (λ l. Avoids a (s.footer ∷ s.header ∷ l)) (addresses-append pre (cell ∷ post))
                n) in
          kept a (λ e. d.0 (sym e))
          ∙ v.owned a (
              subst (λ l. Avoids a (s.footer ∷ s.header ∷ l)) (sym (addresses-append pre post)) d.1)

      -- The list with the new node in its place.
      inserted :
          (level rnd : ℕ)
          → 1 ≤ height
          → height ≤ level
          → s.level ≤ level
          → level < max_level
          → precedes s.is_forward key bound ≡ true
          → AllBefore s.is_forward key pre
          → All (λ c. precedes s.is_forward key c.key ≡ true) post
          → Inv
              (record s { level = level; node_count = suc s.node_count; rnd = rnd; memory = m })
              bound
              (pre ++ cell ∷ post)
      inserted level rnd p f g l b q w = record {
        header_node = kept s.header new_apart.1.0 ∙ v.header_node;
        footer_node = kept s.footer new_apart.0 ∙ v.footer_node;
        holds =
            All-insert (Holds m) cell pre post (ap (λ f. f new) r.same.nodes ∙ node_new)
              (Holds-kept (pre ++ post) new_apart.1.1 v.holds);
        chains = chains_kept;
        unique = Unique-kept;
        given =
            subst (λ k. All (λ a. a < k) (s.footer ∷ s.header ∷ addresses (pre ++ cell ∷ post)))
              (sym (r.same.next ∙ next_grown)) given_kept;
        owned = owned_kept;
        heights =
            All-insert (Fits level) cell pre post (p, f)
              (All-map (Fits s.level) (Fits level) (λ c h. (h.0, omega (arith, h.1))) (pre ++ post)
                v.heights);
        level = l;
        sorted = Sorted-insert s.is_forward cell pre post q w v.sorted;
        bounded =
            All-insert (λ c. precedes s.is_forward c.key bound ≡ true) cell pre post b v.bounded;
        count = omega (arith, v.count, length-insert cell pre post);
      }

  -- The whole of the insertion: it returns, and the list has the key in its place.
  pub record Inserted (u : Update) (key value : ℤ) : Type 0 where
    pub list : SkipList
    pub cell : Cell
    pub result : insert_at u key value s ≡ ok (list, true)
    pub direction : list.is_forward ≡ s.is_forward
    pub inv : Inv list bound (pre ++ cell ∷ post)
    pub holds_key : cell.key ≡ key
    pub holds_value : cell.value ≡ value

  pub insert_at-Inserted :
      (u : Update) (key value : ℤ)
      → ((j : ℕ) → j ≤ s.level → u j ≡ some (before j))
      → precedes s.is_forward key bound ≡ true
      → AllBefore s.is_forward key pre
      → All (λ c. precedes s.is_forward key c.key ≡ true) post
      → Inserted u key value
  unfolding insert_at
  insert_at-Inserted u key value n b q w =
      let l = random_level s.rnd in
      let g = raised (get_random_level s.rnd).0 u l.0 l.1 n in
      let r =
        link-Linked (grown_memory g.height key value) (new g.height key value) g.update before after
          g.height
          (linkable g.height key value g.update g.positive (omega (arith, g.fits, g.low))
            g.noted) in
      record {
        list = record s {
          level = g.level;
          node_count = suc s.node_count;
          rnd = (get_random_level s.rnd).1;
          memory = r.0;
        };
        cell = cell g.height key value;
        result = rw (g.result, new_address g.height key value, r.1) refl;
        direction = refl;
        inv =
            inserted g.height key value r.0 r.2 g.level (get_random_level s.rnd).1 g.positive g.fits
              g.grown g.low b q w;
        holds_key = refl;
        holds_value = refl;
      }
