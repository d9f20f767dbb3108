-- ===== src/SkipList/Link.antt =====
-- moxt/skiplist/skiplist.hpp: the loop of `insert` that puts a node behind another on each level.
use native.Mathlib.Decide.{ℕ_discrete}
use mathlib.Core.Path.{subst}
use moxt_cpp.SkipList.{max_level, Update, get_update, link_one, link}
use moxt_cpp.SkipList.Heap.{Memory, load, set_forward, write}
use moxt_cpp.SkipList.Chain.{Spliced}
use moxt_cpp.SkipList.Walk.{column, Slot, get_forward-Slot}
use moxt_cpp.Prelude.{
  ◌≡◌, refl, sym, ◌∙◌, ap, ◌≢◌, ℕ, zero, suc, ◌≤◌, ◌<◌, true, Option, some, ltb, arith,
}
use moxt_cpp.Prelude.Outcome.{ok}
use moxt_cpp.Prelude.Put.{put, put_here, put_there, assign_here, assign_there}

module _ (p i q : ℕ) (m : Memory) where
  pub write_here : column (write p i q m) i p ≡ some q
  unfolding write
  write_here =
      ap (λ f. f i) (assign_here p p (put i (some q) (m.arrays p)) m.arrays refl)
      ∙ put_here i i (some q) (m.arrays p) refl

  pub write_node : (a j : ℕ) → a ≢ p → column (write p i q m) j a ≡ column m j a
  unfolding write
  write_node a j n =
      ap (λ f. f j) (assign_there p a (put i (some q) (m.arrays p)) m.arrays (λ e. n (sym e)))

  pub write_level : (a j : ℕ) → j ≢ i → column (write p i q m) j a ≡ column m j a
  unfolding write
  write_level a j n = elim (ℕ_discrete p a) [
    | yes e ↦
        ap (λ f. f j) (assign_here p a (put i (some q) (m.arrays p)) m.arrays e)
        ∙ put_there i j (some q) (m.arrays p) (λ h. n (sym h))
        ∙ ap (λ a. m.arrays a j) e
    | no d ↦ ap (λ f. f j) (assign_there p a (put i (some q) (m.arrays p)) m.arrays d)
  ]

  pub set_forward-write : Slot m i p → set_forward p i q m ≡ ok (write p i q m)
  unfolding set_forward load
  set_forward-write (n, e, h) = let l : ltb i n.slots ≡ true = ground arith in rw (e, l) refl

-- Only pointers differ.
pub record SameNodes (m m' : Memory) : Type 0 where
  pub nodes : m'.nodes ≡ m.nodes
  pub next : m'.next_address ≡ m.next_address

pub write-SameNodes : (p i q : ℕ) (m : Memory) → SameNodes m (write p i q m)
unfolding write
write-SameNodes p i q m = record { nodes = refl; next = refl }

pub SameNodes-trans : {m n k : Memory} → SameNodes m n → SameNodes n k → SameNodes m k
SameNodes-trans a b = record { nodes = b.nodes ∙ a.nodes; next = b.next ∙ a.next }

pub Slot-same : {m m' : Memory} (i a : ℕ) → SameNodes m m' → Slot m i a → Slot m' i a
Slot-same i a s (n, e, h) = (n, ap (λ f. f a) s.nodes ∙ e, h)

-- What the loop needs on the levels up to `i`: `before j` is the node to put `new` behind.
pub record Linkable (m : Memory) (new : ℕ) (u : Update) (before after : ℕ → ℕ) (i : ℕ)
    : Type 0 where
  pub low : i < max_level
  pub noted : (j : ℕ) → j ≤ i → u j ≡ some (before j)
  pub apart : (j : ℕ) → j ≤ i → before j ≢ new
  pub place : (j : ℕ) → j ≤ i → Slot m j (before j)
  pub room : (j : ℕ) → j ≤ i → Slot m j new
  pub onward : (j : ℕ) → j ≤ i → column m j (before j) ≡ some (after j)

-- The node is behind `before j` on the levels up to `i`, and nothing else has changed.
pub record Linked (m m' : Memory) (new : ℕ) (before : ℕ → ℕ) (i : ℕ) : Type 0 where
  pub same : SameNodes m m'
  pub spliced : (j : ℕ) → j ≤ i → Spliced (before j) new (column m j) (column m' j)
  pub above : (j : ℕ) → i < j → (a : ℕ) → column m' j a ≡ column m j a

pub get_update-some : (i x : ℕ) (u : Update) → i < max_level → u i ≡ some x → get_update i u ≡ ok x
unfolding get_update
get_update-some i x u h e = let l : ltb i max_level ≡ true = ground arith in rw (l, e) refl

module _ (m : Memory) (new : ℕ) (u : Update) (before after : ℕ → ℕ) where
  abbrev linked_one : ℕ → Memory
  linked_one i = write (before i) i new (write new i (after i) m)

  one_same : (i : ℕ) → SameNodes m (linked_one i)
  one_same i =
      SameNodes-trans (write-SameNodes new i (after i) m)
        (write-SameNodes (before i) i new (write new i (after i) m))

  one_level : (i j a : ℕ) → j ≢ i → column (linked_one i) j a ≡ column m j a
  one_level i j a n =
      write_level (before i) i new (write new i (after i) m) a j n
      ∙ write_level new i (after i) m a j n

  one-Spliced :
      (i : ℕ)
      → before i ≢ new
      → column m i (before i) ≡ some (after i)
      → Spliced (before i) new (column m i) (column (linked_one i) i)
  one-Spliced i n e = record {
    before = write_here (before i) i new (write new i (after i) m);
    after =
        write_node (before i) i new (write new i (after i) m) new i (λ h. n (sym h))
        ∙ write_here new i (after i) m
        ∙ sym e;
    elsewhere = λ a p q.
        write_node (before i) i new (write new i (after i) m) a i p
        ∙ write_node new i (after i) m a i q;
  }

  pub link_one-ok :
      (i j : ℕ) → Linkable m new u before after i → j ≤ i → link_one j new u m ≡ ok (linked_one j)
  unfolding link_one
  link_one-ok i j l h =
      let low : j < max_level = omega (arith, l.low) in
      rw
        (
          get_update-some j (before j) u low (l.noted j h),
          get_forward-Slot m j (before j) (after j) (l.place j h) (l.onward j h),
          set_forward-write new j (after j) m (l.room j h),
          set_forward-write (before j) j new (write new j (after j) m)
              (Slot-same j (before j) (write-SameNodes new j (after j) m) (l.place j h)),
        )
        refl

-- The levels below stay as they were to be linked.
still :
    (m : Memory) (new : ℕ) (u : Update) (before after : ℕ → ℕ) (i : ℕ)
    → Linkable m new u before after (suc i)
    → Linkable (linked_one m new u before after (suc i)) new u before after i
still m new u before after i l =
    let s = one_same m new u before after (suc i) in
    record {
      low = omega (arith, l.low);
      noted = λ j h. l.noted j (omega arith);
      apart = λ j h. l.apart j (omega arith);
      place = λ j h. Slot-same j (before j) s (l.place j (omega arith));
      room = λ j h. Slot-same j new s (l.room j (omega arith));
      onward = λ j h.
          one_level m new u before after (suc i) j (before j) (omega arith)
          ∙ l.onward j (omega arith);
    }

pub Spliced-agree :
    (x n : ℕ) (c c' d d' : ℕ → Option ℕ)
    → ((a : ℕ) → d a ≡ c a)
    → ((a : ℕ) → d' a ≡ c' a)
    → Spliced x n c c'
    → Spliced x n d d'
Spliced-agree x n c c' d d' f g s = record {
  before = g x ∙ s.before;
  after = g n ∙ s.after ∙ sym (f x);
  elsewhere = λ a p q. g a ∙ s.elsewhere a p q ∙ sym (f a);
}

module _ (m : Memory) (new : ℕ) (u : Update) (before after : ℕ → ℕ) where
  abbrev SplicedAt : Memory → ℕ → Type 0
  SplicedAt m' j = Spliced (before j) new (column m j) (column m' j)

  first_Linked :
      Linkable m new u before after 0 → Linked m (linked_one m new u before after 0) new before 0
  first_Linked l = record {
    same = one_same m new u before after 0;
    spliced = λ j h.
        let e : 0 ≡ j = omega arith in
        subst (SplicedAt (linked_one m new u before after 0)) e
          (one-Spliced m new u before after 0 (l.apart 0 (omega arith)) (l.onward 0 (omega arith)));
    above = λ j h a. one_level m new u before after 0 j a (omega arith);
  }

more_Linked :
    (m m' : Memory) (new : ℕ) (u : Update) (before after : ℕ → ℕ) (i : ℕ)
    → Linkable m new u before after (suc i)
    → Linked (linked_one m new u before after (suc i)) m' new before i
    → Linked m m' new before (suc i)
more_Linked m m' new u before after i l r =
    let m₁ = linked_one m new u before after (suc i) in
    record {
      same = SameNodes-trans (one_same m new u before after (suc i)) r.same;
      spliced = λ j h. elim (ℕ_discrete (suc i) j) [
        | yes e ↦ subst (SplicedAt m new u before after m') e (
            Spliced-agree (before (suc i)) new (column m (suc i)) (column m₁ (suc i))
              (column m (suc i)) (column m' (suc i)) (λ a. refl) (r.above (suc i) (omega arith))
              (one-Spliced m new u before after (suc i) (l.apart (suc i) (omega arith))
                (l.onward (suc i) (omega arith))))
        | no n ↦
            Spliced-agree (before j) new (column m₁ j) (column m' j) (column m j) (column m' j)
              (λ a. sym (one_level m new u before after (suc i) j a (λ e. n (sym e)))) (λ a. refl)
              (r.spliced j (omega arith))
      ];
      above = λ j h a.
          r.above j (omega arith) a ∙ one_level m new u before after (suc i) j a (omega arith);
    }

pub link-Linked :
    (m : Memory) (new : ℕ) (u : Update) (before after : ℕ → ℕ) (i : ℕ)
    → Linkable m new u before after i
    → (m' : Memory) × (link i new u m ≡ ok m') × Linked m m' new before i
unfolding link
link-Linked m new u before after zero l = (
  linked_one m new u before after 0,
  link_one-ok m new u before after 0 0 l (omega arith),
  first_Linked m new u before after l,
)
link-Linked m new u before after (suc i) l =
    let m₁ = linked_one m new u before after (suc i) in
    let r = link-Linked m₁ new u before after i (still m new u before after i l) in
    (
      r.0,
      rw (link_one-ok m new u before after (suc i) (suc i) l (omega arith)) r.1,
      more_Linked m r.0 new u before after i l r.2,
    )
