-- ===== src/SkipList/Unlink.antt =====
-- moxt/skiplist/skiplist.hpp: the loop of `remove` that leads each level past a node.
use native.Mathlib.Decide.{ℕ_discrete, dec_le}
use mathlib.Core.Path.{subst}
use moxt_cpp.SkipList.{max_level, Update, unlink}
use moxt_cpp.SkipList.Heap.{Memory, get_forward, set_forward, write}
use moxt_cpp.SkipList.Chain.{Bypassed}
use moxt_cpp.SkipList.Walk.{column, Slot, get_forward-Slot}
use moxt_cpp.SkipList.Link.{
  SameNodes, SameNodes-trans, Slot-same, write_here, write_node, write_level, set_forward-write,
  write-SameNodes, get_update-some,
}
use moxt_cpp.Prelude.{
  ◌≡◌, refl, sym, ◌∙◌, ap, ◌≢◌, ℕ, zero, suc, ◌+◌, ◌≤◌, ◌<◌, Bool, true, false, Option, some, ◌==◌,
  arith,
}
use moxt_cpp.Prelude.Outcome.{Outcome, ok, ◌>>=◌}

-- What the loop needs from level `i` on, with `n` levels left: `before j` is the last node before
-- the removed one, whose levels go up to `top`.
pub record Unlinkable (m : Memory) (node : ℕ) (u : Update) (before after : ℕ → ℕ) (top i n : ℕ)
    : Type 0 where
  pub low : i + n ≤ max_level
  pub high : top < i + n
  pub noted : (j : ℕ) → i ≤ j → j < i + n → u j ≡ some (before j)
  pub place : (j : ℕ) → i ≤ j → j < i + n → Slot m j (before j)
  pub linked : (j : ℕ) → i ≤ j → j ≤ top → column m j (before j) ≡ some node
  pub onward : (j : ℕ) → i ≤ j → j ≤ top → column m j node ≡ some (after j)
  pub room : (j : ℕ) → j ≤ top → Slot m j node
  pub passed :
      (j : ℕ)
      → i ≤ j
      → j < i + n
      → top < j
      → (q : ℕ) × (column m j (before j) ≡ some q) × (q ≢ node)

-- Levels from `i` up to `top` lead past the node, the others are as before.
pub record Unlinked (m m' : Memory) (node : ℕ) (before : ℕ → ℕ) (top i : ℕ) : Type 0 where
  pub same : SameNodes m m'
  pub bypassed : (j : ℕ) → i ≤ j → j ≤ top → Bypassed (before j) node (column m j) (column m' j)
  pub below : (j : ℕ) → j < i → (a : ℕ) → column m' j a ≡ column m j a
  pub above : (j : ℕ) → top < j → (a : ℕ) → column m' j a ≡ column m j a

Bypassed-agree :
    (x n : ℕ) (c c' d d' : ℕ → Option ℕ)
    → ((a : ℕ) → d a ≡ c a)
    → ((a : ℕ) → d' a ≡ c' a)
    → Bypassed x n c c'
    → Bypassed x n d d'
Bypassed-agree x n c c' d d' f g s = record {
  around = g x ∙ s.around ∙ sym (f n);
  elsewhere = λ a p q. g a ∙ s.elsewhere a p q ∙ sym (f a);
}

module _ (node : ℕ) (u : Update) (before after : ℕ → ℕ) (top : ℕ) where
  untouched : (m : Memory) (i : ℕ) → top < i → Unlinked m m node before top i
  untouched m i h = record {
    same = record { nodes = refl; next = refl };
    bypassed = λ j p q. absurd (omega arith);
    below = λ j p a. refl;
    above = λ j p a. refl;
  }

  unlink_none : (m : Memory) (i : ℕ) → unlink zero i node u m ≡ ok m
  unfolding unlink
  unlink_none m i = refl

  -- Memory once level `i` leads past the node.
  abbrev past : ℕ → Memory → Memory
  past i m = write (before i) i (after i) m

  Bypassed-past :
      (m : Memory) (i : ℕ)
      → column m i node ≡ some (after i)
      → Bypassed (before i) node (column m i) (column (past i m) i)
  Bypassed-past m i e = record {
    around = write_here (before i) i (after i) m ∙ sym e;
    elsewhere = λ a p q. write_node (before i) i (after i) m a i p;
  }

  next_level :
      (m : Memory) (i n : ℕ)
      → Unlinkable m node u before after top i (suc n)
      → Unlinkable (past i m) node u before after top (suc i) n
  next_level m i n l =
      let s = write-SameNodes (before i) i (after i) m in
      record {
        low = omega (arith, l.low);
        high = omega (arith, l.high);
        noted = λ j p q. l.noted j (omega arith) (omega arith);
        place = λ j p q. Slot-same j (before j) s (l.place j (omega arith) (omega arith));
        linked = λ j p q.
            write_level (before i) i (after i) m (before j) j (omega arith)
            ∙ l.linked j (omega arith) q;
        onward = λ j p q.
            write_level (before i) i (after i) m node j (omega arith) ∙ l.onward j (omega arith) q;
        room = λ j p. Slot-same j node s (l.room j p);
        passed = λ j p q r.
            let t = l.passed j (omega arith) (omega arith) r in
            (t.0, write_level (before i) i (after i) m (before j) j (omega arith) ∙ t.1, t.2);
      }

  more :
      (m m' : Memory) (i n : ℕ)
      → Unlinkable m node u before after top i (suc n)
      → i ≤ top
      → Unlinked (past i m) m' node before top (suc i)
      → Unlinked m m' node before top i
  more m m' i n l h r = record {
    same = SameNodes-trans (write-SameNodes (before i) i (after i) m) r.same;
    bypassed = λ j p q. elim (ℕ_discrete i j) [
      | yes e ↦
          subst (λ j. Bypassed (before j) node (column m j) (column m' j)) e
            (Bypassed-agree (before i) node (column m i) (column (past i m) i) (column m i)
              (column m' i) (λ a. refl) (r.below i (omega arith))
              (Bypassed-past m i (l.onward i (omega arith) h)))
      | no d ↦
          Bypassed-agree (before j) node (column (past i m) j) (column m' j) (column m j)
            (column m' j) (λ a. sym (write_level (before i) i (after i) m a j (λ e. d (sym e))))
            (λ a. refl) (r.bypassed j (omega arith) q)
    ];
    below =
        λ j p a. r.below j (omega arith) a ∙ write_level (before i) i (after i) m a j (omega arith);
    above = λ j p a. r.above j p a ∙ write_level (before i) i (after i) m a j (omega arith);
  }

  -- What the loop does on level `i` of the node.
  on_level : ℕ → ℕ → Memory → Outcome Memory
  on_level n i m = do
    q ← get_forward node i m
    m' ← set_forward (before i) i q m
    unlink n (suc i) node u m'

  by_level :
      (m : Memory) (i n q : ℕ)
      → Unlinkable m node u before after top i (suc n)
      → column m i (before i) ≡ some q
      → unlink (suc n) i node u m
        ≡ elim (q == node) as (λ b. Outcome Memory) [ true ↦ on_level n i m | false ↦ ok m ]
  unfolding unlink on_level
  by_level m i n q l e =
      rw
        (
          get_update-some i (before i) u (omega (arith, l.low))
              (l.noted i (omega arith) (omega arith)),
          get_forward-Slot m i (before i) q (l.place i (omega arith) (omega arith)) e,
        )
        refl

  branch : (m : Memory) (i n : ℕ) → Bool → Outcome Memory
  branch m i n b = elim b as (λ b. Outcome Memory) [ true ↦ on_level n i m | false ↦ ok m ]

  step_past :
      (m : Memory) (i n : ℕ)
      → Unlinkable m node u before after top i (suc n)
      → i ≤ top
      → unlink (suc n) i node u m ≡ unlink n (suc i) node u (past i m)
  unfolding on_level branch
  step_past m i n l h =
      let e : (node == node) ≡ true = ground arith in
      by_level m i n node l (l.linked i (omega arith) h)
      ∙ ap (branch m i n) e
      ∙ rw
          (
            get_forward-Slot m i node (after i) (l.room i h) (l.onward i (omega arith) h),
            set_forward-write (before i) i (after i) m (l.place i (omega arith) (omega arith)),
          )
          refl

  stop :
      (m : Memory) (i n : ℕ)
      → Unlinkable m node u before after top i (suc n)
      → top < i
      → unlink (suc n) i node u m ≡ ok m
  unfolding branch
  stop m i n l h =
      let (q, e, d) = l.passed i (omega arith) (omega arith) h in
      let f : (q == node) ≡ false = ground arith in by_level m i n q l e ∙ ap (branch m i n) f

  pub unlink-Unlinked :
      (m : Memory) (i n : ℕ)
      → Unlinkable m node u before after top i n
      → (m' : Memory) × (unlink n i node u m ≡ ok m') × Unlinked m m' node before top i
  unlink-Unlinked m i zero l = (m, unlink_none m i, untouched m i (omega (arith, l.high)))
  unlink-Unlinked m i (suc n) l = elim (dec_le i top) [
    | yes h ↦
        let r = unlink-Unlinked (past i m) (suc i) n (next_level m i n l) in
        (r.0, step_past m i n l h ∙ r.1, more m r.0 i n l h r.2)
    | no h ↦ (m, stop m i n l (omega arith), untouched m i (omega arith))
  ]
