-- ===== src/SkipList/Free.antt =====
-- moxt/skiplist/skiplist.hpp: the destructor.
use native.Mathlib.Decide.{ℕ_discrete}
use mathlib.Core.Path.{subst}
use moxt_cpp.SkipList.{SkipList, max_level, bare_node, free_from, free_list}
use moxt_cpp.SkipList.Heap.{Node, Memory, get_forward, delete, cleared, load}
use moxt_cpp.SkipList.Chain.{Chain, Avoids, Unique, Chain-agree}
use moxt_cpp.SkipList.Cells.{Cell, addresses, addrs-zero}
use moxt_cpp.SkipList.Walk.{column, Slot, get_forward-Slot}
use moxt_cpp.SkipList.Invariant.{Inv, slots_of}
use moxt_cpp.SkipList.Splice.{All-insert, All-drop, Unique-insert}
use moxt_cpp.Prelude.{
  ◌≡◌, refl, sym, ◌∙◌, ap, ◌≢◌, ◌⊎◌, inl, inr, ℕ, zero, suc, ◌<◌, Bool, true, false, none, some,
  List, [], ◌∷◌, ◌++◌, append-nil, All, length, arith, ◌==◌,
}
use moxt_cpp.Prelude.Int.{ℤ, pos}
use moxt_cpp.Prelude.Outcome.{Outcome, ok, ◌>>=◌}
use moxt_cpp.Prelude.Put.{assign_there, put_here, put_there}

-- The nodes of a list are freed, and no others.
record Freed (m m' : Memory) (cs : List ℕ) : Type 0 where
  freed : All (λ a. m'.nodes a ≡ none) cs
  kept : (a : ℕ) → Avoids a cs → m'.nodes a ≡ m.nodes a

delete_live : (p : ℕ) (m : Memory) (n : Node) → m.nodes p ≡ some n → delete p m ≡ ok (cleared p m)
unfolding delete load
delete_live p m n e = rw e refl

module _ (p : ℕ) (m : Memory) where
  cleared_here : (cleared p m).nodes p ≡ none
  unfolding cleared
  cleared_here = put_here p p none m.nodes refl

  cleared_there : (a : ℕ) → p ≢ a → (cleared p m).nodes a ≡ m.nodes a
  unfolding cleared
  cleared_there a n = put_there p a none m.nodes n

  column-cleared : (i a : ℕ) → p ≢ a → column (cleared p m) i a ≡ column m i a
  unfolding cleared
  column-cleared i a n = ap (λ f. f i) (assign_there p a (λ j. none) m.arrays n)

  cleared_columns :
      (i : ℕ) (cs : List ℕ) → Avoids p cs → All (λ a. column (cleared p m) i a ≡ column m i a) cs
  cleared_columns i [] h = tt
  cleared_columns i (c ∷ cs) (h, hs) = (column-cleared i c h, cleared_columns i cs hs)

  cleared_slots :
      (i : ℕ) (cs : List ℕ) → Avoids p cs → All (Slot m i) cs → All (Slot (cleared p m) i) cs
  cleared_slots i [] h s = tt
  cleared_slots i (c ∷ cs) (h, hs) ((n, e, l), ss) =
      ((n, cleared_there c h ∙ e, l), cleared_slots i cs hs ss)

module _ (footer : ℕ) where
  on_node : ℕ → ℕ → Memory → Bool → Outcome Memory
  on_node fuel p m b = elim b as (λ b. Outcome Memory) [
    | true ↦ delete p m
    | false ↦ do q ← get_forward p 0 m; m' ← delete p m; free_from fuel footer q m'
  ]

  at_node :
      (fuel p : ℕ) (m : Memory) → free_from (suc fuel) footer p m ≡ on_node fuel p m (p == footer)
  unfolding free_from on_node
  at_node fuel p m = refl

  at_footer :
      (fuel : ℕ) (m : Memory)
      → Slot m 0 footer
      → free_from (suc fuel) footer footer m ≡ ok (cleared footer m)
  unfolding on_node
  at_footer fuel m (n, e, _) =
      let t : (footer == footer) ≡ true = ground arith in
      at_node fuel footer m ∙ ap (on_node fuel footer m) t ∙ delete_live footer m n e

  past_node :
      (fuel p q : ℕ) (m : Memory)
      → p ≢ footer
      → Slot m 0 p
      → column m 0 p ≡ some q
      → free_from (suc fuel) footer p m ≡ free_from fuel footer q (cleared p m)
  unfolding on_node
  past_node fuel p q m d (n, e, l) c =
      let t : (p == footer) ≡ false = ground (arith, d) in
      at_node fuel p m
      ∙ ap (on_node fuel p m) t
      ∙ rw (get_forward-Slot m 0 p q (n, e, l) c, delete_live p m n e) refl

  Freed-more :
      (p : ℕ) (m m' : Memory) (cs : List ℕ)
      → Avoids p cs
      → Freed (cleared p m) m' cs
      → Freed m m' (p ∷ cs)
  Freed-more p m m' cs a r = record {
    freed = (r.kept p a ∙ cleared_here p m, r.freed);
    kept = λ b n. r.kept b n.1 ∙ cleared_there p m b (λ e. n.0 (sym e));
  }

  Freed-footer : (m : Memory) → Freed m (cleared footer m) (footer ∷ [])
  Freed-footer m = record {
    freed = (cleared_here footer m, tt);
    kept = λ b n. cleared_there footer m b (λ e. n.0 (sym e));
  }

  -- The walk from a node frees the node, those behind it, and the footer.
  free_from-Freed :
      (fuel p : ℕ) (cs : List ℕ) (m : Memory)
      → Chain (column m 0) p cs footer
      → All (Slot m 0) (p ∷ (cs ++ footer ∷ []))
      → Unique (p ∷ (cs ++ footer ∷ []))
      → suc (length cs) < fuel
      → (m' : Memory) × (free_from fuel footer p m ≡ ok m') × Freed m m' (p ∷ (cs ++ footer ∷ []))
  free_from-Freed zero p cs m h s u l = absurd (omega arith)
  free_from-Freed (suc zero) p cs m h s u l = absurd (omega arith)
  free_from-Freed (suc (suc fuel)) p [] m h (s, (f, _)) (a, u) l = (
    cleared footer (cleared p m),
    past_node (suc fuel) p footer m a.0 s h
        ∙ at_footer fuel (cleared p m) (cleared_slots p m 0 (footer ∷ []) a (f, tt)).0,
    Freed-more p m (cleared footer (cleared p m)) (footer ∷ []) a (Freed-footer (cleared p m)),
  )
  free_from-Freed (suc (suc fuel)) p (c ∷ cs) m (h, hs) (s, ss) (a, u) l =
      let b = All-drop (λ b. p ≢ b) footer (c ∷ cs) [] a in
      let (m', e, r) =
        free_from-Freed (suc fuel) c cs (cleared p m)
          (Chain-agree (column m 0) (column (cleared p m) 0) c footer cs hs
            (cleared_columns p m 0 (c ∷ cs) (subst (Avoids p) (append-nil (c ∷ cs)) b.1)))
          (cleared_slots p m 0 (c ∷ (cs ++ footer ∷ [])) a ss) u (omega arith) in
      (m', past_node (suc fuel) p c m b.0 s h ∙ e, Freed-more p m m' (c ∷ (cs ++ footer ∷ [])) a r)

-- Everything that holds of a list's members, or the list avoids the number.
member_or_Avoids : (a : ℕ) (cs : List ℕ) → Avoids a cs ⊎ ((P : ℕ → Type 0) → All P cs → P a)
member_or_Avoids a [] = inl tt
member_or_Avoids a (c ∷ cs) = elim (ℕ_discrete a c) [
  | yes e ↦ inr (λ P h. subst P (sym e) h.0)
  | no n ↦ elim (member_or_Avoids a cs) [ inl h ↦ inl (n, h) | inr f ↦ inr (λ P h. f P h.1) ]
]

rotate : (P : ℕ → Type 0) (f h : ℕ) (cs : List ℕ) → All P (f ∷ h ∷ cs) → All P (h ∷ (cs ++ f ∷ []))
rotate P f h cs (p, (q, r)) = (q, All-insert P f cs [] p (subst (All P) (sym (append-nil cs)) r))

rotate_back :
    (P : ℕ → Type 0) (f h : ℕ) (cs : List ℕ) → All P (h ∷ (cs ++ f ∷ [])) → All P (f ∷ h ∷ cs)
rotate_back P f h cs (q, r) =
    let d = All-drop P f cs [] r in (d.0, (q, subst (All P) (append-nil cs) d.1))

length-addresses : (cs : List Cell) → length (addresses cs) ≡ length cs
length-addresses [] = refl
length-addresses (c ∷ cs) = ap suc (length-addresses cs)

rotate_Unique : (f h : ℕ) (cs : List ℕ) → Unique (f ∷ h ∷ cs) → Unique (h ∷ (cs ++ f ∷ []))
rotate_Unique f h cs (a, u) =
    Unique-insert f (h ∷ cs) [] (subst Unique (sym (append-nil (h ∷ cs))) u)
      (subst (Avoids f) (sym (append-nil (h ∷ cs))) a)

-- In a list in order, the destructor returns, and no node of the list's memory is left.
pub free_list-empty :
    (s : SkipList) (bound : ℤ) (cs : List Cell)
    → Inv s bound cs
    → (m : Memory) × (free_list s ≡ ok m) × ((a : ℕ) → m.nodes a ≡ none)
unfolding free_list
free_list-empty s bound cs v =
    let slots : All (Slot s.memory 0) (s.footer ∷ s.header ∷ addresses cs) = (
      (bare_node 0 bound, v.footer_node, omega arith),
      (
        (bare_node max_level (pos 0), v.header_node, omega arith),
        subst (All (Slot s.memory 0)) (addrs-zero cs)
            (slots_of s bound (pos 0) [] cs v 0 cs v.holds v.heights),
      ),
    ) in
    let (m, e, r) =
      free_from-Freed s.footer (suc (suc s.node_count)) s.header (addresses cs) s.memory
        (subst (λ l. Chain (column s.memory 0) s.header l s.footer) (addrs-zero cs)
          (v.chains 0 (omega arith)))
        (rotate (Slot s.memory 0) s.footer s.header (addresses cs) slots)
        (rotate_Unique s.footer s.header (addresses cs) v.unique)
        (omega (arith, v.count, length-addresses cs)) in
    (
      m,
      e,
      λ a. elim (member_or_Avoids a (s.footer ∷ s.header ∷ addresses cs)) [
        | inl n ↦ r.kept a (rotate (λ b. a ≢ b) s.footer s.header (addresses cs) n) ∙ v.owned a n
        | inr f ↦
            f (λ b. m.nodes b ≡ none)
              (rotate_back (λ b. m.nodes b ≡ none) s.footer s.header (addresses cs) r.freed)
      ],
    )
