-- ===== src/SkipList/Walk.antt =====
-- moxt/skiplist/skiplist.hpp: where the loops of `search`, `insert` and `remove` end up.
use moxt_cpp.SkipList.{precedes, walk, descend, descend_only, Update, set_update, max_level}
use moxt_cpp.SkipList.Heap.{Node, Memory, load, get_key, get_forward}
use moxt_cpp.SkipList.Chain.{Chain, last, first_or, Chain-suffix, Chain-first}
use moxt_cpp.SkipList.Cells.{Cell, addrs, All-suffix, All-prefix, All-last, below, last-append}
use native.Mathlib.Decide.{ℕ_discrete}
use mathlib.Core.Path.{subst}
use moxt_cpp.Prelude.{
  ◌≡◌, refl, sym, ◌∙◌, ap, ℕ, zero, suc, ◌≤◌, ◌<◌, Bool, true, false, Option, some, List, [], ◌∷◌,
  ◌++◌, All, length, length-append, append_assoc, arith, ltb,
}
use moxt_cpp.Prelude.Int.{ℤ}
use moxt_cpp.Prelude.Outcome.{Outcome, ok}
use moxt_cpp.Prelude.Put.{put, put_here, put_there}

abbrev pub column : Memory → ℕ → ℕ → Option ℕ
column m i a = m.arrays a i

-- The node is live and its array has entry `i`.
abbrev pub Slot : Memory → ℕ → ℕ → Type 0
Slot m i a = (n : Node) × (m.nodes a ≡ some n) × (i < n.slots)

pub get_forward-Slot :
    (m : Memory) (i a b : ℕ) → Slot m i a → column m i a ≡ some b → get_forward a i m ≡ ok b
unfolding get_forward load
get_forward-Slot m i a b (n, e, h) c =
    let l : ltb i n.slots ≡ true = ground arith in rw (e, l, c) refl

-- The key of a live node, with its place to a key.
abbrev pub Placed : Memory → Bool → ℤ → Bool → ℕ → Type 0
Placed m fwd t b a = (k : ℤ) × (get_key a m ≡ ok k) × (precedes fwd k t ≡ b)

module _ (m : Memory) (fwd : Bool) (t : ℤ) (footer : ℕ) where
  pub step_on :
      (fuel i x y : ℕ)
      → Slot m i x
      → column m i x ≡ some y
      → Placed m fwd t true y
      → walk (suc fuel) fwd i x t m ≡ walk fuel fwd i y t m
  unfolding walk
  step_on fuel i x y s c (k, e, p) =
      rw (get_forward-Slot m i x y s c, e)
        (ap (λ b. elim b as (λ _. Outcome ℕ) [ true ↦ walk fuel fwd i y t m | false ↦ ok x ]) p)

  stop_at :
      (fuel i x y : ℕ)
      → Slot m i x
      → column m i x ≡ some y
      → Placed m fwd t false y
      → walk (suc fuel) fwd i x t m ≡ ok x
  unfolding walk
  stop_at fuel i x y s c (k, e, p) =
      rw (get_forward-Slot m i x y s c, e)
        (ap (λ b. elim b as (λ _. Outcome ℕ) [ true ↦ walk fuel fwd i y t m | false ↦ ok x ]) p)

  -- The walk passes the nodes before the key and ends on the last of them.
  pub walk-Chain :
      (i fuel x : ℕ) (pre post : List ℕ)
      → Chain (column m i) x (pre ++ post) footer
      → All (Slot m i) (x ∷ pre)
      → All (Placed m fwd t true) pre
      → Placed m fwd t false (first_or footer post)
      → length pre < fuel
      → walk fuel fwd i x t m ≡ ok (last x pre)
  walk-Chain i zero x pre post h s b a l = absurd (omega arith)
  walk-Chain i (suc fuel) x [] post h (s, _) b a l =
      stop_at fuel i x (first_or footer post) s (Chain-first (column m i) x footer post h) a
  walk-Chain i (suc fuel) x (c ∷ pre) post (h, hs) (s, ss) (b, bs) a l =
      step_on fuel i x c s h b ∙ walk-Chain i fuel c pre post hs ss bs a (omega arith)

pub set_update-put :
    (i x : ℕ) (u : Update) → i < max_level → set_update i x u ≡ ok (put i (some x) u)
unfolding set_update
set_update-put i x u h = let l : ltb i max_level ≡ true = ground arith in rw l refl

-- What the loops need of a list whose nodes are `pre`, before the key, and `post`.
pub record Ready (m : Memory) (fwd : Bool) (t : ℤ) (header footer : ℕ) (fuel : ℕ)
    (pre post : List Cell) : Type 0 where
  pub chains :
      (i : ℕ) → i < max_level → Chain (column m i) header (addrs i pre ++ addrs i post) footer
  pub slots : (i : ℕ) → i < max_level → All (Slot m i) (header ∷ (addrs i pre ++ addrs i post))
  pub before : (i : ℕ) → All (Placed m fwd t true) (addrs i pre)
  pub after : (i : ℕ) → Placed m fwd t false (first_or footer (addrs i post))
  pub enough : (i : ℕ) → length (addrs i pre) < fuel

module _ (m : Memory) (fwd : Bool) (t : ℤ) (header footer fuel : ℕ) (pre post : List Cell)
    (r : Ready m fwd t header footer fuel pre post) where
  walk_from :
      (i : ℕ) (a b : List ℕ)
      → i < max_level
      → addrs i pre ≡ a ++ b
      → walk fuel fwd i (last header a) t m ≡ ok (last header (a ++ b))
  walk_from i a b h w =
      let w' : addrs i pre ++ addrs i post ≡ a ++ (b ++ addrs i post) =
        ap (λ u. u ++ addrs i post) w ∙ append_assoc a b (addrs i post) in
      let s : All (Slot m i) (last header a ∷ (b ++ addrs i post)) =
        All-last (Slot m i) header a (b ++ addrs i post)
          (subst (λ l. All (Slot m i) (header ∷ l)) w' (r.slots i h)) in
      rw (last-append header a b) (
        walk-Chain m fwd t footer i fuel (last header a) b (addrs i post)
          (Chain-suffix (column m i) header footer a (b ++ addrs i post)
            (subst (λ l. Chain (column m i) header l footer) w' (r.chains i h)))
          (s.0, All-prefix (Slot m i) b (addrs i post) s.1)
          (All-suffix (Placed m fwd t true) a b (subst (All (Placed m fwd t true)) w (r.before i)))
          (r.after i) (omega (arith, length-append a b, ap length w, r.enough i)))

  -- On level `i`, from where the level above ended.
  pub walk_level :
      (i : ℕ)
      → i < max_level
      → walk fuel fwd i (last header (addrs (suc i) pre)) t m ≡ ok (last header (addrs i pre))
  walk_level i h =
      let d = below header i pre in rw (← d.joint, d.whole) (walk_from i d.front d.back h d.whole)

  pub descend_only-last :
      (i : ℕ)
      → i < max_level
      → descend_only fuel fwd i (last header (addrs (suc i) pre)) t m
        ≡ ok (last header (addrs 0 pre))
  unfolding descend_only
  descend_only-last zero h = walk_level zero h
  descend_only-last (suc i) h = rw (walk_level (suc i) h) (descend_only-last i (omega arith))

  -- What `update` holds after the loop: on each level the last node before the key.
  pub record Noted (i : ℕ) (u u' : Update) : Type 0 where
    pub noted : (j : ℕ) → j ≤ i → u' j ≡ some (last header (addrs j pre))
    pub above : (j : ℕ) → i < j → u' j ≡ u j

  note_at :
      (i : ℕ) (u : Update)
      → i < max_level
      → set_update i (last header (addrs i pre)) u ≡ ok (put i (some (last header (addrs i pre))) u)
  note_at i u h = set_update-put i (last header (addrs i pre)) u h

  Noted-more :
      (i : ℕ) (u u' : Update)
      → Noted i (put (suc i) (some (last header (addrs (suc i) pre))) u) u'
      → Noted (suc i) u u'
  Noted-more i u u' w = record {
    noted = λ j p. elim (ℕ_discrete j (suc i)) [
      | yes e ↦
          w.above j (omega arith)
          ∙ put_here (suc i) j (some (last header (addrs (suc i) pre))) u (sym e)
          ∙ ap (λ k. some (last header (addrs k pre))) (sym e)
      | no n ↦ w.noted j (omega arith)
    ];
    above = λ j p.
        w.above j (omega arith)
        ∙ put_there (suc i) j (some (last header (addrs (suc i) pre))) u (omega arith);
  }

  pub descend-last :
      (i : ℕ) (u : Update)
      → i < max_level
      → (u' : Update) × (descend fuel fwd i (last header (addrs (suc i) pre)) t m u
          ≡ ok (last header (addrs 0 pre), u'))
        × Noted i u u'
  unfolding descend
  descend-last zero u h = (
    put 0 (some (last header (addrs 0 pre))) u,
    rw (walk_level zero h, note_at zero u h) refl,
    record {
      noted = λ j p.
          let e : 0 ≡ j = omega arith in
          put_here 0 j (some (last header (addrs 0 pre))) u e
          ∙ ap (λ k. some (last header (addrs k pre))) e;
      above = λ j p. put_there 0 j (some (last header (addrs 0 pre))) u (omega arith);
    },
  )
  descend-last (suc i) u h =
      let r =
        descend-last i (put (suc i) (some (last header (addrs (suc i) pre))) u) (omega arith) in
      (r.0, rw (walk_level (suc i) h, note_at (suc i) u h) r.1, Noted-more i u r.0 r.2)
