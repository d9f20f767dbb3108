-- ===== src/DataQueue/Stored.antt =====
-- moxt/libthread.cpp: the heap and the ring behind a queue of data hold what it promises.
use mathlib.Core.Option.{some-injective}
use moxt_cpp.Count.{one, one_same}
use moxt_cpp.DataQueue.{Iovec}
use moxt_cpp.WebSocket.Events.{remove_at}
use moxt_cpp.Prelude.{
  ◌≡◌, refl, sym, ◌∙◌, ap, ℕ, zero, suc, ◌+◌, Option, none, some, List, [], ◌∷◌, ◌++◌, Bytes,
  length, get_elem?, inl, inr, ◌⊎◌, arith,
}
use moxt_cpp.Prelude.Put.{put, put_there}

-- Each entry points to a block of its length.
abbrev pub Stored : (ℕ → Option Bytes) → List Iovec → List Bytes → Type 0
Stored f [] [] = Unit
Stored f [] (b ∷ bs) = ⊥
Stored f (i ∷ is) [] = ⊥
Stored f (i ∷ is) (b ∷ bs) = (f i.iov_base ≡ some b) × (length b ≡ i.iov_len) × Stored f is bs

-- How many entries point to `c`.
abbrev pub uses : ℕ → List Iovec → ℕ
uses c [] = 0
uses c (i ∷ is) = one i.iov_base c + uses c is

pub uses-snoc :
    (c : ℕ) (i : Iovec) (is : List Iovec) → uses c (is ++ i ∷ []) ≡ uses c is + one i.iov_base c
uses-snoc c i [] = omega arith
uses-snoc c i (j ∷ is) = omega (arith, uses-snoc c i is)

pub uses-remove_at :
    (c n : ℕ) (i : Iovec) (is : List Iovec)
    → get_elem? is n ≡ some i
    → uses c is ≡ one i.iov_base c + uses c (remove_at n is)
unfolding remove_at
uses-remove_at c n i [] e = absurd cc
uses-remove_at c zero i (j ∷ is) e = ap (λ z. one z.iov_base c + uses c is) (some-injective j i e)
uses-remove_at c (suc n) i (j ∷ is) e = omega (arith, uses-remove_at c n i is e)

module _ (f : ℕ → Option Bytes) where
  pub Stored-length : (is : List Iovec) (bs : List Bytes) → Stored f is bs → length is ≡ length bs
  Stored-length [] [] h = refl
  Stored-length [] (b ∷ bs) h = absurd h
  Stored-length (i ∷ is) [] h = absurd h
  Stored-length (i ∷ is) (b ∷ bs) (e, l, h) = ap suc (Stored-length is bs h)

  pub Stored-snoc :
      (is : List Iovec) (bs : List Bytes) (i : Iovec) (b : Bytes)
      → Stored f is bs
      → f i.iov_base ≡ some b
      → length b ≡ i.iov_len
      → Stored f (is ++ i ∷ []) (bs ++ b ∷ [])
  Stored-snoc [] [] i b h e l = (e, l, tt)
  Stored-snoc [] (c ∷ bs) i b h e l = absurd h
  Stored-snoc (j ∷ is) [] i b h e l = absurd h
  Stored-snoc (j ∷ is) (c ∷ bs) i b (d, m, h) e l = (d, m, Stored-snoc is bs i b h e l)

  -- A block that no entry points to may go.
  pub Stored-put :
      (k : ℕ) (o : Option Bytes) (is : List Iovec) (bs : List Bytes)
      → uses k is ≡ 0
      → Stored f is bs
      → Stored (put k o f) is bs
  Stored-put k o [] [] u h = h
  Stored-put k o [] (b ∷ bs) u h = h
  Stored-put k o (i ∷ is) [] u h = h
  Stored-put k o (i ∷ is) (b ∷ bs) u (e, l, h) = (
    put_there k i.iov_base o f (λ d. absurd (omega (arith, one_same i.iov_base k (sym d)))) ∙ e,
    l,
    Stored-put k o is bs (omega arith) h,
  )

  -- What stands at a place of both lists.
  pub record Placed (is : List Iovec) (bs : List Bytes) (n : ℕ) : Type 0 where
    pub entry : Iovec
    pub block : Bytes
    pub at_entry : get_elem? is n ≡ some entry
    pub at_block : get_elem? bs n ≡ some block
    pub points : f entry.iov_base ≡ some block
    pub measures : length block ≡ entry.iov_len

  pub Stored-place :
      (n : ℕ) (is : List Iovec) (bs : List Bytes)
      → Stored f is bs
      → ((get_elem? is n ≡ none) × (get_elem? bs n ≡ none)) ⊎ Placed is bs n
  Stored-place n [] [] h = inl (refl, refl)
  Stored-place n [] (b ∷ bs) h = absurd h
  Stored-place n (i ∷ is) [] h = absurd h
  Stored-place zero (i ∷ is) (b ∷ bs) (e, l, h) =
      inr (record {
        entry = i;
        block = b;
        at_entry = refl;
        at_block = refl;
        points = e;
        measures = l;
      })
  Stored-place (suc n) (i ∷ is) (b ∷ bs) (e, l, h) = elim (Stored-place n is bs h) [
    | inl o ↦ inl o
    | inr p ↦ inr (record {
      entry = p.entry;
      block = p.block;
      at_entry = p.at_entry;
      at_block = p.at_block;
      points = p.points;
      measures = p.measures;
    })
  ]

  pub Stored-remove_at :
      (n : ℕ) (is : List Iovec) (bs : List Bytes)
      → Stored f is bs
      → Stored f (remove_at n is) (remove_at n bs)
  unfolding remove_at
  Stored-remove_at n [] [] h = h
  Stored-remove_at n [] (b ∷ bs) h = absurd h
  Stored-remove_at n (i ∷ is) [] h = absurd h
  Stored-remove_at zero (i ∷ is) (b ∷ bs) (e, l, h) = h
  Stored-remove_at (suc n) (i ∷ is) (b ∷ bs) (e, l, h) = (e, l, Stored-remove_at n is bs h)
