-- ===== src/SkipList/Splice.antt =====
-- moxt/skiplist/skiplist.hpp: a node put into the middle of a list of cells, and taken out of it.
use mathlib.Core.Path.{subst}
use moxt_cpp.SkipList.{SkipList, precedes}
use moxt_cpp.SkipList.Invariant.{Inv, Holds}
use moxt_cpp.Prelude.Int.{ℤ}
use moxt_cpp.SkipList.Chain.{Avoids, Unique}
use moxt_cpp.SkipList.Cells.{Cell, addrs, addresses, addrs-append}
use moxt_cpp.SkipList.Order.{AllBefore, Sorted}
use moxt_cpp.Prelude.{
  ◌≡◌, refl, sym, ◌∙◌, ap, ◌≢◌, ℕ, suc, ◌≤◌, ◌<◌, Bool, true, false, List, [], ◌∷◌, ◌++◌, All, leb,
  length, arith,
}

module _ {A : Type 0} (P : A → Type 0) where
  pub All-insert : (c : A) (a b : List A) → P c → All P (a ++ b) → All P (a ++ c ∷ b)
  All-insert c [] b p h = (p, h)
  All-insert c (x ∷ a) b p (h, hs) = (h, All-insert c a b p hs)

  pub All-drop : (c : A) (a b : List A) → All P (a ++ c ∷ b) → P c × All P (a ++ b)
  All-drop c [] b h = h
  All-drop c (x ∷ a) b (h, hs) = let r = All-drop c a b hs in (r.0, (h, r.1))

pub addresses-append : (a b : List Cell) → addresses (a ++ b) ≡ addresses a ++ addresses b
addresses-append [] b = refl
addresses-append (c ∷ a) b = ap (λ l. c.addr ∷ l) (addresses-append a b)

pub Unique-insert :
    (n : ℕ) (a b : List ℕ) → Unique (a ++ b) → Avoids n (a ++ b) → Unique (a ++ n ∷ b)
Unique-insert n [] b u v = (v, u)
Unique-insert n (x ∷ a) b (u, us) (v, vs) =
    (All-insert (λ c. x ≢ c) n a b (λ e. v (sym e)) u, Unique-insert n a b us vs)

pub Unique-drop : (n : ℕ) (a b : List ℕ) → Unique (a ++ n ∷ b) → Unique (a ++ b)
Unique-drop n [] b (_, u) = u
Unique-drop n (x ∷ a) b (u, us) = ((All-drop (λ c. x ≢ c) n a b u).1, Unique-drop n a b us)

-- A node of a list without repetition is no other one of it.
pub Unique-Avoids : (n : ℕ) (a b : List ℕ) → Unique (a ++ n ∷ b) → Avoids n (a ++ b)
Unique-Avoids n [] b (v, _) = v
Unique-Avoids n (x ∷ a) b (u, us) =
    (λ e. (All-drop (λ c. x ≢ c) n a b u).0 (sym e), Unique-Avoids n a b us)

pub fresh-Avoids : (n : ℕ) (cs : List ℕ) → All (λ a. a < n) cs → Avoids n cs
fresh-Avoids n [] h = tt
fresh-Avoids n (c ∷ cs) (h, hs) = (omega arith, fresh-Avoids n cs hs)

module _ (fwd : Bool) where
  pub Sorted-insert :
      (c : Cell) (a b : List Cell)
      → AllBefore fwd c.key a
      → All (λ d. precedes fwd c.key d.key ≡ true) b
      → Sorted fwd (a ++ b)
      → Sorted fwd (a ++ c ∷ b)
  Sorted-insert c [] b p q s = (q, s)
  Sorted-insert c (x ∷ a) b (p, ps) q (s, ss) =
      (All-insert (λ d. precedes fwd x.key d.key ≡ true) c a b p s, Sorted-insert c a b ps q ss)

  pub Sorted-drop : (c : Cell) (a b : List Cell) → Sorted fwd (a ++ c ∷ b) → Sorted fwd (a ++ b)
  Sorted-drop c [] b (_, s) = s
  Sorted-drop c (x ∷ a) b (s, ss) =
      ((All-drop (λ d. precedes fwd x.key d.key ≡ true) c a b s).1, Sorted-drop c a b ss)

pub length-insert : (c : Cell) (a b : List Cell) → length (a ++ c ∷ b) ≡ suc (length (a ++ b))
length-insert c [] b = refl
length-insert c (x ∷ a) b = ap suc (length-insert c a b)

module _ (i : ℕ) (c : Cell) (a b : List Cell) where
  -- A level up to the node's height links it; the others pass it by.
  pub addrs_in : i ≤ c.height → addrs i (a ++ c ∷ b) ≡ addrs i a ++ c.addr ∷ addrs i b
  unfolding addrs
  addrs_in h = let e : leb i c.height ≡ true = ground arith in addrs-append i a (c ∷ b) ∙ rw e refl

  pub addrs_out : c.height < i → addrs i (a ++ c ∷ b) ≡ addrs i (a ++ b)
  unfolding addrs
  addrs_out h =
      let e : leb i c.height ≡ false = ground arith in
      addrs-append i a (c ∷ b) ∙ rw (e, addrs-append i a b) refl

-- A node of a list in order: what it holds, and that no other node has its address.
module _ (s : SkipList) (bound : ℤ) (pre : List Cell) (c : Cell) (post : List Cell)
    (v : Inv s bound (pre ++ c ∷ post)) where
  pub cell_here : Holds s.memory c
  cell_here = (All-drop (Holds s.memory) c pre post v.holds).0

  pub cell_apart : Avoids c.addr (s.footer ∷ s.header ∷ addresses (pre ++ post))
  cell_apart =
      subst (λ l. Avoids c.addr (s.footer ∷ s.header ∷ l)) (sym (addresses-append pre post))
        (Unique-Avoids c.addr (s.footer ∷ s.header ∷ addresses pre) (addresses post) (
          subst (λ l. Unique (s.footer ∷ s.header ∷ l)) (addresses-append pre (c ∷ post)) v.unique))
