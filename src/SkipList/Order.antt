-- ===== src/SkipList/Order.antt =====
-- moxt/skiplist/skiplist.hpp: the order of the keys, forward or backward, and the nodes of a sorted
-- list on both sides of a key.
use moxt_cpp.SkipList.{precedes}
use moxt_cpp.SkipList.Cells.{Cell}
use moxt_cpp.Prelude.{
  ◌≡◌, refl, ap, Bool, true, false, List, [], ◌∷◌, ◌++◌, All, arith, inl, inr, Bool-cases,
}
use moxt_cpp.Prelude.Int.{ℤ, ltb_ℤ, eqb_ℤ, eq_of_parts}

ltb_ℤ-trans : (a b c : ℤ) → ltb_ℤ a b ≡ true → ltb_ℤ b c ≡ true → ltb_ℤ a c ≡ true
ltb_ℤ-trans a b c h k = ground arith

ltb_ℤ-later : (a b t : ℤ) → ltb_ℤ a b ≡ true → ltb_ℤ a t ≡ false → ltb_ℤ b t ≡ false
ltb_ℤ-later a b t h k = ground arith

ltb_ℤ-earlier : (a b t : ℤ) → ltb_ℤ b a ≡ true → ltb_ℤ t a ≡ false → ltb_ℤ t b ≡ false
ltb_ℤ-earlier a b t h k = ground arith

module _ (fwd : Bool) where
  pub precedes_trans :
      (a b c : ℤ) → precedes fwd a b ≡ true → precedes fwd b c ≡ true → precedes fwd a c ≡ true
  unfolding precedes
  precedes_trans a b c h k =
      elim fwd as (λ d. precedes d a b ≡ true → precedes d b c ≡ true → precedes d a c ≡ true) [
        | true ↦ ltb_ℤ-trans a b c
        | false ↦ λ p q. ltb_ℤ-trans c b a q p
      ]
        h k

  -- What follows a key that is not before `t` is not before `t`.
  pub precedes_later :
      (a b t : ℤ) → precedes fwd a b ≡ true → precedes fwd a t ≡ false → precedes fwd b t ≡ false
  unfolding precedes
  precedes_later a b t h k =
      elim fwd as (λ d. precedes d a b ≡ true → precedes d a t ≡ false → precedes d b t ≡ false) [
        | true ↦ ltb_ℤ-later a b t
        | false ↦ ltb_ℤ-earlier a b t
      ]
        h k

  pub precedes_self : (a : ℤ) → precedes fwd a a ≡ false
  unfolding precedes
  precedes_self a = elim fwd as (λ d. precedes d a a ≡ false) [
    | true ↦ ground arith
    | false ↦ ground arith
  ]

  pub precedes_back : (a b : ℤ) → precedes fwd a b ≡ true → precedes fwd b a ≡ false
  unfolding precedes
  precedes_back a b h =
      elim fwd as (λ d. precedes d a b ≡ true → precedes d b a ≡ false) [
        | true ↦ λ p. ground arith
        | false ↦ λ p. ground arith
      ]
        h

  -- A key that is neither before `t` nor `t` is behind it.
  pub precedes_other :
      (a t : ℤ) → precedes fwd a t ≡ false → eqb_ℤ a t ≡ false → precedes fwd t a ≡ true
  unfolding precedes
  precedes_other a t h n =
      elim fwd as (λ d. precedes d a t ≡ false → precedes d t a ≡ true) [
        | true ↦ λ p. ground arith
        | false ↦ λ p. ground arith
      ]
        h

  pub precedes_ne : (a b : ℤ) → precedes fwd a b ≡ true → eqb_ℤ a b ≡ false
  unfolding precedes
  precedes_ne a b h =
      elim fwd as (λ d. precedes d a b ≡ true → eqb_ℤ a b ≡ false) [
        | true ↦ λ p. ground arith
        | false ↦ λ p. ground arith
      ]
        h

  abbrev pub AllBefore : ℤ → List Cell → Type 0
  AllBefore t = All (λ c. precedes fwd c.key t ≡ true)

  abbrev pub AllAfter : ℤ → List Cell → Type 0
  AllAfter t = All (λ c. precedes fwd c.key t ≡ false)

  abbrev pub Sorted : List Cell → Type 0
  Sorted [] = Unit
  Sorted (c ∷ cs) = All (λ d. precedes fwd c.key d.key ≡ true) cs × Sorted cs

  all_later :
      (a t : ℤ) (cs : List Cell)
      → precedes fwd a t ≡ false
      → All (λ d. precedes fwd a d.key ≡ true) cs
      → AllAfter t cs
  all_later a t [] n h = tt
  all_later a t (c ∷ cs) n (h, hs) = (precedes_later a c.key t h n, all_later a t cs n hs)

  -- Where a key belongs.
  pub record Position (t : ℤ) (cs : List Cell) : Type 0 where
    pub pre : List Cell
    pub post : List Cell
    pub whole : cs ≡ pre ++ post
    pub before : AllBefore t pre
    pub after : AllAfter t post

  pub position : (t : ℤ) (cs : List Cell) → Sorted cs → Position t cs
  position t [] s = record { pre = []; post = []; whole = refl; before = tt; after = tt }
  position t (c ∷ cs) (h, s) = elim (Bool-cases (precedes fwd c.key t)) [
    | inl e ↦
        let p = position t cs s in
        record {
          pre = c ∷ p.pre;
          post = p.post;
          whole = ap (λ l. c ∷ l) p.whole;
          before = (e, p.before);
          after = p.after;
        }
    | inr e ↦ record {
      pre = [];
      post = c ∷ cs;
      whole = refl;
      before = tt;
      after = (e, all_later c.key t cs e h);
    }
  ]

  pub eqb_ℤ-eq : (a b : ℤ) → eqb_ℤ a b ≡ true → a ≡ b
  eqb_ℤ-eq a b h = eq_of_parts a b (ground arith)
