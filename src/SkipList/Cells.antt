-- ===== src/SkipList/Cells.antt =====
-- moxt/skiplist/skiplist.hpp: the nodes of a list in the order of their keys, and those of them
-- that a level links.
use moxt_cpp.SkipList.Chain.{last, Avoids, Unique}
use moxt_cpp.Prelude.{
  ◌≡◌, refl, ap, ℕ, suc, ◌≤◌, ◌<◌, true, false, List, [], ◌∷◌, ◌++◌, All, leb, if◌then◌else◌,
  length, arith, inl, inr, Bool-cases,
}
use moxt_cpp.Prelude.Int.{ℤ}

pub record Cell : Type 0 where
  pub addr : ℕ
  pub key : ℤ
  pub value : ℤ
  pub height : ℕ

abbrev pub addresses : List Cell → List ℕ
addresses [] = []
addresses (c ∷ cs) = c.addr ∷ addresses cs

-- The nodes that level `i` links.
unfoldable pub addrs : ℕ → List Cell → List ℕ
addrs i [] = []
addrs i (c ∷ cs) = if leb i c.height then c.addr ∷ addrs i cs else addrs i cs

pub addrs-append : (i : ℕ) (a b : List Cell) → addrs i (a ++ b) ≡ addrs i a ++ addrs i b
unfolding addrs
addrs-append i [] b = refl
addrs-append i (c ∷ a) b = elim (Bool-cases (leb i c.height)) [
  | inl e ↦ rw (e, addrs-append i a b) refl
  | inr e ↦ rw (e, addrs-append i a b) refl
]

pub addrs-zero : (cs : List Cell) → addrs 0 cs ≡ addresses cs
unfolding addrs
addrs-zero [] = refl
addrs-zero (c ∷ cs) =
    let e : leb 0 c.height ≡ true = ground arith in rw e (ap (λ t. c.addr ∷ t) (addrs-zero cs))

pub addrs_none : (i : ℕ) (cs : List Cell) → All (λ c. c.height < i) cs → addrs i cs ≡ []
unfolding addrs
addrs_none i [] h = refl
addrs_none i (c ∷ cs) (h, hs) =
    let e : leb i c.height ≡ false = ground arith in rw e (addrs_none i cs hs)

pub length-addrs : (i : ℕ) (cs : List Cell) → length (addrs i cs) ≤ length cs
unfolding addrs
length-addrs i [] = omega arith
length-addrs i (c ∷ cs) = ground (arith, length-addrs i cs)

module _ (P : ℕ → Type 0) where
  -- What holds of all nodes that reach a level holds of those that it links.
  pub All-addrs :
      (i : ℕ) (cs : List Cell) → All (λ c. i ≤ c.height → P c.addr) cs → All P (addrs i cs)
  unfolding addrs
  All-addrs i [] h = tt
  All-addrs i (c ∷ cs) (h, hs) = elim (Bool-cases (leb i c.height)) [
    | inl e ↦ rw e (h (ground arith), All-addrs i cs hs)
    | inr e ↦ rw e (All-addrs i cs hs)
  ]

  pub All-suffix : (a b : List ℕ) → All P (a ++ b) → All P b
  All-suffix [] b h = h
  All-suffix (x ∷ a) b (_, h) = All-suffix a b h

  pub All-prefix : (a b : List ℕ) → All P (a ++ b) → All P a
  All-prefix [] b h = tt
  All-prefix (x ∷ a) b (h, hs) = (h, All-prefix a b hs)

  pub All-last : (x : ℕ) (a b : List ℕ) → All P (x ∷ (a ++ b)) → All P (last x a ∷ b)
  All-last x [] b h = h
  All-last x (c ∷ a) b (_, h) = All-last c a b h

pub Avoids-addrs : (a i : ℕ) (cs : List Cell) → Avoids a (addresses cs) → Avoids a (addrs i cs)
unfolding addrs
Avoids-addrs a i [] h = tt
Avoids-addrs a i (c ∷ cs) (h, hs) = elim (Bool-cases (leb i c.height)) [
  | inl e ↦ rw e (h, Avoids-addrs a i cs hs)
  | inr e ↦ rw e (Avoids-addrs a i cs hs)
]

pub Unique-addrs : (i : ℕ) (cs : List Cell) → Unique (addresses cs) → Unique (addrs i cs)
unfolding addrs
Unique-addrs i [] h = tt
Unique-addrs i (c ∷ cs) (h, hs) = elim (Bool-cases (leb i c.height)) [
  | inl e ↦ rw e (Avoids-addrs c.addr i cs h, Unique-addrs i cs hs)
  | inr e ↦ rw e (Unique-addrs i cs hs)
]

pub last-append : (x : ℕ) (a b : List ℕ) → last x (a ++ b) ≡ last (last x a) b
last-append x [] b = refl
last-append x (c ∷ a) b = last-append c a b

-- The last node of a level is on the chain of the level below.
pub record Below (x i : ℕ) (cs : List Cell) : Type 0 where
  pub front : List ℕ
  pub back : List ℕ
  pub whole : addrs i cs ≡ front ++ back
  pub joint : last x front ≡ last x (addrs (suc i) cs)

-- A node of level `i` that does not reach the next level.
Below-low :
    (x y i : ℕ) (cs : List Cell)
    → Below x i cs
    → (l : List ℕ) × (r : List ℕ) × (y ∷ addrs i cs ≡ l ++ r)
      × (last x l ≡ last x (addrs (suc i) cs))
Below-low x y i cs d =
    elim d.front
        as (λ f.
          (addrs i cs ≡ f ++ d.back)
          → (last x f ≡ last x (addrs (suc i) cs))
          → (l : List ℕ) × (r : List ℕ) × (y ∷ addrs i cs ≡ l ++ r)
            × (last x l ≡ last x (addrs (suc i) cs))) [
              | [] ↦ λ w j. ([], y ∷ addrs i cs, refl, j)
              | z ∷ f ↦ λ w j. (y ∷ z ∷ f, d.back, ap (λ t. y ∷ t) w, j)
            ]
      d.whole d.joint

pub below : (x i : ℕ) (cs : List Cell) → Below x i cs
unfolding addrs
below x i [] = record { front = []; back = []; whole = refl; joint = refl }
below x i (c ∷ cs) = elim (Bool-cases (leb (suc i) c.height)) [
  | inl e ↦
      let d = below c.addr i cs in
      let e' : leb i c.height ≡ true = ground arith in
      record {
        front = c.addr ∷ d.front;
        back = d.back;
        whole = rw e' (ap (λ t. c.addr ∷ t) d.whole);
        joint = rw e d.joint;
      }
  | inr e ↦ elim (Bool-cases (leb i c.height)) [
    | inl e' ↦
        let r = Below-low x c.addr i cs (below x i cs) in
        record { front = r.0; back = r.1; whole = rw e' r.2; joint = rw e r.3 }
    | inr e' ↦
        let d = below x i cs in
        record { front = d.front; back = d.back; whole = rw e' d.whole; joint = rw e d.joint }
  ]
]
