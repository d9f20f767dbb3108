-- ===== src/Queue.antt =====
-- What moxt/utils/spscqueue_safe.hpp uses of rigtorp::SPSCQueue, and moxt/libthread.cpp of photon's
-- LockfreeSPSCRingQueue, with their documented behaviour: a bounded queue, first in, first out, for
-- one thread at each end. `push` gives `none` where the queue has no room; rigtorp's then tries again
-- and photon's returns false.
use mathlib.Core.Option.{some-injective}
use moxt_cpp.Prelude.{
  ap, ℕ, ◌≤◌, ◌<◌, ◌≡◌, refl, Option, none, some, List, [], ◌∷◌, ◌++◌, length, length-append, arith,
}
use native.Mathlib.Decide.{dec_lt}

abbrev pub head {ℓ} : {A : Type ℓ} → List A → Option A
head [] = none
head (x ∷ xs) = some x

abbrev pub tail {ℓ} : {A : Type ℓ} → List A → List A
tail [] = []
tail (x ∷ xs) = xs

module _ {ℓ} {A : Type ℓ} where
  pub head-none : (xs : List A) → head xs ≡ none → xs ≡ []
  head-none [] e = refl
  head-none (x ∷ xs) e = absurd cc

  pub head-some : (xs : List A) (x : A) → head xs ≡ some x → xs ≡ x ∷ tail xs
  head-some [] x e = absurd cc
  head-some (y ∷ xs) x e = ap (λ z. z ∷ xs) (some-injective y x e)

pub record Queue (A : Type 0) : Type 1 where
  pub Ring : Type 0
  pub make : ℕ → Ring
  pub push : Ring → A → Option Ring
  pub front : Ring → Option A
  pub pop : Ring → Ring
  pub capacity : Ring → ℕ
  -- the elements, the front first
  pub items : Ring → List A
  pub items-make : (n : ℕ) → items (make n) ≡ []
  pub capacity-make : (n : ℕ) → capacity (make n) ≡ n
  pub within : (r : Ring) → length (items r) ≤ capacity r
  pub push_room :
      (r : Ring) (v : A)
      → length (items r) < capacity r
      → (s : Ring) × (push r v ≡ some s) × (items s ≡ items r ++ v ∷ []) × (capacity s ≡ capacity r)
  pub push_full : (r : Ring) (v : A) → length (items r) ≡ capacity r → push r v ≡ none
  pub front-items : (r : Ring) → front r ≡ head (items r)
  pub items-pop : (r : Ring) → items (pop r) ≡ tail (items r)
  pub capacity-pop : (r : Ring) → capacity (pop r) ≡ capacity r

-- A list bounded by a capacity, as an instance.
pub record Bounded (A : Type 0) : Type 0 where
  pub cap : ℕ
  pub held : List A
  pub fits : length held ≤ cap

module _ {A : Type 0} where
  pub length-tail : (xs : List A) (n : ℕ) → length xs ≤ n → length (tail xs) ≤ n
  length-tail [] n h = h
  length-tail (x ∷ xs) n h = omega arith

  pub length-snoc : (xs : List A) (v : A) (n : ℕ) → length xs < n → length (xs ++ v ∷ []) ≤ n
  length-snoc xs v n h = omega (arith, length-append xs (v ∷ []))

  abbrev pub grown : (b : Bounded A) (v : A) → length b.held < b.cap → Bounded A
  grown b v h = record { cap = b.cap; held = b.held ++ v ∷ []; fits = length-snoc b.held v b.cap h }

  abbrev pub offered : (b : Bounded A) → A → Dec (length b.held < b.cap) → Option (Bounded A)
  offered b v (yes h) = some (grown b v h)
  offered b v (no n) = none

  abbrev pub offer : Bounded A → A → Option (Bounded A)
  offer b v = offered b v (dec_lt (length b.held) b.cap)

  pub offered_room :
      (b : Bounded A) (v : A) (d : Dec (length b.held < b.cap))
      → length b.held < b.cap
      → (s : Bounded A) × (offered b v d ≡ some s) × (s.held ≡ b.held ++ v ∷ []) × (s.cap ≡ b.cap)
  offered_room b v (yes h) l = (grown b v h, refl, refl, refl)
  offered_room b v (no n) l = absurd (n l)

  pub offered_full :
      (b : Bounded A) (v : A) (d : Dec (length b.held < b.cap))
      → length b.held ≡ b.cap
      → offered b v d ≡ none
  offered_full b v (yes h) e = absurd (omega arith)
  offered_full b v (no n) e = refl

abbrev pub bounded : (A : Type 0) → Queue A
bounded A = record {
  Ring = Bounded A;
  make = λ n. record { cap = n; held = []; fits = omega arith };
  push = offer;
  front = λ b. head b.held;
  pop = λ b. record { cap = b.cap; held = tail b.held; fits = length-tail b.held b.cap b.fits };
  capacity = λ b. b.cap;
  items = λ b. b.held;
  items-make = λ n. refl;
  capacity-make = λ n. refl;
  within = λ b. b.fits;
  push_room = λ b v h. offered_room b v (dec_lt (length b.held) b.cap) h;
  push_full = λ b v e. offered_full b v (dec_lt (length b.held) b.cap) e;
  front-items = λ b. refl;
  items-pop = λ b. refl;
  capacity-pop = λ b. refl;
}
