-- ===== src/RateLimiter/Buffer.antt =====
-- What moxt/utils/c_rate_limiter.hpp uses of the ring buffer baudvine::RingBuf (a copy of another
-- project's library, moxt/utils/cringbuf.hpp), with its documented behaviour: a push at the back
-- takes the front out of a full buffer, and `front` of an empty buffer throws.
use moxt_cpp.Prelude.{
  ℕ, ◌≤◌, ◌<◌, ◌≡◌, refl, List, [], ◌∷◌, ◌++◌, length, arith, ltb, if◌then◌else◌, length-append,
  lt→ltb, ap,
}
use moxt_cpp.Prelude.Outcome.{Outcome, ok, fault, exception}

pub record RingBuf : Type 1 where
  pub Ring : Type 0
  pub make : ℕ → Ring
  pub size : Ring → ℕ
  pub front : Ring → Outcome ℕ
  pub push_back : Ring → ℕ → Ring
  pub capacity : Ring → ℕ
  -- the elements, the front first
  pub elements : Ring → List ℕ
  pub capacity-make : (n : ℕ) → capacity (make n) ≡ n
  pub elements-make : (n : ℕ) → elements (make n) ≡ []
  pub size-elements : (r : Ring) → size r ≡ length (elements r)
  pub size-le : (r : Ring) → size r ≤ capacity r
  pub front-elements : (r : Ring) (x : ℕ) (xs : List ℕ) → elements r ≡ x ∷ xs → front r ≡ ok x
  pub capacity-push_back : (r : Ring) (v : ℕ) → capacity (push_back r v) ≡ capacity r
  pub push_back_room :
      (r : Ring) (v : ℕ)
      → length (elements r) < capacity r
      → elements (push_back r v) ≡ elements r ++ v ∷ []
  pub push_back_full :
      (r : Ring) (v x : ℕ) (xs : List ℕ)
      → elements r ≡ x ∷ xs
      → length (x ∷ xs) ≡ capacity r
      → elements (push_back r v) ≡ xs ++ v ∷ []

-- A list bounded by a capacity, as an instance.
pub record Bounded : Type 0 where
  pub cap : ℕ
  pub items : List ℕ
  pub within : length items ≤ cap

abbrev pub shifted : List ℕ → ℕ → List ℕ
shifted [] v = []
shifted (x ∷ xs) v = xs ++ v ∷ []

abbrev pub pushed : ℕ → List ℕ → ℕ → List ℕ
pushed cap xs v = if ltb (length xs) cap then xs ++ v ∷ [] else shifted xs v

pub length-pushed-le :
    (cap : ℕ) (xs : List ℕ) (v : ℕ) → length xs ≤ cap → length (pushed cap xs v) ≤ cap
length-pushed-le cap [] v h = ground arith
length-pushed-le cap (x ∷ xs) v h =
    ground (arith, length-append xs (v ∷ []), length-append (x ∷ xs) (v ∷ []))

abbrev pub first : List ℕ → Outcome ℕ
first [] = fault exception
first (x ∷ xs) = ok x

abbrev pub push : Bounded → ℕ → Bounded
push b v = record {
  cap = b.cap;
  items = pushed b.cap b.items v;
  within = length-pushed-le b.cap b.items v b.within;
}

pub pushed_full :
    (cap v x : ℕ) (xs ys : List ℕ)
    → ys ≡ x ∷ xs
    → length (x ∷ xs) ≡ cap
    → pushed cap ys v ≡ xs ++ v ∷ []
pushed_full cap v x xs ys e h = rw e (ground arith)

abbrev pub bounded : RingBuf
bounded = record {
  Ring = Bounded;
  make = λ n. record { cap = n; items = []; within = omega arith };
  size = λ b. length b.items;
  front = λ b. first b.items;
  push_back = push;
  capacity = λ b. b.cap;
  elements = λ b. b.items;
  capacity-make = λ n. refl;
  elements-make = λ n. refl;
  size-elements = λ b. refl;
  size-le = λ b. b.within;
  front-elements = λ b x xs e. ap first e;
  capacity-push_back = λ b v. refl;
  push_back_room = λ b v h. rw (lt→ltb (length b.items) b.cap h);
  push_back_full = λ b v x xs e h. pushed_full b.cap v x xs b.items e h;
}
