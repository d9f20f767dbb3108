-- ===== src/Count.antt =====
-- How often an address stands in a list, and whether a heap holds something there. No file of the
-- program.
use mathlib.Core.Option.{some-injective}
use moxt_cpp.Queue.{head, tail}
use moxt_cpp.WebSocket.Events.{remove_at}
use moxt_cpp.Prelude.{
  ◌≤◌, ◌≡◌, ◌≢◌, refl, ap, sym, ◌∙◌, ℕ, zero, suc, ◌+◌, Option, none, some, List, [], ◌∷◌, ◌++◌,
  length, get_elem?, inl, inr, arith, ◌==◌, if◌then◌else◌,
}
use moxt_cpp.Prelude.Put.{put, put_cases}

abbrev pub one : ℕ → ℕ → ℕ
one x c = if x == c then 1 else 0

unfoldable pub count : ℕ → List ℕ → ℕ
count c [] = 0
count c (x ∷ xs) = one x c + count c xs

abbrev pub live : {A : Type 0} → Option A → ℕ
live none = 0
live (some b) = 1

pub live-some : {A : Type 0} (o : Option A) → 1 ≤ live o → (b : A) × (o ≡ some b)
live-some none h = absurd (omega arith)
live-some (some b) h = (b, refl)

pub count-append : (c : ℕ) (a b : List ℕ) → count c (a ++ b) ≡ count c a + count c b
unfolding count
count-append c [] b = omega arith
count-append c (x ∷ a) b = omega (arith, count-append c a b)

pub count-snoc : (c x : ℕ) (a : List ℕ) → count c (a ++ x ∷ []) ≡ count c a + one x c
unfolding count
count-snoc c x a = omega (arith, count-append c a (x ∷ []))

pub count-head : (c x : ℕ) (a : List ℕ) → head a ≡ some x → count c a ≡ one x c + count c (tail a)
unfolding count
count-head c x [] e = absurd cc
count-head c x (y ∷ a) e = ap (λ z. one z c + count c a) (some-injective y x e)

pub length-head : (x : ℕ) (a : List ℕ) → head a ≡ some x → length a ≡ suc (length (tail a))
length-head x [] e = absurd cc
length-head x (y ∷ a) e = refl

pub count-remove_at :
    (c n x : ℕ) (a : List ℕ)
    → get_elem? a n ≡ some x
    → count c a ≡ one x c + count c (remove_at n a)
unfolding count remove_at
count-remove_at c n x [] e = absurd cc
count-remove_at c zero x (y ∷ a) e = ap (λ z. one z c + count c a) (some-injective y x e)
count-remove_at c (suc n) x (y ∷ a) e = omega (arith, count-remove_at c n x a e)

pub length-remove_at :
    (n x : ℕ) (a : List ℕ) → get_elem? a n ≡ some x → length a ≡ suc (length (remove_at n a))
unfolding remove_at
length-remove_at n x [] e = absurd cc
length-remove_at zero x (y ∷ a) e = refl
length-remove_at (suc n) x (y ∷ a) e = ap suc (length-remove_at n x a e)

pub one_same : (x c : ℕ) → x ≡ c → one x c ≡ 1
one_same x c e = ground arith

pub one_other : (x c : ℕ) → x ≢ c → one x c ≡ 0
one_other x c n = ground arith

module _ {A : Type 0} (k c : ℕ) (f : ℕ → Option A) where
  pub live-put_new : (b : A) → f k ≡ none → live (put k (some b) f c) ≡ live (f c) + one k c
  live-put_new b e = elim (put_cases k c (some b) f) [
    | inl (h, p) ↦ let g : f c ≡ none = ap f (sym h) ∙ e in rw (p, g, one_same k c h) refl
    | inr (h, p) ↦ rw (p, one_other k c h) (omega arith)
  ]

  pub live-put_old : (a b : A) → f k ≡ some a → live (put k (some b) f c) ≡ live (f c)
  live-put_old a b e = elim (put_cases k c (some b) f) [
    | inl (h, p) ↦ let g : f c ≡ some a = ap f (sym h) ∙ e in rw (p, g) refl
    | inr (h, p) ↦ rw p refl
  ]

  pub live-put-none : (a : A) → f k ≡ some a → live (put k none f c) + one k c ≡ live (f c)
  live-put-none a e = elim (put_cases k c none f) [
    | inl (h, p) ↦ let g : f c ≡ some a = ap f (sym h) ∙ e in rw (p, g, one_same k c h) refl
    | inr (h, p) ↦ rw (p, one_other k c h) (omega arith)
  ]
