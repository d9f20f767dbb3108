-- ===== src/Fixed12/Print/Reverse.antt =====
-- The loop that swaps the ends of the buffer reverses it.
use mathlib.Core.List.{reverse-append, reverse-cons}
use moxt_cpp.Prelude.{
  ℕ, zero, suc, ◌+◌, ◌-◌, ◌≤◌, ◌<◌, ◌≡◌, ◌∙◌, refl, ap, lt→ltb, Bytes, [], ◌∷◌, ◌++◌, append_assoc,
  append-nil, reverse, arith, ◌⊎◌, inl, inr, length, length-append, set,
}
use moxt_cpp.Fixed12.Print.{get_or_zero, swap, reverse_loop}

get_middle : (p : Bytes) (x : ℕ) (s : Bytes) → get_or_zero (p ++ x ∷ s) (length p) ≡ x
get_middle [] x s = refl
get_middle (y ∷ p) x s = get_middle p x s

set_middle : (p : Bytes) (x v : ℕ) (s : Bytes) → set (p ++ x ∷ s) (length p) v ≡ p ++ v ∷ s
set_middle [] x v s = refl
set_middle (y ∷ p) x v s = ap (λ t. y ∷ t) (set_middle p x v s)

swap_ends :
    (p m s : Bytes) (x y : ℕ)
    → swap (length p) (length (p ++ x ∷ m)) (p ++ x ∷ (m ++ y ∷ s)) ≡ p ++ y ∷ (m ++ x ∷ s)
unfolding swap
swap_ends p m s x y = cc (
  get_middle p x (m ++ y ∷ s),
  get_middle (p ++ x ∷ m) y s,
  append_assoc p (x ∷ m) (y ∷ s),
  set_middle p x y (m ++ y ∷ s),
  append_assoc p (y ∷ m) (y ∷ s),
  set_middle (p ++ y ∷ m) y x s,
  append_assoc p (y ∷ m) (x ∷ s),
  length-append p (x ∷ m),
  length-append p (y ∷ m),
)

-- A list of two or more is its ends around a middle.
ends : (x : ℕ) (xs : Bytes) → (xs ≡ []) ⊎ ((m : Bytes) × (y : ℕ) × (xs ≡ m ++ y ∷ []))
ends x [] = inl refl
ends x (z ∷ xs) = elim (ends z xs) [
  | inl e ↦ inr ([], z, ap (λ t. z ∷ t) e)
  | inr (m, y, e) ↦ inr (z ∷ m, y, ap (λ t. z ∷ t) e)
]

loop_stop : (fuel i j : ℕ) (r : Bytes) → j ≤ i → reverse_loop fuel i j r ≡ r
unfolding reverse_loop
loop_stop zero i j r h = refl
loop_stop (suc fuel) i j r h = ground arith

loop_step :
    (fuel i j : ℕ) (r : Bytes)
    → i < j
    → reverse_loop (suc fuel) i j r ≡ reverse_loop fuel (i + 1) (j - 1) (swap i j r)
unfolding reverse_loop
loop_step fuel i j r h = rw (lt→ltb i j h)

reverse_ends : (x y : ℕ) (m : Bytes) → reverse (x ∷ (m ++ y ∷ [])) ≡ y ∷ (reverse m ++ x ∷ [])
reverse_ends x y m = rw (reverse-cons x (m ++ y ∷ []), reverse-append m (y ∷ []))

-- One round on a part with two ends.
round :
    (fuel : ℕ) (p m s : Bytes) (x y : ℕ)
    → reverse_loop
        (suc fuel)
        (length p)
        (length p + length (x ∷ (m ++ y ∷ [])) - 1)
        (p ++ (x ∷ (m ++ y ∷ []) ++ s))
      ≡ reverse_loop fuel
          (length (p ++ y ∷ []))
          (length (p ++ y ∷ []) + length m - 1)
          ((p ++ y ∷ []) ++ (m ++ x ∷ s))
round fuel p m s x y =
    loop_step fuel _ _ _ (omega (arith, length-append m (y ∷ [])))
    ∙ cc (
      append_assoc m (y ∷ []) s,
      index,
      swap_ends p m s x y,
      first,
      last,
      append_assoc p (y ∷ []) (m ++ x ∷ s),
    )
  where
    index : length p + length (x ∷ (m ++ y ∷ [])) - 1 ≡ length (p ++ x ∷ m)
    index = omega (arith, length-append m (y ∷ []), length-append p (x ∷ m))

    first : length p + 1 ≡ length (p ++ y ∷ [])
    first = omega (arith, length-append p (y ∷ []))

    last : length p + length (x ∷ (m ++ y ∷ [])) - 1 - 1 ≡ length (p ++ y ∷ []) + length m - 1
    last = omega (arith, length-append m (y ∷ []), length-append p (y ∷ []))

-- The loop over the part of the buffer between `p` and `s`.
loop_between :
    (fuel : ℕ) (p mid s : Bytes)
    → length mid ≤ fuel
    → reverse_loop fuel (length p) (length p + length mid - 1) (p ++ (mid ++ s))
      ≡ p ++ (reverse mid ++ s)
loop_between fuel p [] s h = loop_stop fuel _ _ _ (omega arith)
loop_between zero p (x ∷ xs) s h = absurd (omega arith)
loop_between (suc fuel) p (x ∷ xs) s h = elim (ends x xs) [
  | inl e ↦ rw e (loop_stop (suc fuel) _ _ _ (omega arith))
  | inr (m, y, e) ↦ rw e (
      round fuel p m s x y
      ∙ loop_between fuel (p ++ y ∷ []) m (x ∷ s) (shorter m y e)
      ∙ cc (
        reverse_ends x y m,
        append_assoc p (y ∷ []) (reverse m ++ x ∷ s),
        append_assoc (reverse m) (x ∷ []) s,
      ))
]
  where
    shorter : (m : Bytes) (y : ℕ) → xs ≡ m ++ y ∷ [] → length m ≤ fuel
    shorter m y e = omega (arith, ap length e, length-append m (y ∷ []))

-- The loop over the whole buffer reverses it.
pub reverse_loop-reverse : (s : Bytes) → reverse_loop (length s) 0 (length s - 1) s ≡ reverse s
reverse_loop-reverse s = cc (
  loop_between (length s) [] s [] (omega arith),
  append-nil s,
  append-nil (reverse s),
  zero_add (length s),
)
  where
    zero_add : (n : ℕ) → 0 + n ≡ n
    zero_add n = omega arith
