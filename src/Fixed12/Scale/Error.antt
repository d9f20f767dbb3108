-- ===== src/Fixed12/Scale/Error.antt =====
-- How far the product and the quotient are from the exact ones.
use native.Mathlib.Nat.{div-add-mod', mod-lt}
use moxt_cpp.Prelude.{
  ℕ, zero, suc, ◌+◌, ◌*◌, ◌/◌, ◌≤◌, ◌<◌, ◌≡◌, ◌≢◌, ◌∙◌, refl, sym, ap, Bool, true, false, arith,
}
use moxt_cpp.Prelude.Int.{ℤ, pos, abs_ℕ, is_neg, fits_i64, xor_sign, signed, ◌*ℤ◌, tdiv}
use moxt_cpp.Prelude.Outcome.{ok, ◌>>=◌}
use moxt_cpp.Fixed12.{fixed_scale}
use moxt_cpp.Fixed12.BigInt.{BigInt}
use moxt_cpp.Fixed12.Scale.{fixed_mul, fixed_truediv, fixed_mul-tdiv, fixed_truediv-tdiv}

abs-signed : (s : Bool) (n : ℕ) → abs_ℕ (signed s n) ≡ n
abs-signed s n = ground arith

abs-mul : (a b : ℤ) → abs_ℕ (a *ℤ b) ≡ abs_ℕ a * abs_ℕ b
unfolding ◌*ℤ◌
abs-mul a b = abs-signed (xor_sign (is_neg a) (is_neg b)) (abs_ℕ a * abs_ℕ b)

abs-tdiv : (a b : ℤ) → abs_ℕ (tdiv a b) ≡ abs_ℕ a / abs_ℕ b
unfolding tdiv
abs-tdiv a b = abs-signed (xor_sign (is_neg a) (is_neg b)) (abs_ℕ a / abs_ℕ b)

abs-pos : (b : ℤ) → b ≢ pos 0 → 0 < abs_ℕ b
abs-pos b h = ground arith

div_bounds : (n d : ℕ) → 0 < d → (n / d * d ≤ n) × (n < n / d * d + d)
div_bounds n d h = omega (arith, div-add-mod' n d, mod-lt n h)

is_neg-signed : (s : Bool) (m : ℕ) → 0 < m → is_neg (signed s m) ≡ s
is_neg-signed s m h = ground arith

tdiv_sign : (x b : ℤ) → tdiv x b ≡ signed (xor_sign (is_neg x) (is_neg b)) (abs_ℕ (tdiv x b))
unfolding tdiv
tdiv_sign x b =
    let s = xor_sign (is_neg x) (is_neg b) in
    let n = abs_ℕ x / abs_ℕ b in ap (signed s) (sym (abs-signed s n))

tdiv_zero : (s : Bool) (b : ℤ) → tdiv (signed s 0) b ≡ pos 0
unfolding tdiv
tdiv_zero s b = ground arith

signed_zero : (s : Bool) → signed s 0 ≡ pos 0
signed_zero s = ground arith

signed-tdiv :
    (s : Bool) (m : ℕ) (b : ℤ)
    → tdiv (signed s m) b ≡ signed (xor_sign s (is_neg b)) (abs_ℕ (tdiv (signed s m) b))
signed-tdiv s zero b = rw tdiv_zero (sym (signed_zero (xor_sign s (is_neg b))))
signed-tdiv s (suc m) b =
    tdiv_sign (signed s (suc m)) b
    ∙ ap (λ t. signed (xor_sign t (is_neg b)) (abs_ℕ (tdiv (signed s (suc m)) b)))
        (is_neg-signed s (suc m) (omega arith))

tdiv-mul_sign :
    (a b c : ℤ)
    → tdiv (a *ℤ b) c
      ≡ signed (xor_sign (xor_sign (is_neg a) (is_neg b)) (is_neg c)) (abs_ℕ (tdiv (a *ℤ b) c))
unfolding ◌*ℤ◌
tdiv-mul_sign a b c = signed-tdiv (xor_sign (is_neg a) (is_neg b)) (abs_ℕ a * abs_ℕ b) c

-- The product of two integers, divided and truncated: its sign and its distance from the exact one.
tdiv_error :
    (a b c : ℤ)
    → c ≢ pos 0
    → let r = tdiv (a *ℤ b) c in
      (abs_ℕ r * abs_ℕ c ≤ abs_ℕ a * abs_ℕ b)
      × (abs_ℕ a * abs_ℕ b < abs_ℕ r * abs_ℕ c + abs_ℕ c)
      × (r ≡ signed (xor_sign (xor_sign (is_neg a) (is_neg b)) (is_neg c)) (abs_ℕ r))
tdiv_error a b c h = (rw size bounds.0, rw size bounds.1, tdiv-mul_sign a b c)
  where
    size : abs_ℕ (tdiv (a *ℤ b) c) ≡ abs_ℕ a * abs_ℕ b / abs_ℕ c
    size = abs-tdiv (a *ℤ b) c ∙ ap (λ n. n / abs_ℕ c) (abs-mul a b)

    bounds :
        (abs_ℕ a * abs_ℕ b / abs_ℕ c * abs_ℕ c ≤ abs_ℕ a * abs_ℕ b)
        × (abs_ℕ a * abs_ℕ b < abs_ℕ a * abs_ℕ b / abs_ℕ c * abs_ℕ c + abs_ℕ c)
    bounds = div_bounds (abs_ℕ a * abs_ℕ b) (abs_ℕ c) (abs-pos c h)

-- What the theorems below state of a result r: r is n / d with the sign s, truncated.
abbrev pub Truncates : ℤ → Bool → ℕ → ℕ → Type 0
Truncates r s n d = (abs_ℕ r * d ≤ n) × (n < abs_ℕ r * d + d) × (r ≡ signed s (abs_ℕ r))

xor_false : (s : Bool) → xor_sign s false ≡ s
xor_false true = refl
xor_false false = refl

one_ne_zero : pos fixed_scale ≢ pos 0
one_ne_zero e = ground arith

mul-Truncates :
    (a b : ℤ)
    → Truncates
        (tdiv (a *ℤ b) (pos fixed_scale))
        (xor_sign (is_neg a) (is_neg b))
        (abs_ℕ a * abs_ℕ b)
        fixed_scale
mul-Truncates a b =
    let e = tdiv_error a b (pos fixed_scale) one_ne_zero in
    (e.0, e.1, e.2 ∙ ap (λ s. signed s (abs_ℕ (tdiv (a *ℤ b) (pos fixed_scale)))) (xor_false _))

truediv-Truncates :
    (a b : ℤ)
    → b ≢ pos 0
    → Truncates
        (tdiv (a *ℤ pos fixed_scale) b)
        (xor_sign (is_neg a) (is_neg b))
        (abs_ℕ a * fixed_scale)
        (abs_ℕ b)
truediv-Truncates a b h =
    let e = tdiv_error a (pos fixed_scale) b h in
    (
      e.0,
      e.1,
      e.2
          ∙ ap (λ s. signed (xor_sign s (is_neg b)) (abs_ℕ (tdiv (a *ℤ pos fixed_scale) b)))
              (xor_false (is_neg a)),
    )

sign_back :
    (a b q r : ℤ)
    → q ≡ signed (xor_sign (is_neg a) (is_neg b)) (abs_ℕ q)
    → r ≡ signed (xor_sign (is_neg q) (is_neg b)) (abs_ℕ r)
    → (abs_ℕ q ≡ 0 → abs_ℕ r ≡ 0)
    → r ≡ signed (is_neg a) (abs_ℕ r)
sign_back a b q r hq hr z = ground arith

fits_below :
    (a r : ℤ)
    → fits_i64 a ≡ true
    → abs_ℕ r ≤ abs_ℕ a
    → r ≡ signed (is_neg a) (abs_ℕ r)
    → fits_i64 r ≡ true
fits_below a r h le s = ground arith

vanish : (x y n : ℕ) → x ≡ 0 → y * fixed_scale ≤ x * n → y ≡ 0
vanish x y n z l = let l' : y * fixed_scale ≤ 0 * n = rw z at l in omega arith

module _ (B : BigInt) where
  -- Where the truncated result fits an int64_t, `seq_fixed_mul` returns it: in units of 10^-12 it
  -- is less than one unit below the size of the exact product, with the sign of the product.
  pub fixed_mul_error :
      (a b : ℤ)
      → fits_i64 (tdiv (a *ℤ b) (pos fixed_scale)) ≡ true
      → (r : ℤ) × (fixed_mul B a b ≡ ok r)
        × Truncates r (xor_sign (is_neg a) (is_neg b)) (abs_ℕ a * abs_ℕ b) fixed_scale
  fixed_mul_error a b fits =
      (tdiv (a *ℤ b) (pos fixed_scale), fixed_mul-tdiv B a b fits, mul-Truncates a b)

  -- The quotient by a number that is not zero, in the same way.
  pub fixed_truediv_error :
      (a b : ℤ)
      → b ≢ pos 0
      → fits_i64 (tdiv (a *ℤ pos fixed_scale) b) ≡ true
      → (r : ℤ) × (fixed_truediv B a b ≡ ok r)
        × Truncates r (xor_sign (is_neg a) (is_neg b)) (abs_ℕ a * fixed_scale) (abs_ℕ b)
  fixed_truediv_error a b h fits =
      (tdiv (a *ℤ pos fixed_scale) b, fixed_truediv-tdiv B a b h fits, truediv-Truncates a b h)

  -- Multiplying a quotient by its divisor comes back to the dividend from below, less than one
  -- unit and one 10^-12th of the divisor away.
  pub fixed_mul-fixed_truediv :
      (a b : ℤ)
      → b ≢ pos 0
      → fits_i64 a ≡ true
      → fits_i64 (tdiv (a *ℤ pos fixed_scale) b) ≡ true
      → (r : ℤ) × ((fixed_truediv B a b >>= λ q. fixed_mul B q b) ≡ ok r)
        × (abs_ℕ r ≤ abs_ℕ a)
        × (abs_ℕ a * fixed_scale < abs_ℕ r * fixed_scale + fixed_scale + abs_ℕ b)
        × (r ≡ signed (is_neg a) (abs_ℕ r))
  fixed_mul-fixed_truediv a b h fits_a fits =
      let q = tdiv (a *ℤ pos fixed_scale) b in
      let r = tdiv (q *ℤ b) (pos fixed_scale) in
      let (q_lo, q_hi, q_sign) = truediv-Truncates a b h in
      let (r_lo, r_hi, r_sign) = mul-Truncates q b in
      let below : abs_ℕ r ≤ abs_ℕ a = omega arith in
      let sign : r ≡ signed (is_neg a) (abs_ℕ r) =
        sign_back a b q r q_sign r_sign (λ z. vanish (abs_ℕ q) (abs_ℕ r) (abs_ℕ b) z r_lo) in
      (
        r,
        rw (fixed_truediv-tdiv B a b h fits)
            (fixed_mul-tdiv B q b (fits_below a r fits_a below sign)),
        below,
        omega arith,
        sign,
      )
