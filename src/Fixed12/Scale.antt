-- ===== src/Fixed12/Scale.antt =====
-- The product and the quotient of moxt/fixed12.hpp and moxt/fixed12.cpp: `operator*`, `operator/`,
-- `seq_fixed_mul` and `seq_fixed_truediv`, through big integers.
pub mod Error
use moxt_cpp.Prelude.{
  ℕ, suc, ◌+◌, ◌-◌, ◌*◌, ◌/◌, ◌%◌, ◌^◌, ◌≤◌, ◌<◌, ◌≡◌, ◌≢◌, ◌∙◌, refl, sym, ap, Bool, true, false,
  if◌then◌else◌, arith,
}
use moxt_cpp.Prelude.Int.{ℤ, pos, negsuc, abs_ℕ, is_neg, fits_i64, xor_sign, signed, ◌*ℤ◌, tdiv}
use moxt_cpp.Prelude.Outcome.{Outcome, ok, fault, exception, ◌>>=◌}
use moxt_cpp.Fixed12.{fixed_scale, Fixed12, of_value}
use moxt_cpp.Fixed12.BigInt.{BigInt}

module _ (B : BigInt) where
  open B use {of_i64, to_i64, mul, div}

  -- seq_fixed_mul
  unfoldable pub fixed_mul : ℤ → ℤ → Outcome ℤ
  fixed_mul a b = do q ← div (mul (of_i64 a) (of_i64 b)) (of_i64 (pos fixed_scale)); ok (to_i64 q)

  -- seq_fixed_truediv
  unfoldable pub fixed_truediv : ℤ → ℤ → Outcome ℤ
  fixed_truediv a b = do
    q ← div (mul (of_i64 a) (of_i64 (pos fixed_scale))) (of_i64 b)
    ok (to_i64 q)

  -- operator*
  unfoldable pub times : Fixed12 → Fixed12 → Outcome Fixed12
  times a b = do
    q ← div (mul (of_i64 a.value) (of_i64 b.value)) (of_i64 (pos fixed_scale))
    ok (of_value (to_i64 q))

  -- operator/
  unfoldable pub over : Fixed12 → Fixed12 → Outcome Fixed12
  over a b = do
    q ← div (mul (of_i64 a.value) (of_i64 (pos fixed_scale))) (of_i64 b.value)
    ok (of_value (to_i64 q))

  quotient :
      (a b c : ℤ)
      → c ≢ pos 0
      → fits_i64 (tdiv (a *ℤ b) c) ≡ true
      → (div (mul (of_i64 a) (of_i64 b)) (of_i64 c) >>= λ q. ok (to_i64 q)) ≡ ok (tdiv (a *ℤ b) c)
  quotient a b c nonzero fits =
      let (q, e, v) =
        B.div_by_nonzero (mul (of_i64 a) (of_i64 b)) (of_i64 c)
          (λ z. nonzero (sym (B.value-of_i64 c) ∙ z)) in
      let exact : B.value q ≡ tdiv (a *ℤ b) c = cc (
        v,
        B.value-mul (of_i64 a) (of_i64 b),
        B.value-of_i64 a,
        B.value-of_i64 b,
        B.value-of_i64 c,
      ) in
      rw e (ap ok (B.to_i64-fits q (ap fits_i64 exact ∙ fits) ∙ exact))

  -- `a * b / 10^12`, truncated towards zero, if that fits an int64_t.
  pub fixed_mul-tdiv :
      (a b : ℤ)
      → fits_i64 (tdiv (a *ℤ b) (pos fixed_scale)) ≡ true
      → fixed_mul a b ≡ ok (tdiv (a *ℤ b) (pos fixed_scale))
  unfolding fixed_mul
  fixed_mul-tdiv a b = quotient a b (pos fixed_scale) (λ e. ground arith)

  pub fixed_truediv-tdiv :
      (a b : ℤ)
      → b ≢ pos 0
      → fits_i64 (tdiv (a *ℤ pos fixed_scale) b) ≡ true
      → fixed_truediv a b ≡ ok (tdiv (a *ℤ pos fixed_scale) b)
  unfolding fixed_truediv
  fixed_truediv-tdiv a b = quotient a (pos fixed_scale) b

  pub fixed_truediv_zero : (a : ℤ) → fixed_truediv a (pos 0) ≡ fault exception
  unfolding fixed_truediv
  fixed_truediv_zero a = rw (
      B.div_by_zero (mul (of_i64 a) (of_i64 (pos fixed_scale))) (of_i64 (pos 0))
        (B.value-of_i64 (pos 0)))
