-- ===== src/Fixed12/Parse/Decimals.antt =====
-- The decimals behind the period: filling up to 12 places, and rounding to 12 places.
use native.Mathlib.Nat.{pow-le-pow_right}
use moxt_cpp.Prelude.{
  ℕ, zero, suc, ◌+◌, ◌-◌, ◌*◌, ◌/◌, ◌^◌, ◌≤◌, ◌<◌, ◌≡◌, ◌∙◌, refl, ap, Bytes, [], ◌∷◌, ◌++◌, ltb,
  if◌then◌else◌, arith, length, length-append, length-replicate, take, take_all, All, All-append,
  lt→ltb, le→ltb_false, not, Bool-cases, inl, inr, false,
}
use moxt_cpp.Prelude.Int.{ℤ, pos, ◌+ℤ◌, ◌-ℤ◌, ◌*ℤ◌, tdiv, tmod, ltb_ℤ}
use moxt_cpp.Prelude.Outcome.{Outcome, ok, ◌>>=◌}
use moxt_cpp.Decimal.{
  IsDigit, value, value-append, value-zeros, value-lt, value-decimal, decimal-digits,
  length-decimal-le, decimal, zeros, zeros-digits, take-digits,
}
use moxt_cpp.Decimal
use moxt_cpp.Cast.{strtoi, strtoi-value}
use moxt_cpp.Fixed12.{max_frac_bits}
use moxt_cpp.Fixed12.Parse.{round_decimals, fit_decimals}

length-take-le : (n : ℕ) (s : Bytes) → length (take n s) ≤ n
length-take-le zero s = omega arith
length-take-le (suc n) [] = omega arith
length-take-le (suc n) (c ∷ s) = omega (arith, length-take-le n s)

-- What the code reads back from the decimals.
abbrev pub read_decimals : Bytes → Outcome ℤ
read_decimals ds = fit_decimals ds >>= λ fs. strtoi (take max_frac_bits fs)

value_short : (s : Bytes) → All IsDigit s → length s ≤ 13 → value 0 s < 10 ^ 13
value_short s d h = omega (arith, value-lt 0 s d, pow-le-pow_right {n = 10} (omega arith) h)

strtoi_short : (s : Bytes) → All IsDigit s → length s ≤ 13 → strtoi s ≡ ok (pos (value 0 s))
strtoi_short s d h = strtoi-value s d (omega (arith, value_short s d h))

pub read_decimals-short :
    (ds : Bytes)
    → All IsDigit ds
    → length ds ≤ 12
    → read_decimals ds ≡ ok (pos (value 0 ds * 10 ^ (12 - length ds)))
unfolding fit_decimals
read_decimals-short ds d h = rw (le→ltb_false 12 (length ds) h) (
    ap strtoi (take_all 12 filled (omega (arith, filled_length)))
    ∙ strtoi_short filled (All-append IsDigit ds _ d (zeros-digits _))
        (omega (arith, filled_length))
    ∙ ap (λ n. ok (pos n)) (value-append 0 ds _ ∙ value-zeros (value 0 ds) (12 - length ds)))
  where
    filled : Bytes
    filled = ds ++ zeros (12 - length ds)

    filled_length : length filled ≡ 12
    filled_length = omega (
      arith,
      length-append ds (zeros (12 - length ds)),
      length-replicate {A = ℕ} (12 - length ds) b'0',
    )

-- Thirteen digits, rounded half up to twelve: a carry out of the twelfth place makes thirteen
-- digits again, of which the code keeps the first twelve.
abbrev pub rounded : ℕ → ℕ
rounded t = if ltb ((t + 5) / 10) (10 ^ 12) then (t + 5) / 10 else 10 ^ 11

round_half_up :
    (t : ℕ)
    → (if not (ltb_ℤ (tmod (pos t) (pos 10)) (pos 5))
        then tdiv (pos t) (pos 10) +ℤ pos 1
        else tdiv (pos t) (pos 10))
      ≡ pos ((t + 5) / 10)
unfolding tmod tdiv ◌+ℤ◌
round_half_up t = ground arith

twelve_digits :
    (r : ℕ) → r < 10 ^ 12 → strtoi (take 12 (take 12 (Decimal.to_string r))) ≡ ok (pos r)
unfolding Decimal.to_string
twelve_digits r h =
    ap strtoi (ap (take 12) (take_all 12 text short) ∙ take_all 12 text short)
    ∙ strtoi_short text (decimal-digits (suc r) r) (omega (arith, short))
    ∙ ap (λ n. ok (pos n)) (value-decimal (suc r) r (omega arith))
  where
    text : Bytes
    text = decimal (suc r) r

    short : length text ≤ 12
    short = length-decimal-le 11 (suc r) r h

carry : strtoi (take 12 (take 12 (Decimal.to_string (10 ^ 12)))) ≡ ok (pos (10 ^ 11))
unfolding Decimal.to_string strtoi ◌*ℤ◌ ◌+ℤ◌ ◌-ℤ◌
carry = refl

reread :
    (t : ℕ)
    → t < 10 ^ 13
    → strtoi (take 12 (take 12 (Decimal.to_string ((t + 5) / 10)))) ≡ ok (pos (rounded t))
reread t h = elim (Bool-cases (ltb ((t + 5) / 10) (10 ^ 12))) [
  | inl fits ↦ rw fits (twelve_digits ((t + 5) / 10) (ground arith))
  | inr over ↦ rw over (rw (all_nines over) carry)
]
  where
    all_nines : ltb ((t + 5) / 10) (10 ^ 12) ≡ false → (t + 5) / 10 ≡ 10 ^ 12
    all_nines e = ground arith

pub read_decimals-long :
    (ds : Bytes)
    → All IsDigit ds
    → 12 < length ds
    → read_decimals ds ≡ ok (pos (rounded (value 0 (take 13 ds))))
unfolding fit_decimals round_decimals
read_decimals-long ds d h =
    rw
      (
        lt→ltb 12 (length ds) h,
        strtoi_short (take 13 ds) (take-digits 13 ds d) (length-take-le 13 ds),
        round_half_up (value 0 (take 13 ds)),
      )
      (reread (value 0 (take 13 ds)) (value_short _ (take-digits 13 ds d) (length-take-le 13 ds)))
