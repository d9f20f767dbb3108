-- ===== src/Fixed12/Print/Buffer.antt =====
-- `Fixed12::toString` and its buffer of 17 characters.
use mathlib.Core.List.{reverse-append}
use moxt_cpp.Prelude.{
  ℕ, suc, ◌+◌, ◌*◌, ◌/◌, ◌%◌, ◌^◌, ◌≤◌, ◌<◌, ◌≡◌, ◌≢◌, ◌∙◌, Bool, false, [], ◌∷◌, ◌++◌, ltb,
  if◌then◌else◌, arith, length, length-append, take_all, lt→ltb, le→ltb_false,
}
use moxt_cpp.Prelude.Int.{ℤ, pos, abs_ℕ, is_neg}
use moxt_cpp.Prelude.Outcome.{ok, fault, bad_index}
use moxt_cpp.Decimal.{to_string, decimal, length-decimal-le, le-length-decimal}
use moxt_cpp.Fixed12.{fixed_scale, of_value}
use moxt_cpp.Fixed12.Parse.Value.{sign_text}
use moxt_cpp.Fixed12.Print
use moxt_cpp.Fixed12.Print.{buffer_size, count_zeros}
use moxt_cpp.Fixed12.Print.Fraction.{
  end_zeros, length-decimals, length-trimmed, length-to_string-le, length-decimals-le,
}
use moxt_cpp.Fixed12.Print.Layout.{shown, tail_text, to_string_buffer-shown}

-- The text is returned if it and its terminating zero have room in the buffer; otherwise the print
-- writes behind the buffer.
pub to_string-shown :
    (v : ℤ)
    → abs_ℕ v < 2 ^ 63
    → let text = shown (is_neg v) (abs_ℕ v) in
      Print.to_string (of_value v)
      ≡ (if ltb (length text) buffer_size then ok text else fault bad_index)
unfolding Print.to_string
to_string-shown v h = rw (
  to_string_buffer-shown v h,
  take_all (length (shown (is_neg v) (abs_ℕ v))) (shown (is_neg v) (abs_ℕ v)) (omega arith),
)

length-shown :
    (negative : Bool) (n : ℕ)
    → length (shown negative n)
      ≡ length (sign_text negative)
        + length (to_string (n / fixed_scale))
        + length (tail_text (n % fixed_scale))
length-shown negative n = omega (
  arith,
  length-append (sign_text negative) (to_string (n / fixed_scale) ++ tail_text (n % fixed_scale)),
  length-append (to_string (n / fixed_scale)) (tail_text (n % fixed_scale)),
)

length-tail-le : (frac : ℕ) → frac < 10 ^ 12 → length (tail_text frac) ≤ 13
length-tail-le frac h = ground (arith, length-decimals-le frac h)

end_zeros-none : (n : ℕ) → n % 10 ≢ 0 → end_zeros (to_string n) ≡ 0
unfolding to_string decimal count_zeros
end_zeros-none n h =
    ground
      (arith, reverse-append (if ltb n 10 then [] else decimal n (n / 10)) ((b'0' + n % 10) ∷ []))

length-tail-all : (frac : ℕ) → frac < 10 ^ 12 → frac % 10 ≢ 0 → length (tail_text frac) ≡ 13
length-tail-all frac h p = rw (lt→ltb 0 frac (omega arith)) (
    omega (
      arith,
      length-decimals frac,
      length-trimmed (to_string frac),
      length-to_string-le frac h,
      end_zeros-none frac p,
    ))

length-to_string-whole : (n : ℕ) → n < 1000 * fixed_scale → length (to_string (n / fixed_scale)) ≤ 3
unfolding to_string
length-to_string-whole n h =
    length-decimal-le 2 (suc (n / fixed_scale)) (n / fixed_scale) (omega arith)

length-to_string-ge : (n : ℕ) → 1000 * fixed_scale ≤ n → 4 ≤ length (to_string (n / fixed_scale))
unfolding to_string
length-to_string-ge n h =
    le-length-decimal 3 (suc (n / fixed_scale)) (n / fixed_scale) (omega arith) (omega arith)

-- A number from 0 up to 999.999999999999 is returned as its text.
pub to_string_small :
    (n : ℕ) → n < 1000 * fixed_scale → Print.to_string (of_value (pos n)) ≡ ok (shown false n)
to_string_small n h =
    to_string-shown (pos n) (omega arith)
    ∙ rw (
        lt→ltb (length (shown false n)) 17 (
          omega (
            arith,
            length-shown false n,
            length-to_string-whole n h,
            length-tail-le (n % fixed_scale) (omega arith),
          )))

-- From 1000 on, of either sign, a number with twelve decimals overruns the buffer.
pub to_string_overrun :
    (v : ℤ)
    → 1000 * fixed_scale ≤ abs_ℕ v
    → abs_ℕ v < 2 ^ 63
    → abs_ℕ v % 10 ≢ 0
    → Print.to_string (of_value v) ≡ fault bad_index
to_string_overrun v lo h p =
    to_string-shown v h
    ∙ rw (
        le→ltb_false (length (shown (is_neg v) (abs_ℕ v))) 17 (
          omega (
            arith,
            length-shown (is_neg v) (abs_ℕ v),
            length-to_string-ge (abs_ℕ v) lo,
            length-tail-all (abs_ℕ v % fixed_scale) (omega arith) (last_digit p),
          )))
  where
    last_digit : abs_ℕ v % 10 ≢ 0 → abs_ℕ v % fixed_scale % 10 ≢ 0
    last_digit q = omega arith
