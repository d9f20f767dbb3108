-- ===== src/Fixed12/RoundTrip.antt =====
-- Parsing what was printed.
use moxt_cpp.Prelude.{
  ℕ, suc, ◌+◌, ◌-◌, ◌*◌, ◌/◌, ◌%◌, ◌^◌, ◌<◌, ◌≡◌, ◌∙◌, ap, Bool, Bytes, [], ◌∷◌, append-nil, ltb,
  ◌==◌, if◌then◌else◌, arith, length, length-append, All, Bool-cases, inl, inr, lt→ltb,
}
use moxt_cpp.Prelude.Int.{ℤ, abs_ℕ, is_neg, signed}
use moxt_cpp.Prelude.Outcome.{ok, fault, uninitialised, ◌>>=◌}
use moxt_cpp.Decimal.{IsDigit, to_string, decimal, decimal-digits, value-decimal, value}
use moxt_cpp.Fixed12.{fixed_scale}
use moxt_cpp.Fixed12.Parse.{new_string_view}
use moxt_cpp.Fixed12.Parse.Value.{new_string_view-short, new_string_view-whole}
use moxt_cpp.Fixed12.Print.{to_string_buffer}
use moxt_cpp.Fixed12.Print.Fraction.{decimals, decimals-digits, length-decimals-le, scaled_decimals}
use moxt_cpp.Fixed12.Print.Layout.{shown, to_string_buffer-shown}

digits-to_string : (n : ℕ) → All IsDigit (to_string n)
unfolding to_string
digits-to_string n = decimal-digits (suc n) n

value-to_string : (n : ℕ) → value 0 (to_string n) ≡ n
unfolding to_string
value-to_string n = value-decimal (suc n) n (omega arith)

length-to_string-pos : (n : ℕ) → 0 < length (to_string n)
unfolding to_string decimal
length-to_string-pos n =
    omega
      (arith, length-append (if ltb n 10 then [] else decimal n (n / 10)) ((b'0' + n % 10) ∷ []))

signed_parts : (v : ℤ) → signed (is_neg v) (abs_ℕ v) ≡ v
signed_parts v = ground arith

shown_decimals :
    (negative : Bool) (n : ℕ)
    → n < 2 ^ 63
    → 0 < n % fixed_scale
    → new_string_view (shown negative n) ≡ ok (signed negative n)
shown_decimals negative n h p = rw (lt→ltb 0 (n % fixed_scale) p) (
    new_string_view-short negative whole ds (digits-to_string (n / fixed_scale))
      (length-to_string-pos (n / fixed_scale)) (decimals-digits frac)
      (length-decimals-le frac (omega arith)) (omega (arith, total))
    ∙ ap (λ k. ok (signed negative k)) total)
  where
    frac : ℕ
    frac = n % fixed_scale

    whole : Bytes
    whole = to_string (n / fixed_scale)

    ds : Bytes
    ds = decimals frac

    total : value 0 whole * fixed_scale + value 0 ds * 10 ^ (12 - length ds) ≡ n
    total = omega (arith, value-to_string (n / fixed_scale), scaled_decimals frac (omega arith))

shown_whole :
    (negative : Bool) (n : ℕ)
    → n < 2 ^ 63
    → n % fixed_scale ≡ 0
    → new_string_view (shown negative n) ≡ fault uninitialised
shown_whole negative n h z =
    rw (z, append-nil)
      (new_string_view-whole negative (to_string (n / fixed_scale))
        (digits-to_string (n / fixed_scale)) (length-to_string-pos (n / fixed_scale))
        (omega (arith, value-to_string (n / fixed_scale))))

-- Printing an int64_t other than the least and parsing the text gives the number back exactly when
-- it has decimals. A whole number is printed with no period, and parsing that reads a variable
-- without a value.
pub new_string_view-to_string_buffer :
    (v : ℤ)
    → abs_ℕ v < 2 ^ 63
    → (to_string_buffer v >>= λ r. new_string_view r.0)
      ≡ (if abs_ℕ v % fixed_scale == 0 then fault uninitialised else ok v)
new_string_view-to_string_buffer v h =
    rw (to_string_buffer-shown v h) (elim (Bool-cases (abs_ℕ v % fixed_scale == 0)) [
      | inl none_left ↦ rw none_left (shown_whole (is_neg v) (abs_ℕ v) h (ground arith))
      | inr some_left ↦
          rw some_left
            (shown_decimals (is_neg v) (abs_ℕ v) h (ground arith) ∙ ap ok (signed_parts v))
    ])
