-- ===== src/Fixed12/Tests.antt =====
-- Witnesses and runs for moxt/fixed12.hpp and moxt/fixed12.cpp.
use moxt_cpp.Prelude.{
  Bytes, ◌+◌, ◌*◌, ◌^◌, ◌≤◌, ◌<◌, ◌≡◌, refl, true, false, codes, ◌++◌, ◌∷◌, length, arith,
  if◌then◌else◌, ltb,
}
use moxt_cpp.Prelude.Int.{ℤ, pos, negsuc, abs_ℕ, signed, ◌*ℤ◌, tdiv, neg}
use moxt_cpp.Prelude.Outcome.{ok, fault, uninitialised, bad_index, ◌>>=◌}
use moxt_cpp.Decimal
use moxt_cpp.Decimal.{value}
use moxt_cpp.Fixed12.{fixed_scale, of_value, int_part, frac_part}
use moxt_cpp.Fixed12.Parse.{new_string_view}
use moxt_cpp.Fixed12.Parse.Value.{
  sign_text, new_string_view-short, new_string_view-long, new_string_view-whole,
}
use moxt_cpp.Fixed12.Print
use moxt_cpp.Fixed12.Print.{to_string_buffer}
use moxt_cpp.Fixed12.Print.Layout.{shown}
use moxt_cpp.Fixed12.Print.Trimmed.{Spelled, to_string_buffer-Spelled}
use moxt_cpp.Fixed12.Print.Buffer.{to_string-shown, to_string_overrun}
use moxt_cpp.Fixed12.RoundTrip.{new_string_view-to_string_buffer}
use moxt_cpp.Fixed12.BigInt.{saturating}
use moxt_cpp.Fixed12.Scale.{fixed_mul, fixed_truediv}
use moxt_cpp.Fixed12.Scale.Error.{Truncates, fixed_mul_error, fixed_mul-fixed_truediv}

-- -1.01
new_string_view-short_example :
    new_string_view (sign_text true ++ (codes "1" ++ b'.' ∷ codes "01"))
    ≡ ok (signed true (1 * fixed_scale + 1 * 10 ^ 10))
new_string_view-short_example =
    new_string_view-short true (codes "1") (codes "01") (omega arith) (omega arith) (omega arith)
      (omega arith) (omega arith)

-- 0.9999999999999 is read as 0.1.
new_string_view-long_example :
    new_string_view (sign_text false ++ (codes "0" ++ b'.' ∷ codes "9999999999999"))
    ≡ ok (signed false (0 * fixed_scale + 10 ^ 11))
new_string_view-long_example =
    new_string_view-long false (codes "0") (codes "9999999999999") (omega arith) (omega arith)
      (omega arith) (omega arith) (omega arith)

new_string_view-whole_example : new_string_view (sign_text false ++ codes "5") ≡ fault uninitialised
new_string_view-whole_example =
    new_string_view-whole false (codes "5") (omega arith) (omega arith) (omega arith)

to_string_buffer-Spelled_example :
    (text : Bytes) × (to_string_buffer (negsuc 1009999999999) ≡ ok (text, length text))
    × Spelled true 1010000000000 text
to_string_buffer-Spelled_example = to_string_buffer-Spelled (negsuc 1009999999999) (omega arith)

to_string-shown_example : Print.to_string (of_value (pos 1500000000000)) ≡ (
    if ltb (length (shown false 1500000000000)) 17
    then ok (shown false 1500000000000)
    else fault bad_index)
to_string-shown_example = to_string-shown (pos 1500000000000) (omega arith)

-- 1000.000000000001
to_string_overrun_example : Print.to_string (of_value (pos 1000000000000001)) ≡ fault bad_index
to_string_overrun_example =
    to_string_overrun (pos 1000000000000001) (omega arith) (omega arith) (omega arith)

new_string_view-to_string_buffer_example :
    (to_string_buffer (negsuc 1009999999999) >>= λ r. new_string_view r.0)
    ≡ ok (negsuc 1009999999999)
new_string_view-to_string_buffer_example =
    new_string_view-to_string_buffer (negsuc 1009999999999) (omega arith)

-- 3000.0 * 1.01
fixed_mul_error_example :
    (r : ℤ) × (fixed_mul saturating (pos 3000000000000000) (pos 1010000000000) ≡ ok r)
    × Truncates r false (3000000000000000 * 1010000000000) fixed_scale
unfolding tdiv ◌*ℤ◌
fixed_mul_error_example = fixed_mul_error saturating (pos 3000000000000000) (pos 1010000000000) refl

fixed_mul-fixed_truediv_example :
    (r : ℤ) × ((fixed_truediv saturating (negsuc 0) (pos 3) >>= λ q. fixed_mul saturating q (pos 3))
      ≡ ok r)
    × (abs_ℕ r ≤ 1)
    × (1 * fixed_scale < abs_ℕ r * fixed_scale + fixed_scale + 3)
    × (r ≡ signed true (abs_ℕ r))
unfolding tdiv ◌*ℤ◌
fixed_mul-fixed_truediv_example =
    fixed_mul-fixed_truediv saturating (negsuc 0) (pos 3) (λ e. ground arith) refl refl

printed : to_string_buffer (negsuc 1009999999999) ≡ ok (codes "-1.01", 5)
unfolding neg to_string_buffer Print.magnitude Print.written Print.push_digits Print.reverse_loop
    Print.swap Print.fraction Print.count_zeros Print.strlen Decimal.to_string int_part frac_part
printed = refl
