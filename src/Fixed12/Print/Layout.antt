-- ===== src/Fixed12/Print/Layout.antt =====
-- What `seq_fixed12_to_string` writes: an optional sign, the whole part, and the decimals.
use mathlib.Core.List.{reverse-append, reverse-reverse}
use moxt_cpp.Prelude.{
  ℕ, suc, ◌-◌, ◌/◌, ◌%◌, ◌^◌, ◌<◌, ◌≡◌, ◌∙◌, refl, ap, Bool, true, false, Bytes, [], ◌∷◌, ◌++◌,
  append_assoc, append-nil, ltb, if◌then◌else◌, reverse, arith, length, All, All-append, Bool-cases,
  inl, inr,
}
use moxt_cpp.Prelude.Int.{ℤ, pos, negsuc, abs_ℕ, is_neg, neg}
use moxt_cpp.Prelude.Outcome.{ok, fault, overflow}
use moxt_cpp.Decimal.{IsDigit, to_string, decimal-digits}
use moxt_cpp.Fixed12.{fixed_scale, int_part, frac_part}
use moxt_cpp.Fixed12.Print.{
  push_digits, reverse_loop, fraction, magnitude, strlen, written, to_string_buffer,
}
use moxt_cpp.Fixed12.Parse.Value.{sign_text}
use moxt_cpp.Fixed12.Print.Digits.{push_digits-decimal}
use moxt_cpp.Fixed12.Print.Reverse.{reverse_loop-reverse}
use moxt_cpp.Fixed12.Print.Fraction.{decimals, decimals-digits}

abbrev pub tail_text : ℕ → Bytes
tail_text frac = if ltb 0 frac then b'.' ∷ decimals frac else []

-- The decimal text of n units of 10^-12.
abbrev pub shown : Bool → ℕ → Bytes
shown negative n =
    sign_text negative ++ (to_string (n / fixed_scale) ++ tail_text (n % fixed_scale))

digits_lem : (n : ℕ) → push_digits (suc n) n [] ≡ reverse (to_string n)
unfolding to_string
digits_lem n = push_digits-decimal (suc n) n [] (omega arith)

front_lem :
    (negative : Bool) (n : ℕ)
    → let digits = push_digits (suc n) n [] in
      let signed = if negative then digits ++ b'-' ∷ [] else digits in
      reverse_loop (length signed) 0 (length signed - 1) signed ≡ sign_text negative ++ to_string n
front_lem true n = rw digits_lem (
    reverse_loop-reverse (reverse (to_string n) ++ b'-' ∷ [])
    ∙ reverse-append (reverse (to_string n)) (b'-' ∷ [])
    ∙ ap (λ t. b'-' ∷ t) (reverse-reverse (to_string n)))
front_lem false n =
    rw digits_lem (reverse_loop-reverse (reverse (to_string n)) ∙ reverse-reverse (to_string n))

magnitude_lem : (v : ℤ) → abs_ℕ v < 2 ^ 63 → magnitude v ≡ ok (pos (abs_ℕ v))
unfolding magnitude neg
magnitude_lem v h = ground arith

strlen-length : (s : Bytes) → All (λ c. 0 < c) s → strlen s ≡ length s
unfolding strlen
strlen-length [] h = refl
strlen-length (c ∷ s) h = ground (arith, strlen-length s h.1)

written-shown : (negative : Bool) (n : ℕ) → written negative (pos n) ≡ shown negative n
unfolding written int_part frac_part fraction
written-shown negative n = rw front_lem (
    ground (
      arith,
      append_assoc (sign_text negative) (to_string (n / fixed_scale)) (tail_text (n % fixed_scale)),
      append-nil (sign_text negative ++ to_string (n / fixed_scale)),
      append-nil (to_string (n / fixed_scale)),
    ))

digits-positive : (s : Bytes) → All IsDigit s → All (λ c. 0 < c) s
digits-positive [] h = tt
digits-positive (c ∷ s) h = (omega arith, digits-positive s h.1)

tail-positive : (frac : ℕ) → All (λ c. 0 < c) (tail_text frac)
tail-positive frac = elim (Bool-cases (ltb 0 frac)) [
  | inl e ↦ rw e (omega arith, digits-positive (decimals frac) (decimals-digits frac))
  | inr e ↦ rw e tt
]

shown-positive : (negative : Bool) (n : ℕ) → All (λ c. 0 < c) (shown negative n)
unfolding to_string
shown-positive negative n =
    All-append (λ c. 0 < c) (sign_text negative) _ (sign negative)
      (All-append (λ c. 0 < c) (to_string (n / fixed_scale)) (tail_text (n % fixed_scale))
        (digits-positive (to_string (n / fixed_scale))
          (decimal-digits (suc (n / fixed_scale)) (n / fixed_scale)))
        (tail-positive (n % fixed_scale)))
  where
    sign : (negative : Bool) → All (λ c. 0 < c) (sign_text negative)
    sign true = (omega arith, tt)
    sign false = tt

-- Every int64_t but the least is printed as its decimal text, and the number of its characters is
-- returned; the least has no negation, and negating it is undefined.
pub to_string_buffer-shown :
    (v : ℤ)
    → abs_ℕ v < 2 ^ 63
    → to_string_buffer v ≡ ok (shown (is_neg v) (abs_ℕ v), length (shown (is_neg v) (abs_ℕ v)))
unfolding to_string_buffer
to_string_buffer-shown v h = rw (
  magnitude_lem v h,
  written-shown (is_neg v) (abs_ℕ v),
  strlen-length (shown (is_neg v) (abs_ℕ v)) (shown-positive (is_neg v) (abs_ℕ v)),
)

to_string_buffer_least : to_string_buffer (negsuc (2 ^ 63 - 1)) ≡ fault overflow
unfolding to_string_buffer magnitude neg
to_string_buffer_least = refl
