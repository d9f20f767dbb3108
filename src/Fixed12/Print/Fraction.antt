-- ===== src/Fixed12/Print/Fraction.antt =====
-- The decimals that `seq_fixed12_to_string` writes: leading zeros are added up to 12 places, and
-- trailing zeros are left out.
use mathlib.Core.List.{reverse-append, reverse-reverse}
use moxt_cpp.Prelude.{
  ℕ, zero, suc, ◌+◌, ◌-◌, ◌^◌, ◌≤◌, ◌<◌, ◌≡◌, ◌∙◌, sym, ◌*◌, refl, ap, Bytes, [], ◌∷◌, ◌++◌,
  append_assoc, reverse, arith, length, length-append, take, drop, take-length-append, All,
  All-append,
}
use moxt_cpp.Decimal.{
  IsDigit, value, value-decimal, decimal-digits, length-decimal-le, value_leading_zeros,
  value-append, value-zeros, to_string, zeros, length-zeros, zeros-digits, take-digits,
}
use moxt_cpp.Fixed12.{max_frac_bits}
use moxt_cpp.Fixed12.Print.{count_zeros}

split_zeros : (s : Bytes) → s ≡ zeros (count_zeros s) ++ drop (count_zeros s) s
unfolding count_zeros
split_zeros [] = refl
split_zeros (c ∷ s) = ground (arith, split_zeros s)

zeros_end : (n : ℕ) → zeros n ++ b'0' ∷ [] ≡ b'0' ∷ zeros n
zeros_end zero = refl
zeros_end (suc n) = ap (λ t. b'0' ∷ t) (zeros_end n)

reverse-zeros : (n : ℕ) → reverse (zeros n) ≡ zeros n
reverse-zeros zero = refl
reverse-zeros (suc n) = reverse-append (b'0' ∷ []) (zeros n) ∙ cc (reverse-zeros n, zeros_end n)

-- The zeros at the end of `s`.
abbrev pub end_zeros : Bytes → ℕ
end_zeros s = count_zeros (reverse s)

-- What is left of `s` without them.
abbrev pub trimmed : Bytes → Bytes
trimmed s = take (length s - end_zeros s) s

abbrev pub kept : Bytes → Bytes
kept s = reverse (drop (end_zeros s) (reverse s))

kept-append : (s : Bytes) → kept s ++ zeros (end_zeros s) ≡ s
kept-append s = cc (
  split_zeros (reverse s),
  reverse-reverse s,
  reverse-append (zeros (end_zeros s)) (drop (end_zeros s) (reverse s)),
  reverse-zeros (end_zeros s),
)

pub trimmed-kept : (s : Bytes) → trimmed s ≡ kept s
trimmed-kept s = cc (kept-append s, index, take-length-append (kept s) (zeros (end_zeros s)))
  where
    index : length s - end_zeros s ≡ length (kept s)
    index = omega (
      arith,
      ap length (kept-append s),
      length-append (kept s) (zeros (end_zeros s)),
      length-zeros (end_zeros s),
    )

-- The characters left out are zeros.
pub trimmed-append : (s : Bytes) → trimmed s ++ zeros (end_zeros s) ≡ s
trimmed-append s = cc (kept-append s, trimmed-kept s)

-- What `fraction` writes behind the period.
abbrev pub decimals : ℕ → Bytes
decimals frac =
    let digits = to_string frac in zeros (max_frac_bits - length digits) ++ trimmed digits

pub decimals-digits : (frac : ℕ) → All IsDigit (decimals frac)
unfolding to_string
decimals-digits frac =
    let digits = to_string frac in
    let gap = max_frac_bits - length digits in
    let shown = length digits - end_zeros digits in
    All-append IsDigit (zeros gap) (take shown digits) (zeros-digits gap)
      (take-digits shown digits (decimal-digits (suc frac) frac))

pub length-trimmed : (s : Bytes) → length (trimmed s) + end_zeros s ≡ length s
length-trimmed s = omega (
  arith,
  ap length (trimmed-append s),
  length-append (trimmed s) (zeros (end_zeros s)),
  length-zeros (end_zeros s),
)

pub length-to_string-le : (frac : ℕ) → frac < 10 ^ 12 → length (to_string frac) ≤ 12
unfolding to_string
length-to_string-le frac h = length-decimal-le 11 (suc frac) frac h

pub length-decimals :
    (frac : ℕ)
    → length (decimals frac)
      ≡ max_frac_bits - length (to_string frac) + length (trimmed (to_string frac))
length-decimals frac = omega (
  arith,
  length-append (zeros (max_frac_bits - length (to_string frac))) (trimmed (to_string frac)),
  length-zeros (max_frac_bits - length (to_string frac)),
)

pub length-decimals-le : (frac : ℕ) → frac < 10 ^ 12 → length (decimals frac) ≤ 12
length-decimals-le frac h =
    omega (arith, length-decimals frac, length-trimmed (to_string frac), length-to_string-le frac h)

-- Filled up with zeros to 12 places, they spell the fractional part again.
pub value-decimals :
    (frac : ℕ)
    → frac < 10 ^ 12
    → value 0 (decimals frac ++ zeros (max_frac_bits - length (decimals frac))) ≡ frac
unfolding to_string
value-decimals frac h =
    ap (value 0) refilled
    ∙ value_leading_zeros (max_frac_bits - length (to_string frac)) (to_string frac)
    ∙ value-decimal (suc frac) frac (omega arith)
  where
    fill : max_frac_bits - length (decimals frac) ≡ end_zeros (to_string frac)
    fill =
        omega
          (arith, length-decimals frac, length-trimmed (to_string frac), length-to_string-le frac h)

    refilled :
        decimals frac ++ zeros (max_frac_bits - length (decimals frac))
        ≡ zeros (max_frac_bits - length (to_string frac)) ++ to_string frac
    refilled = cc (
      fill,
      append_assoc (zeros (max_frac_bits - length (to_string frac))) (trimmed (to_string frac))
          (zeros (end_zeros (to_string frac))),
      trimmed-append (to_string frac),
    )

pub scaled_decimals :
    (frac : ℕ)
    → frac < 10 ^ 12
    → value 0 (decimals frac) * 10 ^ (12 - length (decimals frac)) ≡ frac
scaled_decimals frac h =
    sym (value-zeros (value 0 (decimals frac)) (12 - length (decimals frac)))
    ∙ sym (value-append 0 (decimals frac) (zeros (12 - length (decimals frac))))
    ∙ value-decimals frac h
