-- ===== src/Fixed12/Print/Trimmed.antt =====
-- The text that `seq_fixed12_to_string` writes, pinned by what it spells.
use mathlib.Core.List.{reverse-cons}
use moxt_cpp.Prelude.{
  ℕ, ◌+◌, ◌-◌, ◌*◌, ◌/◌, ◌%◌, ◌^◌, ◌≤◌, ◌<◌, ◌≡◌, ◌≢◌, ◌∙◌, refl, sym, ap, Bytes, [], ◌∷◌, ◌++◌,
  append_assoc, reverse, arith, length, drop, All, inl, inr, ◌⊎◌, Bool-cases, Bool, ◌==◌, ltb,
  append-nil,
}
use mathlib.Core.Path.{subst}
use moxt_cpp.Prelude.Int.{ℤ, abs_ℕ, is_neg}
use moxt_cpp.Prelude.Outcome.{ok}
use moxt_cpp.Decimal.{IsDigit, value, value-append, value-zeros, to_string, zeros}
use moxt_cpp.Fixed12.{fixed_scale, max_frac_bits}
use moxt_cpp.Fixed12.Print.{count_zeros, to_string_buffer}
use moxt_cpp.Fixed12.Parse.Value.{sign_text}
use moxt_cpp.Fixed12.Print.Fraction.{
  trimmed-kept, decimals, decimals-digits, length-decimals-le, scaled_decimals,
}
use moxt_cpp.Fixed12.Print.Layout.{shown, to_string_buffer-shown}

-- `ds` is the fraction of `frac` units of 10^-12 with no zero at its end.
pub record Decimals (frac : ℕ) (ds : Bytes) : Type 0 where
  pub digits : All IsDigit ds
  pub short : length ds ≤ 12
  pub spells : value 0 ds * 10 ^ (12 - length ds) ≡ frac
  pub no_zero_end : 0 < value 0 ds % 10

-- Behind the zeros stands another character.
after_zeros :
    (s : Bytes)
    → (drop (count_zeros s) s ≡ [])
      ⊎ ((c : ℕ) × (u : Bytes) × (drop (count_zeros s) s ≡ c ∷ u) × (c ≢ b'0'))
unfolding count_zeros
after_zeros [] = inl refl
after_zeros (c ∷ s) = elim (Bool-cases (c == b'0')) [
  | inl e ↦ rw e (after_zeros s)
  | inr e ↦ rw e (inr (c, s, refl, λ h. ground arith))
]

last-IsDigit : (xs : Bytes) (c : ℕ) → All IsDigit (xs ++ c ∷ []) → IsDigit c
last-IsDigit [] c (h, _) = h
last-IsDigit (x ∷ xs) c (_, hs) = last-IsDigit xs c hs

value-snoc : (xs : Bytes) (c : ℕ) → value 0 (xs ++ c ∷ []) ≡ value 0 xs * 10 + (c - b'0')
value-snoc xs c = value-append 0 xs (c ∷ [])

no_zero :
    (xs : Bytes) (c : ℕ) → All IsDigit (xs ++ c ∷ []) → c ≢ b'0' → 0 < value 0 (xs ++ c ∷ []) % 10
no_zero xs c h n =
    let (l, u) = last-IsDigit xs c h in
    let m : 0 < c - b'0' = ground (arith, n) in rw (value-snoc xs c) (omega arith)

only_zeros : (n : ℕ) → value 0 (zeros n) ≡ 0
only_zeros n = omega (arith, value-zeros 0 n)

zero_product : (k p n : ℕ) → k ≡ 0 → k * p ≡ n → n ≡ 0
zero_product k p n z e = let h : 0 * p ≡ n = ap (λ x. x * p) (sym z) ∙ e in omega arith

decimals_end : (frac : ℕ) → 0 < frac → frac < 10 ^ 12 → 0 < value 0 (decimals frac) % 10
decimals_end frac p h =
    let digits = to_string frac in
    let gap = zeros (max_frac_bits - length digits) in
    elim (after_zeros (reverse digits)) [
      | inl e ↦
          let all : decimals frac ≡ gap =
            ap (λ t. gap ++ t) (trimmed-kept digits ∙ ap reverse e) ∙ append-nil gap in
          let none : value 0 (decimals frac) ≡ 0 =
            ap (value 0) all ∙ only_zeros (max_frac_bits - length digits) in
          absurd (frac_positive none)
      | inr (c, u, e, n) ↦
          let all : decimals frac ≡ (gap ++ reverse u) ++ c ∷ [] =
            ap (λ t. gap ++ t) (trimmed-kept digits ∙ ap reverse e ∙ reverse-cons c u)
            ∙ sym (append_assoc gap (reverse u) (c ∷ [])) in
          subst (λ ds. 0 < value 0 ds % 10) (sym all)
            (no_zero (gap ++ reverse u) c (subst (All IsDigit) all (decimals-digits frac)) n)
    ]
  where
    frac_positive : value 0 (decimals frac) ≡ 0 → ⊥
    frac_positive z =
        let e =
          zero_product (value 0 (decimals frac)) (10 ^ (12 - length (decimals frac))) frac z
            (scaled_decimals frac h) in
        omega arith

-- The text of `n` units of 10^-12: an optional sign and the whole part, then nothing if there is
-- no fraction, or a period and the decimals.
pub Spelled : Bool → ℕ → Bytes → Type 0
Spelled negative n text =
    ((n % fixed_scale ≡ 0) × (text ≡ sign_text negative ++ to_string (n / fixed_scale)))
    ⊎ ((ds : Bytes) × (text ≡ sign_text negative ++ (to_string (n / fixed_scale) ++ b'.' ∷ ds))
        × Decimals (n % fixed_scale) ds)

shown-Spelled : (negative : Bool) (n : ℕ) → Spelled negative n (shown negative n)
unfolding Spelled
shown-Spelled negative n =
    let frac = n % fixed_scale in
    elim (Bool-cases (ltb 0 frac)) [
      | inl e ↦
          let small : frac < 10 ^ 12 = omega arith in
          let some_left : 0 < frac = ground arith in
          inr (
            decimals frac,
            rw e refl,
            record {
              digits = decimals-digits frac;
              short = length-decimals-le frac small;
              spells = scaled_decimals frac small;
              no_zero_end = decimals_end frac some_left small;
            },
          )
      | inr e ↦ inl (ground arith, rw (e, append-nil (to_string (n / fixed_scale))) refl)
    ]

-- Every int64_t but the least is printed as an optional sign and its whole part, and behind a
-- period, if it has a fraction, the at most 12 digits that spell the fraction and do not end in a
-- zero. The number of characters is returned.
pub to_string_buffer-Spelled :
    (v : ℤ)
    → abs_ℕ v < 2 ^ 63
    → (text : Bytes) × (to_string_buffer v ≡ ok (text, length text))
      × Spelled (is_neg v) (abs_ℕ v) text
to_string_buffer-Spelled v h =
    (shown (is_neg v) (abs_ℕ v), to_string_buffer-shown v h, shown-Spelled (is_neg v) (abs_ℕ v))
