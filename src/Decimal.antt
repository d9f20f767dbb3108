-- ===== src/Decimal.antt =====
-- Decimal numerals: `std::to_string` of a non-negative number, and the number that digits spell.
-- Every fuel above the number is enough: a round divides it by ten.
use native.Mathlib.Nat.{mul-le-mul_right, pow-succ', pow-suc, one-le-pow}
use moxt_cpp.Prelude.{
  ℕ, zero, suc, ◌+◌, ◌-◌, ◌*◌, ◌/◌, ◌%◌, ◌^◌, ◌≤◌, ◌<◌, ◌≡◌, refl, Bytes, [], ◌∷◌, ◌++◌, arith, ltb,
  if◌then◌else◌, length, length-append, All, All-append, replicate, take, length-replicate,
}

abbrev pub IsDigit : ℕ → Type 0
IsDigit c = (b'0' ≤ c) × (c ≤ b'9')

-- most significant digit first
unfoldable pub decimal : ℕ → ℕ → Bytes
decimal zero n = []
decimal (suc fuel) n =
    let rest = decimal fuel (n / 10) in (if ltb n 10 then [] else rest) ++ (b'0' + n % 10) ∷ []

unfoldable pub to_string : ℕ → Bytes
unfolding decimal
to_string n = decimal (suc n) n

-- the number that digits spell behind `acc`
abbrev pub value : ℕ → Bytes → ℕ
value acc [] = acc
value acc (c ∷ s) = value (acc * 10 + (c - b'0')) s

pub value-append : (acc : ℕ) (s t : Bytes) → value acc (s ++ t) ≡ value (value acc s) t
value-append acc [] t = refl
value-append acc (c ∷ s) t = value-append (acc * 10 + (c - b'0')) s t

pub le-value : (acc : ℕ) (s : Bytes) → acc ≤ value acc s
le-value acc [] = omega arith
le-value acc (c ∷ s) = omega (arith, le-value (acc * 10 + (c - b'0')) s)

pub value-zeros : (acc n : ℕ) → value acc (replicate n b'0') ≡ acc * 10 ^ n
value-zeros acc zero = omega arith
value-zeros acc (suc n) = rw (value-zeros (acc * 10 + 0) n, pow-suc 10 n) (grind arith)

pub value_leading_zeros : (n : ℕ) (s : Bytes) → value 0 (replicate n b'0' ++ s) ≡ value 0 s
value_leading_zeros zero s = refl
value_leading_zeros (suc n) s = value_leading_zeros n s

pub value-decimal : (fuel n : ℕ) → n < fuel → value 0 (decimal fuel n) ≡ n
unfolding decimal
value-decimal zero n h = absurd (omega arith)
value-decimal (suc fuel) n h = ground (
  arith,
  value-append 0 (decimal fuel (n / 10)) ((b'0' + n % 10) ∷ []),
  value-decimal fuel (n / 10),
)

pub decimal-digits : (fuel n : ℕ) → All IsDigit (decimal fuel n)
unfolding decimal
decimal-digits zero n = tt
decimal-digits (suc fuel) n = ground (
  arith,
  All-append IsDigit (decimal fuel (n / 10)) ((b'0' + n % 10) ∷ []),
  decimal-digits fuel (n / 10),
)

pub length-decimal-le : (k fuel n : ℕ) → n < 10 ^ suc k → length (decimal fuel n) ≤ suc k
unfolding decimal
length-decimal-le k zero n h = omega arith
length-decimal-le zero (suc fuel) n h = ground arith
length-decimal-le (suc k) (suc fuel) n h = ground (
  arith,
  pow-suc 10 (suc k),
  length-append (decimal fuel (n / 10)) ((b'0' + n % 10) ∷ []),
  length-decimal-le k fuel (n / 10),
)

pub le-length-decimal : (k fuel n : ℕ) → n < fuel → 10 ^ k ≤ n → suc k ≤ length (decimal fuel n)
unfolding decimal
le-length-decimal k zero n h p = absurd (omega arith)
le-length-decimal zero (suc fuel) n h p =
    omega
      (arith, length-append (if ltb n 10 then [] else decimal fuel (n / 10)) ((b'0' + n % 10) ∷ []))
le-length-decimal (suc k) (suc fuel) n h p = ground (
  arith,
  pow-suc 10 k,
  one-le-pow k 10,
  length-append (decimal fuel (n / 10)) ((b'0' + n % 10) ∷ []),
  le-length-decimal k fuel (n / 10),
)

next_digit : (a d p : ℕ) → d ≤ 9 → (a * 10 + d + 1) * p ≤ (a + 1) * (10 * p)
next_digit a d p h = omega (arith, mul-le-mul_right p h)

pub value-lt : (acc : ℕ) (s : Bytes) → All IsDigit s → value acc s < (acc + 1) * 10 ^ length s
value-lt acc [] h = omega arith
value-lt acc (c ∷ s) h = rw (pow-succ' 10 (length s)) (
    omega (
      arith,
      next_digit acc (c - b'0') (10 ^ length s) (omega arith),
      value-lt (acc * 10 + (c - b'0')) s h.1,
    ))

abbrev pub zeros : ℕ → Bytes
zeros n = replicate n b'0'

pub length-zeros : (n : ℕ) → length (zeros n) ≡ n
length-zeros n = length-replicate n b'0'

pub zeros-digits : (n : ℕ) → All IsDigit (zeros n)
zeros-digits zero = tt
zeros-digits (suc n) = (omega arith, zeros-digits n)

pub take-digits : (n : ℕ) (s : Bytes) → All IsDigit s → All IsDigit (take n s)
take-digits zero s h = tt
take-digits (suc n) [] h = tt
take-digits (suc n) (c ∷ s) h = (h.0, take-digits n s h.1)
