-- ===== src/Prelude/Bits.antt =====
-- Bit operations of the native numbers at a shift and at a mask, for every width.
use Prim.Native.Nat.{
  ℕ, zero, suc, ◌+◌, ◌-◌, ◌*◌, ◌/◌, ◌%◌, ◌^◌, ◌≤◌, ◌<◌, min, max, bit_and, bit_or, digits,
  bit_and-bitwise, bit_or-bitwise,
}
use native.Mathlib.Nat.{pow-suc, pow-succ', div-div-eq-div-mul, one-le-pow, div-add-mod'}
use mathlib.Core.Path.{◌≡◌, ◌∙◌, refl, sym, ap}
use native.Mathlib.Omega.{arith}

module _ (at_zero : ℕ → ℕ) (digit : ℕ → ℕ → ℕ) where
  no_digits : (fuel y : ℕ) → digits at_zero digit fuel 0 y ≡ at_zero y
  no_digits zero y = refl
  no_digits (suc fuel) y = refl

  -- The recursion over the digits does not depend on its fuel, once that is enough.
  same_digits :
      (x y g h : ℕ) → x ≤ g → x ≤ h → digits at_zero digit g x y ≡ digits at_zero digit h x y
  same_digits zero y g h p q = no_digits g y ∙ sym (no_digits h y)
  same_digits (suc x) y zero h p q = absurd (omega arith)
  same_digits (suc x) y (suc g) zero p q = absurd (omega arith)
  same_digits (suc x) y (suc g) (suc h) p q =
      ap (λ rest. rest * 2 + digit (suc x % 2) (y % 2))
        (same_digits (suc x / 2) (y / 2) g h (omega arith) (omega arith))

  -- One digit of the definition.
  first_digit :
      (x y : ℕ)
      → ((v : ℕ) → at_zero (v / 2) * 2 + digit 0 (v % 2) ≡ at_zero v)
      → digits at_zero digit x x y
        ≡ digits at_zero digit (x / 2) (x / 2) (y / 2) * 2 + digit (x % 2) (y % 2)
  first_digit zero y zeros = sym (zeros y)
  first_digit (suc x) y zeros =
      ap (λ rest. rest * 2 + digit (suc x % 2) (y % 2))
        (same_digits (suc x / 2) (y / 2) x (suc x / 2) (omega arith) (omega arith))

-- What both operations are by their lowest digits.
pub bit_steps :
    (x y : ℕ)
    → (bit_and x y ≡ bit_and (x / 2) (y / 2) * 2 + min (x % 2) (y % 2))
      × (bit_or x y ≡ bit_or (x / 2) (y / 2) * 2 + max (x % 2) (y % 2))
bit_steps x y = (
  bit_and-bitwise x y
      ∙ first_digit (λ v. 0) min x y (λ v. omega arith)
      ∙ ap (λ rest. rest * 2 + min (x % 2) (y % 2)) (sym (bit_and-bitwise (x / 2) (y / 2))),
  bit_or-bitwise x y
      ∙ first_digit (λ v. v) max x y (λ v. omega arith)
      ∙ ap (λ rest. rest * 2 + max (x % 2) (y % 2)) (sym (bit_or-bitwise (x / 2) (y / 2))),
)

-- Zero on the right, for the numbers up to a bound.
with_zero : (bound x : ℕ) → x ≤ bound → (bit_and x 0 ≡ 0) × (bit_or x 0 ≡ x)
with_zero bound zero h = (bit_and-bitwise 0 0, bit_or-bitwise 0 0)
with_zero zero (suc x) h = absurd (omega arith)
with_zero (suc bound) (suc x) h =
    let half = with_zero bound (suc x / 2) (omega arith) in
    let steps = bit_steps (suc x) 0 in
    (omega (arith, half.0, steps.0), omega (arith, half.1, steps.1))

bit_or_at : (a b c d : ℕ) → a ≡ c → b ≡ d → bit_or a b ≡ bit_or c d
bit_or_at a b c d p q = cc

bit_and_at : (a b c d : ℕ) → a ≡ c → b ≡ d → bit_and a b ≡ bit_and c d
bit_and_at a b c d p q = cc

double : (k x : ℕ) → x * 2 ^ suc k ≡ x * 2 ^ k * 2
double k x = rw pow-suc (omega arith)

-- A value below the shift does not meet the bits above it.
pub bit_or_shifted : (k x s : ℕ) → s < 2 ^ k → bit_or (x * 2 ^ k) s ≡ x * 2 ^ k + s
bit_or_shifted zero x s h = omega (
  arith,
  bit_or_at (x * 2 ^ 0) s x 0 (omega arith) (omega arith),
  (with_zero x x (omega arith)).1,
)
bit_or_shifted (suc k) x s h = omega (
  arith,
  double k x,
  pow-suc 2 k,
  (bit_steps (x * 2 ^ suc k) s).1,
  bit_or_at (x * 2 ^ suc k / 2) (s / 2) (x * 2 ^ k) (s / 2) (omega (arith, double k x)) refl,
  bit_or_shifted k x (s / 2) (omega (arith, pow-suc 2 k)),
)

halves_again : (k x : ℕ) → x / 2 / 2 ^ k ≡ x / 2 ^ suc k
halves_again k x = div-div-eq-div-mul x 2 (2 ^ k) ∙ ap (λ n. x / n) (sym (pow-succ' 2 k))

-- The bits below a mask's lowest place do not count.
pub bit_and_shifted : (k m x : ℕ) → bit_and (m * 2 ^ k) x ≡ bit_and m (x / 2 ^ k) * 2 ^ k
bit_and_shifted zero m x =
    omega (arith, bit_and_at (m * 2 ^ 0) x m (x / 2 ^ 0) (omega arith) (omega arith))
bit_and_shifted (suc k) m x = omega (
  arith,
  double k m,
  pow-suc 2 k,
  (bit_steps (m * 2 ^ suc k) x).0,
  bit_and_at (m * 2 ^ suc k / 2) (x / 2) (m * 2 ^ k) (x / 2) (omega (arith, double k m)) refl,
  bit_and_shifted k m (x / 2),
  ap (λ q. bit_and m q * 2 ^ k) (halves_again k x),
  double k (bit_and m (x / 2 ^ suc k)),
)

mod_double : (k a : ℕ) → a % 2 ^ suc k ≡ a / 2 % 2 ^ k * 2 + a % 2
mod_double k a = omega (
  arith,
  div-add-mod' a (2 ^ suc k),
  div-add-mod' (a / 2) (2 ^ k),
  double k (a / 2 ^ suc k),
  ap (λ q. q * 2 ^ k) (halves_again k a),
)

-- A mask of k ones keeps the remainder by 2^k.
pub bit_and_mask : (k a : ℕ) → bit_and a (2 ^ k - 1) ≡ a % 2 ^ k
bit_and_mask zero a = omega (arith, (with_zero a a (omega arith)).0)
bit_and_mask (suc k) a = omega (
  arith,
  pow-suc 2 k,
  one-le-pow k 2,
  (bit_steps a (2 ^ suc k - 1)).0,
  bit_and_at (a / 2) ((2 ^ suc k - 1) / 2) (a / 2) (2 ^ k - 1) refl
      (omega (arith, pow-suc 2 k, one-le-pow k 2)),
  bit_and_mask k (a / 2),
  mod_double k a,
)
