-- ===== src/Fixed12.antt =====
-- moxt/fixed12.hpp: the class `Fixed12`, a number in units of 10^-12 held in an int64_t, its
-- constructors from integers, its additive operators and its comparisons. Parsing, printing and
-- the operators that go through big integers are in the modules below. `newD`, `toDouble`,
-- `round` and `roundToFractional` compute with doubles and are not modelled.
pub mod Parse
pub mod Print
pub mod RoundTrip
pub mod BigInt
pub mod Scale
pub mod Sums
mod Tests
use moxt_cpp.Prelude.{ℕ, ◌^◌, Bool, not, ◌||◌}
use moxt_cpp.Prelude.Int.{ℤ, pos, ◌+ℤ◌, ◌-ℤ◌, ◌*ℤ◌, tdiv, tmod, ltb_ℤ, eqb_ℤ}
use moxt_cpp.Prelude.Outcome.{Outcome, ok, i64, ◌>>=◌}

-- FIXED_SCALE
abbrev pub fixed_scale : ℕ
fixed_scale = 1_000_000_000_000

-- MAX_FRAC_BITS
abbrev pub max_frac_bits : ℕ
max_frac_bits = 12

pub record Fixed12 : Type 0 where
  pub value : ℤ

abbrev pub of_value : ℤ → Fixed12
of_value v = record { value = v }

unfoldable pub new_i : ℤ → Outcome Fixed12
new_i v = do p ← i64 (v *ℤ pos fixed_scale); ok (of_value p)

unfoldable pub is_zero : Fixed12 → Bool
is_zero a = eqb_ℤ a.value (pos 0)

-- fixed12_int_part
unfoldable pub int_part : ℤ → ℤ
unfolding tdiv
int_part v = tdiv v (pos fixed_scale)

-- fixed12_frac_part
unfoldable pub frac_part : ℤ → ℤ
unfolding tmod
frac_part v = tmod v (pos fixed_scale)

unfoldable pub to_int : Fixed12 → ℤ
to_int a = tdiv a.value (pos fixed_scale)

unfoldable pub to_fractional_part : Fixed12 → ℤ
to_fractional_part a = tmod a.value (pos fixed_scale)

unfoldable pub add : Fixed12 → Fixed12 → Outcome Fixed12
add a b = do v ← i64 (a.value +ℤ b.value); ok (of_value v)

unfoldable pub sub : Fixed12 → Fixed12 → Outcome Fixed12
sub a b = do v ← i64 (a.value -ℤ b.value); ok (of_value v)

unfoldable pub eq : Fixed12 → Fixed12 → Bool
eq a b = eqb_ℤ a.value b.value

unfoldable pub ne : Fixed12 → Fixed12 → Bool
ne a b = not (eqb_ℤ a.value b.value)

unfoldable pub lt : Fixed12 → Fixed12 → Bool
lt a b = ltb_ℤ a.value b.value

unfoldable pub le : Fixed12 → Fixed12 → Bool
le a b = not (ltb_ℤ b.value a.value)

unfoldable pub gt : Fixed12 → Fixed12 → Bool
gt a b = ltb_ℤ b.value a.value

unfoldable pub ge : Fixed12 → Fixed12 → Bool
ge a b = not (ltb_ℤ a.value b.value)
