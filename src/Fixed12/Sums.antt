-- ===== src/Fixed12/Sums.antt =====
-- The additive operators and the comparisons of moxt/fixed12.hpp, and the two parts of a number.
use moxt_cpp.Prelude.{◌<◌, ◌≡◌, true, arith}
use moxt_cpp.Prelude.Int.{ℤ, pos, negsuc, abs_ℕ, fits_i64, ◌+ℤ◌, ◌-ℤ◌, ◌*ℤ◌, int_laws, +ℤ_parts}
use moxt_cpp.Prelude.Outcome.{ok}
use moxt_cpp.Fixed12.{Fixed12, fixed_scale, add, sub, lt, int_part, frac_part}

cancel : (a b : ℤ) → a +ℤ b -ℤ b ≡ a
cancel a b = omega int_laws

add_inv : (a b c : Fixed12) → add a b ≡ ok c → c.value ≡ a.value +ℤ b.value
unfolding add
add_inv a b c h = ground arith

-- A sum that is defined can be undone: subtracting one operand gives the other, for every number
-- that an int64_t holds.
pub sub-add : (a b c : Fixed12) → fits_i64 a.value ≡ true → add a b ≡ ok c → sub c b ≡ ok a
unfolding sub
sub-add a b c fits h = rw (add_inv a b c h, cancel a.value b.value, fits)

-- Adding the same number on both sides keeps the comparison, where both sums are defined.
pub lt-add : (a b c d e : Fixed12) → add a c ≡ ok d → add b c ≡ ok e → lt d e ≡ lt a b
unfolding lt
lt-add a b c d e h k =
    rw (add_inv a c d h, add_inv b c e k)
      (ground (arith, +ℤ_parts a.value c.value, +ℤ_parts b.value c.value))

-- The integer part and the fractional part make up the number, and the fractional part is below
-- one in size.
pub int_part-frac_part :
    (v : ℤ)
    → (int_part v *ℤ pos fixed_scale +ℤ frac_part v ≡ v) × (abs_ℕ (frac_part v) < fixed_scale)
unfolding int_part frac_part ◌*ℤ◌ ◌+ℤ◌
int_part-frac_part (pos n) = (ground arith, ground arith)
int_part-frac_part (negsuc n) = (ground arith, ground arith)
