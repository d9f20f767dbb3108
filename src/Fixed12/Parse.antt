-- ===== src/Fixed12/Parse.antt =====
-- moxt/fixed12.cpp: `fixed12_new_string_view`. The locals `i` and `f` have no initial value in the
-- source: `none` stands for that, and reading one is a fault.
pub mod Decimals
pub mod Value
use moxt_cpp.Prelude.{
  ℕ, suc, ◌+◌, ◌-◌, Bool, Option, none, some, Bytes, [], ◌∷◌, ◌++◌, ltb, ◌==◌, if◌then◌else◌,
  length, take, drop, replicate, not,
}
use moxt_cpp.Prelude.Int.{ℤ, pos, negsuc, ◌+ℤ◌, ◌*ℤ◌, tdiv, tmod, ltb_ℤ}
use moxt_cpp.Prelude.Outcome.{Outcome, ok, fault, uninitialised, bad_index, i64, ◌>>=◌}
use moxt_cpp.Prelude.Text.{find}
use moxt_cpp.Decimal
use moxt_cpp.Cast.{strtoi}
use moxt_cpp.Fixed12.{fixed_scale, max_frac_bits, Fixed12, of_value}

-- `std::to_string` of an int64_t.
abbrev pub to_string : ℤ → Bytes
to_string (pos n) = Decimal.to_string n
to_string (negsuc n) = b'-' ∷ Decimal.to_string (suc n)

-- More than 12 decimals: the first 13, rounded to 12 and written back as a text.
unfoldable pub round_decimals : Bytes → Outcome Bytes
round_decimals fs = do
  decimal_part ← strtoi (take (max_frac_bits + 1) fs)
  let tenth = tdiv decimal_part (pos 10)
  let up = not (ltb_ℤ (tmod decimal_part (pos 10)) (pos 5))
  ok (take max_frac_bits (to_string (if up then tenth +ℤ pos 1 else tenth)))

-- The decimals as a text of at most 12 characters.
unfoldable pub fit_decimals : Bytes → Outcome Bytes
fit_decimals fs =
    if ltb max_frac_bits (length fs)
    then round_decimals fs
    else ok (fs ++ replicate (max_frac_bits - length fs) b'0')

-- Reading a local variable.
unfoldable pub read : Option ℤ → Outcome ℤ
read none = fault uninitialised
read (some v) = ok v

-- The assignments to `i` and `f`, by the place of the period.
unfoldable pub parts : Bytes → Option ℕ → Outcome (Option ℤ × Option ℤ)
parts s none = do i ← strtoi s; ok (some i, none)
parts s (some period) = do
  i ← (if ltb 0 period then (strtoi (take period s) >>= λ v. ok (some v)) else ok none)
  fs ← fit_decimals (drop (period + 1) s)
  f ← strtoi (take max_frac_bits fs)
  ok (i, some f)

-- `sign * (i * FIXED_SCALE + f)`
unfoldable pub combine : Bool → Option ℤ → Option ℤ → Outcome ℤ
combine negative i f = do
  whole ← read i
  scaled ← i64 (whole *ℤ pos fixed_scale)
  decimals ← read f
  sum ← i64 (scaled +ℤ decimals)
  i64 ((if negative then negsuc 0 else pos 1) *ℤ sum)

-- `s[0]` of an empty view is out of bounds.
unfoldable pub new_string_view : Bytes → Outcome ℤ
new_string_view [] = fault bad_index
new_string_view (c ∷ s) = do
  let negative = c == b'-'
  let digits = if negative then s else c ∷ s
  vars ← parts digits (find b'.' digits)
  combine negative vars.0 vars.1

-- `Fixed12::newSV` and `newS`
unfoldable pub new_s : Bytes → Outcome Fixed12
new_s s = do v ← new_string_view s; ok (of_value v)
