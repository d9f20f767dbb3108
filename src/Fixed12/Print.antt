-- ===== src/Fixed12/Print.antt =====
-- moxt/fixed12.cpp: `seq_fixed12_to_string`, the print into a caller's buffer, and
-- `Fixed12::toString`. The buffer is the list of the characters written, so `index` is its length.
pub mod Digits
pub mod Reverse
pub mod Fraction
pub mod Layout
pub mod Trimmed
pub mod Buffer
use moxt_cpp.Prelude.{
  Bool, ℕ, zero, suc, ◌+◌, ◌-◌, ◌/◌, ◌%◌, Bytes, [], ◌∷◌, ◌++◌, ltb, ◌==◌, if◌then◌else◌, length,
  set, take, replicate, reverse,
}
use moxt_cpp.Prelude.Int.{ℤ, pos, abs_ℕ, is_neg, neg, ltb_ℤ}
use moxt_cpp.Prelude.Outcome.{Outcome, ok, fault, bad_index, i64, ◌>>=◌}
use moxt_cpp.Decimal
use moxt_cpp.Fixed12.{max_frac_bits, Fixed12, int_part, frac_part}

-- `do { result[index++] = '0' + intPart % 10; intPart /= 10; } while (intPart > 0);`
-- Each round divides by ten, so that more rounds than the number are enough.
unfoldable pub push_digits : ℕ → ℕ → Bytes → Bytes
push_digits zero n result = result
push_digits (suc fuel) n result =
    let result' = result ++ (b'0' + n % 10) ∷ [] in
    let rest = push_digits fuel (n / 10) result' in if ltb 0 (n / 10) then rest else result'

abbrev pub get_or_zero : Bytes → ℕ → ℕ
get_or_zero [] i = 0
get_or_zero (x ∷ xs) zero = x
get_or_zero (x ∷ xs) (suc i) = get_or_zero xs i

unfoldable pub swap : ℕ → ℕ → Bytes → Bytes
swap i j result = set (set result i (get_or_zero result j)) j (get_or_zero result i)

-- `for (int i = 0, j = index - 1; i < j; i++, j--)`, with fuel for the rounds.
unfoldable pub reverse_loop : ℕ → ℕ → ℕ → Bytes → Bytes
reverse_loop zero i j result = result
reverse_loop (suc fuel) i j result =
    let rest = reverse_loop fuel (i + 1) (j - 1) (swap i j result) in
    if ltb i j then rest else result

-- The loop that counts `fracPartN` runs over the digits from the last to the first.
unfoldable pub count_zeros : Bytes → ℕ
count_zeros [] = 0
count_zeros (c ∷ s) = if c == b'0' then suc (count_zeros s) else 0

unfoldable pub fraction : ℕ → Bytes
fraction frac =
    let digits = Decimal.to_string frac in
    let zeros_to_add = max_frac_bits - length digits in
    let trailing = count_zeros (reverse digits) in
    b'.' ∷ replicate zeros_to_add b'0' ++ take (length digits - trailing) digits

-- `isNegative ? -fixed : fixed`: the least int64_t has no negation.
unfoldable pub magnitude : ℤ → Outcome ℤ
magnitude fixed = if is_neg fixed then i64 (neg fixed) else ok fixed

unfoldable pub strlen : Bytes → ℕ
strlen [] = 0
strlen (c ∷ s) = if c == 0 then 0 else suc (strlen s)

-- The characters of a number that is not negative, behind the sign that is asked for.
unfoldable pub written : Bool → ℤ → Bytes
written negative size =
    let whole = abs_ℕ (int_part size) in
    let digits = push_digits (suc whole) whole [] in
    let signed = if negative then digits ++ b'-' ∷ [] else digits in
    let front = reverse_loop (length signed) 0 (length signed - 1) signed in
    let frac = frac_part size in
    if ltb_ℤ (pos 0) frac then front ++ fraction (abs_ℕ frac) else front

-- The characters before the terminating zero, and the value returned.
unfoldable pub to_string_buffer : ℤ → Outcome (Bytes × ℕ)
to_string_buffer fixed = do
  size ← magnitude fixed
  let result = written (is_neg fixed) size
  ok (result, strlen result)

-- `char result[17]`
abbrev pub buffer_size : ℕ
buffer_size = 17

-- `Fixed12::toString`: a write behind the 17 characters is out of bounds; the terminating zero is
-- one more character.
unfoldable pub to_string : Fixed12 → Outcome Bytes
to_string a = do
  printed ← to_string_buffer a.value
  (if ltb (length printed.0) buffer_size then ok (take printed.1 printed.0) else fault bad_index)
