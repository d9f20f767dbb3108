-- ===== src/Fixed12/Parse/Value.antt =====
-- What `fixed12_new_string_view` returns on `[-]digits.digits` and on `[-]digits`.
use native.Mathlib.Nat.{suc-add}
use moxt_cpp.Prelude.{
  ℕ, ◌+◌, ◌-◌, ◌*◌, ◌^◌, ◌≤◌, ◌<◌, ◌≡◌, ◌≢◌, ◌∙◌, refl, ap, Bool, true, false, Option, none, some,
  Bytes, [], ◌∷◌, ◌++◌, if◌then◌else◌, arith, length, take, drop, take-length-append, All, lt→ltb,
}
use moxt_cpp.Prelude.Int.{ℤ, pos, signed, ◌+ℤ◌, ◌*ℤ◌}
use moxt_cpp.Prelude.Outcome.{Outcome, ok, fault, uninitialised, ◌>>=◌, >>=-chain}
use moxt_cpp.Prelude.Text.{find, Lacks, find_first, find-Lacks}
use moxt_cpp.Decimal.{IsDigit, value}
use moxt_cpp.Cast.{strtoi, strtoi-value}
use moxt_cpp.Fixed12.{fixed_scale, max_frac_bits}
use moxt_cpp.Fixed12.Parse.{fit_decimals, read, parts, combine, new_string_view}
use moxt_cpp.Fixed12.Parse.Decimals.{
  read_decimals, read_decimals-short, read_decimals-long, rounded,
}

digits-Lacks : (s : Bytes) → All IsDigit s → Lacks b'.' s
digits-Lacks [] h = tt
digits-Lacks (c ∷ s) h = (λ e. omega arith, digits-Lacks s h.1)

abbrev pub sign_text : Bool → Bytes
sign_text negative = if negative then b'-' ∷ [] else []

-- The variables that the text after the sign assigns to.
abbrev vars : Bytes → Outcome (Option ℤ × Option ℤ)
vars s = parts s (find b'.' s)

-- The sign is taken off, if a digit begins the rest.
new_string_view_sign :
    (negative : Bool) (c : ℕ) (s : Bytes)
    → c ≢ b'-'
    → new_string_view (sign_text negative ++ c ∷ s)
      ≡ (vars (c ∷ s) >>= λ v. combine negative v.0 v.1)
unfolding new_string_view
new_string_view_sign true c s h = refl
new_string_view_sign false c s h = ground arith

combine_lem :
    (negative : Bool) (i f : ℕ)
    → i * fixed_scale + f < 2 ^ 63
    → combine negative (some (pos i)) (some (pos f)) ≡ ok (signed negative (i * fixed_scale + f))
unfolding combine read ◌*ℤ◌ ◌+ℤ◌
combine_lem negative i f h = ground arith

combine-uninitialised :
    (negative : Bool) (i : ℕ)
    → i * fixed_scale < 2 ^ 63
    → combine negative (some (pos i)) none ≡ fault uninitialised
unfolding combine read ◌*ℤ◌
combine-uninitialised negative i h = ground arith

drop_behind : (ws ds : Bytes) (c : ℕ) → drop (length ws + 1) (ws ++ c ∷ ds) ≡ ds
drop_behind [] ds c = refl
drop_behind (w ∷ ws) ds c = rw suc-add (drop_behind ws ds c)

-- With a period behind at least one digit, `f` is what `read_decimals` makes of the rest.
vars_lem :
    (ws ds : Bytes) (f : ℕ)
    → All IsDigit ws
    → 0 < length ws
    → value 0 ws < 2 ^ 63
    → read_decimals ds ≡ ok (pos f)
    → vars (ws ++ b'.' ∷ ds) ≡ ok (some (pos (value 0 ws)), some (pos f))
unfolding parts
vars_lem ws ds f dw long small decimals =
    rw
      (
        find_first b'.' ws ds (digits-Lacks ws dw),
        lt→ltb 0 (length ws) long,
        take-length-append ws (b'.' ∷ ds),
        strtoi-value ws dw small,
        drop_behind ws ds b'.',
      )
      (>>=-chain (fit_decimals ds) (λ fs. strtoi (take max_frac_bits fs))
        (λ r. ok (some (pos (value 0 ws)), some r)) decimals)

vars_whole :
    (s : Bytes) → All IsDigit s → value 0 s < 2 ^ 63 → vars s ≡ ok (some (pos (value 0 s)), none)
unfolding parts
vars_whole s d h = rw (find-Lacks b'.' s (digits-Lacks s d), strtoi-value s d h)

whole_le : (i f : ℕ) → i * fixed_scale + f < 2 ^ 63 → i < 2 ^ 63
whole_le i f h = omega arith

-- The value of a text with a period, whatever its decimals read as.
value_of_parts :
    (negative : Bool) (ws ds : Bytes) (f : ℕ)
    → All IsDigit ws
    → 0 < length ws
    → read_decimals ds ≡ ok (pos f)
    → value 0 ws * fixed_scale + f < 2 ^ 63
    → new_string_view (sign_text negative ++ (ws ++ b'.' ∷ ds))
      ≡ ok (signed negative (value 0 ws * fixed_scale + f))
value_of_parts negative [] ds f dw long decimals fits = absurd (omega arith)
value_of_parts negative (w ∷ ws) ds f dw long decimals fits =
    new_string_view_sign negative w (ws ++ b'.' ∷ ds) (λ e. omega arith)
    ∙ ap (λ m. m >>= λ v. combine negative v.0 v.1)
        (vars_lem (w ∷ ws) ds f dw long (whole_le _ f fits) decimals)
    ∙ combine_lem negative (value 0 (w ∷ ws)) f fits

-- A text of digits, a period and at most 12 decimals, behind an optional sign, is read as the
-- number that it spells, in units of 10^-12, if that fits an int64_t.
pub new_string_view-short :
    (negative : Bool) (ws ds : Bytes)
    → All IsDigit ws
    → 0 < length ws
    → All IsDigit ds
    → length ds ≤ 12
    → value 0 ws * fixed_scale + value 0 ds * 10 ^ (12 - length ds) < 2 ^ 63
    → new_string_view (sign_text negative ++ (ws ++ b'.' ∷ ds))
      ≡ ok (signed negative (value 0 ws * fixed_scale + value 0 ds * 10 ^ (12 - length ds)))
new_string_view-short negative ws ds dw long dd short =
    value_of_parts negative ws ds _ dw long (read_decimals-short ds dd short)

-- With more than 12 decimals, the first 13 digits of them are rounded half up to 12. Where that
-- carries out of the twelfth decimal, the code reads the decimals .1 in place of 1.0.
pub new_string_view-long :
    (negative : Bool) (ws ds : Bytes)
    → All IsDigit ws
    → 0 < length ws
    → All IsDigit ds
    → 12 < length ds
    → value 0 ws * fixed_scale + rounded (value 0 (take 13 ds)) < 2 ^ 63
    → new_string_view (sign_text negative ++ (ws ++ b'.' ∷ ds))
      ≡ ok (signed negative (value 0 ws * fixed_scale + rounded (value 0 (take 13 ds))))
new_string_view-long negative ws ds dw long dd more =
    value_of_parts negative ws ds _ dw long (read_decimals-long ds dd more)

-- A text of digits with no period leaves `f` without a value, and reading it is undefined.
pub new_string_view-whole :
    (negative : Bool) (ws : Bytes)
    → All IsDigit ws
    → 0 < length ws
    → value 0 ws * fixed_scale < 2 ^ 63
    → new_string_view (sign_text negative ++ ws) ≡ fault uninitialised
new_string_view-whole negative [] dw long fits = absurd (omega arith)
new_string_view-whole negative (w ∷ ws) dw long fits =
    new_string_view_sign negative w ws (λ e. omega arith)
    ∙ ap (λ m. m >>= λ v. combine negative v.0 v.1) whole
    ∙ combine-uninitialised negative (value 0 (w ∷ ws)) fits
  where
    whole : vars (w ∷ ws) ≡ ok (some (pos (value 0 (w ∷ ws))), none)
    whole = vars_whole (w ∷ ws) dw (omega arith)
