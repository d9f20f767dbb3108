-- ===== src/Cast.antt =====
-- moxt/utils/cast.hpp: `strtoi`, which folds the characters of a text into an int64_t. It checks
-- no character. `strtod` hands the text to the third-party fast_float and is not modelled.
use moxt_cpp.Prelude.{
  ℕ, ◌+◌, ◌-◌, ◌*◌, ◌^◌, ◌<◌, ◌≡◌, ◌∙◌, refl, Bytes, [], ◌∷◌, arith, ltb, if◌then◌else◌, All,
}
use moxt_cpp.Prelude.Int.{ℤ, pos, negsuc, ◌+ℤ◌, ◌-ℤ◌, ◌*ℤ◌}
use moxt_cpp.Prelude.Outcome.{Outcome, ok, i64, ◌>>=◌}
use moxt_cpp.Decimal.{IsDigit, value, le-value}

-- A byte as the signed `char` of the platform.
abbrev pub char : ℕ → ℤ
char c = if ltb c 128 then pos c else negsuc (255 - c)

-- The loop, with `result` as its variable. Both operations of a round are int64_t arithmetic.
unfoldable pub strtoi_from : ℤ → Bytes → Outcome ℤ
strtoi_from result [] = ok result
strtoi_from result (c ∷ s) = do
  scaled ← i64 (result *ℤ pos 10)
  next ← i64 (scaled +ℤ (char c -ℤ pos b'0'))
  strtoi_from next s

unfoldable pub strtoi : Bytes → Outcome ℤ
unfolding strtoi_from
strtoi s = strtoi_from (pos 0) s

strtoi_from_digit :
    (n c : ℕ) (s : Bytes)
    → IsDigit c
    → n * 10 + (c - b'0') < 2 ^ 63
    → strtoi_from (pos n) (c ∷ s) ≡ strtoi_from (pos (n * 10 + (c - b'0'))) s
unfolding strtoi_from ◌+ℤ◌ ◌-ℤ◌ ◌*ℤ◌
strtoi_from_digit n c s d h = ground arith

strtoi_from-value :
    (n : ℕ) (s : Bytes)
    → All IsDigit s
    → value n s < 2 ^ 63
    → strtoi_from (pos n) s ≡ ok (pos (value n s))
strtoi_from-value n [] d h = unfold strtoi_from in refl
strtoi_from-value n (c ∷ s) d h =
    let m = n * 10 + (c - b'0') in
    strtoi_from_digit n c s d.0 (omega (arith, le-value m s)) ∙ strtoi_from-value m s d.1 h

-- On digits whose number is below 2^63, the result is that number.
pub strtoi-value :
    (s : Bytes) → All IsDigit s → value 0 s < 2 ^ 63 → strtoi s ≡ ok (pos (value 0 s))
unfolding strtoi
strtoi-value s = strtoi_from-value 0 s
