-- ===== src/Fixed12/Print/Digits.antt =====
-- The digit loop of `seq_fixed12_to_string` against `std::to_string`.
use mathlib.Core.List.{reverse-append}
use moxt_cpp.Prelude.{
  ℕ, zero, suc, ◌+◌, ◌/◌, ◌%◌, ◌<◌, ◌≡◌, Bytes, [], ◌∷◌, ◌++◌, append_assoc, reverse, arith,
}
use moxt_cpp.Decimal.{decimal}
use moxt_cpp.Fixed12.Print.{push_digits}

-- The loop leaves the digits in the reverse order behind what the buffer held.
pub push_digits-decimal :
    (fuel n : ℕ) (result : Bytes)
    → n < fuel
    → push_digits fuel n result ≡ result ++ reverse (decimal fuel n)
unfolding push_digits decimal
push_digits-decimal zero n result h = absurd (omega arith)
push_digits-decimal (suc fuel) n result h = ground (
  arith,
  push_digits-decimal fuel (n / 10) (result ++ (b'0' + n % 10) ∷ []),
  reverse-append (decimal fuel (n / 10)) ((b'0' + n % 10) ∷ []),
  append_assoc result ((b'0' + n % 10) ∷ []) (reverse (decimal fuel (n / 10))),
)
