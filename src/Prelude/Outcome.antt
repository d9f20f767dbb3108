-- ===== src/Prelude/Outcome.antt =====
-- The outcome of a C++ computation: a value, an exception, or behaviour that the language leaves
-- undefined, with its cause.
use mathlib.Core.Path.{◌≡◌, ap}
use moxt_cpp.Prelude.Tests.{if◌then◌else◌}
use moxt_cpp.Prelude.Int.{ℤ, fits_i64}

pub data Fault : Type 0 where
  overflow uninitialised bad_index null_pointer division_by_zero exception dangling endless : Fault

pub data Outcome {ℓ} (A : Type ℓ) : Type ℓ where
  ok : A → Outcome A
  fault : Fault → Outcome A

infixl 5 ◌>>=◌
abbrev pub ◌>>=◌ {ℓ κ} : {A : Type ℓ} {B : Type κ} → Outcome A → (A → Outcome B) → Outcome B
ok a >>= f = f a
fault e >>= f = fault e

-- A result of int64_t arithmetic: overflow of a signed type is undefined.
abbrev pub i64 : ℤ → Outcome ℤ
i64 z = if fits_i64 z then ok z else fault overflow

-- A chain of two steps with a known result goes on with that result.
pub >>=-chain {ℓ κ μ} :
    {A : Type ℓ} {B : Type κ} {C : Type μ} (m : Outcome A) (g : A → Outcome B) (k : B → Outcome C)
    {b : B}
    → (m >>= g) ≡ ok b
    → (m >>= λ a. g a >>= k) ≡ k b
>>=-chain (ok a) g k e = ap (λ r. r >>= k) e
>>=-chain (fault f) g k e = cc
