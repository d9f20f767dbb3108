-- ===== src/Fixed12/BigInt.antt =====
-- What moxt/fixed12.hpp uses of boost::multiprecision::cpp_int: conversion from and to int64_t,
-- product and quotient. The library documents that the integers are unbounded, that a quotient is
-- truncated, that division by zero throws, and that a value in range converts to itself.
use moxt_cpp.Prelude.{◌≡◌, ◌≢◌, refl, true, ◌^◌, ◌-◌, if◌then◌else◌, arith}
use moxt_cpp.Prelude.Int.{ℤ, pos, negsuc, is_neg, fits_i64, ◌*ℤ◌, tdiv, eqb_ℤ}
use moxt_cpp.Prelude.Outcome.{Outcome, ok, fault, exception}

pub record BigInt : Type 1 where
  pub Big : Type 0
  pub of_i64 : ℤ → Big
  pub to_i64 : Big → ℤ
  pub mul : Big → Big → Big
  pub div : Big → Big → Outcome Big
  -- the integer that a `Big` stands for
  pub value : Big → ℤ
  pub value-of_i64 : (a : ℤ) → value (of_i64 a) ≡ a
  pub value-mul : (a b : Big) → value (mul a b) ≡ value a *ℤ value b
  pub div_by_zero : (a b : Big) → value b ≡ pos 0 → div a b ≡ fault exception
  pub div_by_nonzero :
      (a b : Big)
      → value b ≢ pos 0
      → (q : Big) × (div a b ≡ ok q) × (value q ≡ tdiv (value a) (value b))
  pub to_i64-fits : (a : Big) → fits_i64 (value a) ≡ true → to_i64 a ≡ value a

pub saturate : ℤ → ℤ
saturate z = if fits_i64 z then z else if is_neg z then negsuc (2 ^ 63 - 1) else pos (2 ^ 63 - 1)

pub saturate-fits : (a : ℤ) → fits_i64 a ≡ true → saturate a ≡ a
unfolding saturate
saturate-fits a h = rw h

pub divide : ℤ → ℤ → Outcome ℤ
divide a b = if eqb_ℤ b (pos 0) then fault exception else ok (tdiv a b)

pub divide_by_zero : (a b : ℤ) → b ≡ pos 0 → divide a b ≡ fault exception
unfolding divide
divide_by_zero a b h = rw h

pub divide_by_nonzero : (a b : ℤ) → b ≢ pos 0 → (q : ℤ) × (divide a b ≡ ok q) × (q ≡ tdiv a b)
unfolding divide
divide_by_nonzero a b h = (tdiv a b, ground arith, refl)

-- Integers that saturate on the way back, as an instance.
abbrev pub saturating : BigInt
saturating = record {
  Big = ℤ;
  of_i64 = λ a. a;
  to_i64 = saturate;
  mul = ◌*ℤ◌;
  div = divide;
  value = λ a. a;
  value-of_i64 = λ a. refl;
  value-mul = λ a b. refl;
  div_by_zero = divide_by_zero;
  div_by_nonzero = divide_by_nonzero;
  to_i64-fits = saturate-fits;
}
