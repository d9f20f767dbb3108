-- ===== src/WatchDog/Timer.antt =====
-- What moxt/httpx/watchdog.cpp uses of boost's deadline_timer and its I/O context, with their
-- documented behaviour: a wait ends when the time is reached or is aborted before; its handler is
-- queued with the error code then, and a cancellation does not reach a handler that is queued.
use mathlib.Core.Option.{some-injective}
use moxt_cpp.Prelude.{◌≡◌, refl, sym, ap, ℕ, zero, suc, ◌+◌, Option, none, some}
use moxt_cpp.Prelude.Int.{ℤ}

pub record DeadlineTimer : Type 1 where
  pub Timer : Type 0
  pub make : Timer
  pub cancel : Timer → Timer
  pub expires_from_now : ℤ → Timer → Timer
  pub async_wait : Timer → Timer
  -- The time is reached.
  pub elapse : Timer → Timer
  -- A queued handler whose wait was aborted, or is over, out of the queue.
  pub take_aborted : Timer → Option Timer
  pub take_expired : Timer → Option Timer
  -- the waits that have not ended, and the queued handlers of those that are over
  pub waiting : Timer → ℕ
  pub expired : Timer → ℕ
  pub waiting-make : waiting make ≡ 0
  pub expired-make : expired make ≡ 0
  pub waiting-cancel : (t : Timer) → waiting (cancel t) ≡ 0
  pub expired-cancel : (t : Timer) → expired (cancel t) ≡ expired t
  pub waiting-expires_from_now : (z : ℤ) (t : Timer) → waiting (expires_from_now z t) ≡ 0
  pub expired-expires_from_now : (z : ℤ) (t : Timer) → expired (expires_from_now z t) ≡ expired t
  pub waiting-async_wait : (t : Timer) → waiting (async_wait t) ≡ suc (waiting t)
  pub expired-async_wait : (t : Timer) → expired (async_wait t) ≡ expired t
  pub waiting-elapse : (t : Timer) → waiting (elapse t) ≡ 0
  pub expired-elapse : (t : Timer) → expired (elapse t) ≡ expired t + waiting t
  pub waiting-take_aborted : (t u : Timer) → take_aborted t ≡ some u → waiting u ≡ waiting t
  pub expired-take_aborted : (t u : Timer) → take_aborted t ≡ some u → expired u ≡ expired t
  pub waiting-take_expired : (t u : Timer) → take_expired t ≡ some u → waiting u ≡ waiting t
  pub expired-take_expired : (t u : Timer) → take_expired t ≡ some u → expired t ≡ suc (expired u)

-- A timer that is its numbers of waits, of aborted and of expired handlers, as an instance.
pub record Counts : Type 0 where
  pub open_waits : ℕ
  pub aborted_waits : ℕ
  pub expired_waits : ℕ

abbrev pub aborted_all : Counts → Counts
aborted_all t = record {
  open_waits = 0;
  aborted_waits = t.aborted_waits + t.open_waits;
  expired_waits = t.expired_waits;
}

abbrev pub one_aborted : ℕ → Counts → Option Counts
one_aborted zero t = none
one_aborted (suc n) t = some (record t { aborted_waits = n })

abbrev pub one_expired : ℕ → Counts → Option Counts
one_expired zero t = none
one_expired (suc n) t = some (record t { expired_waits = n })

pub waits-one_aborted :
    (n : ℕ) (t u : Counts)
    → one_aborted n t ≡ some u
    → (u.open_waits ≡ t.open_waits) × (u.expired_waits ≡ t.expired_waits)
waits-one_aborted zero t u e = absurd cc
waits-one_aborted (suc n) t u e =
    let h = some-injective (record t { aborted_waits = n }) u e in
    (ap (λ c. c.open_waits) (sym h), ap (λ c. c.expired_waits) (sym h))

pub waits-one_expired :
    (n : ℕ) (t u : Counts)
    → one_expired n t ≡ some u
    → (u.open_waits ≡ t.open_waits) × (n ≡ suc u.expired_waits)
waits-one_expired zero t u e = absurd cc
waits-one_expired (suc n) t u e =
    let h = some-injective (record t { expired_waits = n }) u e in
    (ap (λ c. c.open_waits) (sym h), ap (λ c. suc c.expired_waits) h)

abbrev pub counts : DeadlineTimer
counts = record {
  Timer = Counts;
  make = record { open_waits = 0; aborted_waits = 0; expired_waits = 0 };
  cancel = aborted_all;
  expires_from_now = λ z t. aborted_all t;
  async_wait = λ t. record t { open_waits = suc t.open_waits };
  elapse = λ t. record {
    open_waits = 0;
    aborted_waits = t.aborted_waits;
    expired_waits = t.expired_waits + t.open_waits;
  };
  take_aborted = λ t. one_aborted t.aborted_waits t;
  take_expired = λ t. one_expired t.expired_waits t;
  waiting = λ t. t.open_waits;
  expired = λ t. t.expired_waits;
  waiting-make = refl;
  expired-make = refl;
  waiting-cancel = λ t. refl;
  expired-cancel = λ t. refl;
  waiting-expires_from_now = λ z t. refl;
  expired-expires_from_now = λ z t. refl;
  waiting-async_wait = λ t. refl;
  expired-async_wait = λ t. refl;
  waiting-elapse = λ t. refl;
  expired-elapse = λ t. refl;
  waiting-take_aborted = λ t u e. (waits-one_aborted t.aborted_waits t u e).0;
  expired-take_aborted = λ t u e. (waits-one_aborted t.aborted_waits t u e).1;
  waiting-take_expired = λ t u e. (waits-one_expired t.expired_waits t u e).0;
  expired-take_expired = λ t u e. (waits-one_expired t.expired_waits t u e).1;
}
