-- ===== src/RateLimiter.antt =====
-- moxt/utils/c_rate_limiter.hpp: `CRateLimiter`, a sliding window over the times of the last
-- `maxCount` requests that were let through. A call holds the spin lock from its first look at the
-- ring to its end, so that calls follow one another; the clock is read before. `max_count` is
-- `static_cast<size_t>(maxCount)`, times are uint64_t nanoseconds. `inWindow` is never called.
pub mod Buffer
pub mod Window
mod Tests
use moxt_cpp.Prelude.{
  ℕ, ◌+◌, ◌-◌, ◌%◌, ◌^◌, Bool, true, false, not, ◌&&◌, List, [], ◌∷◌, ltb, leb, ◌==◌, if◌then◌else◌,
}
use moxt_cpp.Prelude.Outcome.{Outcome, ok, fault}
use Buffer.{RingBuf}

-- `try { f = rb.front(); } catch (std::exception &e) { f = 0; }`
abbrev pub or_zero : Outcome ℕ → ℕ
or_zero (ok n) = n
or_zero (fault e) = 0

module _ (R : RingBuf) where
  open R use {Ring, make, size, front, push_back}

  pub record Limiter : Type 0 where
    pub max_count : ℕ
    pub window_size : ℕ
    pub rb : Ring

  unfoldable pub new_limiter : ℕ → ℕ → Limiter
  new_limiter max_count window_size = record {
    max_count = max_count;
    window_size = window_size;
    rb = make max_count;
  }

  -- `now - windowSize` in uint64_t
  abbrev pub window_start : ℕ → ℕ → ℕ
  window_start now window_size = (now + 2 ^ 64 - window_size) % 2 ^ 64

  -- The oldest time in the ring, or 0.
  abbrev pub oldest : Limiter → ℕ
  oldest l = if ltb 0 (size l.rb) then or_zero (front l.rb) else 0

  -- allowAndRecordRequest, at the time that the clock gave
  unfoldable pub allow_and_record_request : ℕ → Limiter → Limiter × Bool
  allow_and_record_request now l =
      let f = oldest l in
      if not (f == 0) && (leb (window_start now l.window_size) f && leb l.max_count (size l.rb))
      then (l, false)
      else (record l { rb = push_back l.rb now }, true)

  -- The limiter after requests at the given times, and the times of those let through.
  unfoldable pub run : Limiter → List ℕ → Limiter × List ℕ
  run l [] = (l, [])
  run l (now ∷ times) =
      let (l', allowed) = allow_and_record_request now l in
      let (l'', accepted) = run l' times in (l'', if allowed then now ∷ accepted else accepted)
