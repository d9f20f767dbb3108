-- ===== src/Snowflake/Layout.antt =====
-- The fields of an id.
use moxt_cpp.Prelude.{ℕ, ◌+◌, ◌-◌, ◌*◌, ◌/◌, ◌%◌, ◌^◌, ◌≤◌, ◌<◌, ◌≡◌, ◌∙◌, arith}
use moxt_cpp.Prelude.Bits.{bit_or_shifted}
use moxt_cpp.Snowflake.{start_stamp, compose}

-- A clock reading whose distance from the start fits 38 bits.
pub record InEra (t : ℕ) : Type 0 where
  pub started : start_stamp ≤ t
  pub before_end : t < start_stamp + 2 ^ 38

pub compose_lem :
    (t worker sequence : ℕ)
    → InEra t
    → worker < 2 ^ 13
    → sequence < 2 ^ 12
    → compose t worker sequence ≡ (t - start_stamp) * 2 ^ 25 + worker * 2 ^ 12 + sequence
unfolding compose
compose_lem t worker sequence e hw hs =
    rw (elapsed, high, low, bit_or_shifted 25 d (worker * 2 ^ 12) (omega arith), joined)
      (bit_or_shifted 12 (d * 2 ^ 13 + worker) sequence hs ∙ omega arith)
  where
    d : ℕ
    d = t - start_stamp

    elapsed : (t + 2 ^ 64 - start_stamp) % 2 ^ 64 ≡ d
    elapsed = omega arith

    high : d * 2 ^ 25 % 2 ^ 64 ≡ d * 2 ^ 25
    high = omega arith

    low : worker * 2 ^ 12 % 2 ^ 64 ≡ worker * 2 ^ 12
    low = omega arith

    joined : d * 2 ^ 25 + worker * 2 ^ 12 ≡ (d * 2 ^ 13 + worker) * 2 ^ 12
    joined = omega arith

-- An id holds its three fields: the milliseconds since the start, the worker and the sequence
-- number are read back from their bits, for a reading within 38 bits of the start, a worker below
-- 2^13 and a sequence number below 2^12.
pub compose_fields :
    (t worker sequence : ℕ)
    → InEra t
    → worker < 2 ^ 13
    → sequence < 2 ^ 12
    → let id = compose t worker sequence in
      (id / 2 ^ 25 + start_stamp ≡ t)
      × (id / 2 ^ 12 % 2 ^ 13 ≡ worker)
      × (id % 2 ^ 12 ≡ sequence)
      × (id < 2 ^ 63)
compose_fields t worker sequence e hw hs = rw (compose_lem t worker sequence e hw hs) (omega arith)
