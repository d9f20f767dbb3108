-- ===== src/Snowflake/ClockBack.antt =====
-- What happens when the clock goes back.
use Prim.Native.Nat.{bit_and}
use moxt_cpp.Prelude.{
  ℕ, zero, suc, ◌+◌, ◌*◌, ◌/◌, ◌%◌, ◌^◌, ◌<◌, ◌≡◌, ◌∙◌, ◌⊎◌, refl, ap, true, false, some, List, [],
  ◌∷◌, arith,
}
use moxt_cpp.Prelude.Int.{ℤ, pos, ltb_ℤ, eqb_ℤ}
use moxt_cpp.Prelude.Bits.{bit_and_shifted}
use moxt_cpp.Snowflake.{
  start_stamp, Snowflake, first_bit_revert, compose, get_id_by_ts, get_id, ids, initial,
}
use moxt_cpp.Snowflake.Layout.{InEra, compose_lem, compose_fields}

-- The mask has two bits; of a number below 2^63 it keeps at most the lower of them.
masked : ℕ → ℕ
masked n = bit_and 9 n

masked_table : (n : ℕ) → n < 8 → masked n ≡ n % 2
unfolding masked
masked_table zero h = refl
masked_table (suc zero) h = refl
masked_table (suc (suc zero)) h = refl
masked_table (suc (suc (suc zero))) h = refl
masked_table (suc (suc (suc (suc zero)))) h = refl
masked_table (suc (suc (suc (suc (suc zero))))) h = refl
masked_table (suc (suc (suc (suc (suc (suc zero)))))) h = refl
masked_table (suc (suc (suc (suc (suc (suc (suc zero))))))) h = refl
masked_table (suc (suc (suc (suc (suc (suc (suc (suc n)))))))) h = absurd (omega arith)

first_bit_revert-bit_and :
    (id : ℕ) → id < 2 ^ 63 → bit_and first_bit_revert id ≡ id / 2 ^ 60 % 2 * 2 ^ 60
unfolding masked
first_bit_revert-bit_and id h =
    bit_and_shifted 60 9 id ∙ ap (λ n. n * 2 ^ 60) (masked_table (id / 2 ^ 60) (omega arith))

behind-different : (l : ℤ) (t : ℕ) → ltb_ℤ (pos t) l ≡ true → eqb_ℤ l (pos t) ≡ false
behind-different l t h = ground arith

get_id_back :
    (s : Snowflake) (t : ℕ) (clock : List ℕ)
    → ltb_ℤ (pos t) s.last_timestamp ≡ true
    → get_id s (t ∷ clock)
      ≡ some (
        record s { last_timestamp = pos t; sequence = 0 },
        bit_and first_bit_revert (compose t s.worker_id 0),
        clock,
      )
unfolding get_id get_id_by_ts
get_id_back s t clock h = rw (h, behind-different s.last_timestamp t h)

-- When the clock is behind the last id, at a time from the start stamp on and less than 2^38
-- milliseconds behind it, and the worker number has 13 bits, the call gives one of two values only,
-- 0 or 2^60; in the first 2^35 milliseconds behind the start stamp it always gives 0. The time of
-- the last id is set back to the clock.
pub get_id_backward :
    (s : Snowflake) (t : ℕ) (clock : List ℕ)
    → InEra t
    → s.worker_id < 2 ^ 13
    → ltb_ℤ (pos t) s.last_timestamp ≡ true
    → (id : ℕ) × (get_id s (t ∷ clock)
        ≡ some (record s { last_timestamp = pos t; sequence = 0 }, id, clock))
      × ((id ≡ 0) ⊎ (id ≡ 2 ^ 60))
      × (t < start_stamp + 2 ^ 35 → id ≡ 0)
get_id_backward s t clock e hw h = (
  bit_and first_bit_revert (compose t s.worker_id 0),
  get_id_back s t clock h,
  omega (arith, kept),
  λ early. omega (arith, kept, compose_lem t s.worker_id 0 e hw (omega arith)),
)
  where
    kept :
        bit_and first_bit_revert (compose t s.worker_id 0)
        ≡ compose t s.worker_id 0 / 2 ^ 60 % 2 * 2 ^ 60
    kept =
        first_bit_revert-bit_and (compose t s.worker_id 0)
          (compose_fields t s.worker_id 0 e hw (omega arith)).3

-- After the clock has gone back from u to t and come to u again, the id given first at u is given
-- once more.
pub ids_repeat :
    (t u worker : ℕ)
    → t < u
    → (id : ℕ) × (ids 3 (initial worker) (u ∷ t ∷ u ∷ [])
        ≡ some (compose u worker 0 ∷ id ∷ compose u worker 0 ∷ []))
unfolding ids get_id get_id_by_ts
ids_repeat t u worker h = (bit_and first_bit_revert (compose t worker 0), ground arith)
