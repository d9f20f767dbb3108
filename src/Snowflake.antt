-- ===== src/Snowflake.antt =====
-- moxt/utils/snowflake.hpp and snowflake.cpp: ids of 64 bits from a clock in milliseconds, a worker
-- number and a sequence number. A call holds the mutex throughout. The clock is a list of the
-- readings to come: each look at it takes one, and `none` means that a call still waits when they
-- run out. An id is its bit pattern in an int64_t, a number below 2^64. `getLocalIp` asks the
-- network and is not modelled: its result is the argument of `init_worker_id`.
pub mod Layout
pub mod Order
pub mod ClockBack
pub mod Worker
mod Tests
use Prim.Native.Nat.{bit_and, bit_or}
use moxt_cpp.Prelude.{
  ℕ, zero, suc, ◌+◌, ◌-◌, ◌*◌, ◌%◌, ◌^◌, Bool, Option, none, some, List, [], ◌∷◌, Bytes, ltb, ◌==◌,
  if◌then◌else◌,
}
use moxt_cpp.Prelude.Int.{ℤ, pos, negsuc, ltb_ℤ, eqb_ℤ}

-- kStartStmp, kMaxSequence, kFirstBitRevert
abbrev pub start_stamp : ℕ
start_stamp = 1_704_038_400_000

abbrev pub max_sequence : ℕ
max_sequence = 2 ^ 12 - 1

abbrev pub first_bit_revert : ℕ
first_bit_revert = 0x9000_0000_0000_0000

-- kWorkerIdLeft, kTimestampLeft
abbrev pub worker_id_left : ℕ
worker_id_left = 12

abbrev pub timestamp_left : ℕ
timestamp_left = 25

-- `lastTimestamp_` and `sequence_`, with the class's `workerId_`.
pub record Snowflake : Type 0 where
  pub last_timestamp : ℤ
  pub sequence : ℕ
  pub worker_id : ℕ

abbrev pub initial : ℕ → Snowflake
initial worker_id = record { last_timestamp = negsuc 0; sequence = 0; worker_id = worker_id }

abbrev pub shift_left : ℕ → ℕ → ℕ
shift_left x k = x * 2 ^ k % 2 ^ 64

-- `(timestamp - kStartStmp) << kTimestampLeft | workerId_ << kWorkerIdLeft | sequence_`
unfoldable pub compose : ℕ → ℕ → ℕ → ℕ
compose timestamp worker_id sequence =
    bit_or
      (bit_or (shift_left ((timestamp + 2 ^ 64 - start_stamp) % 2 ^ 64) timestamp_left)
        (shift_left worker_id worker_id_left))
      sequence

-- The first reading after `last`, and the readings behind it.
unfoldable pub next_timestamp : ℤ → List ℕ → Option (ℕ × List ℕ)
next_timestamp last [] = none
next_timestamp last (t ∷ clock) =
    let later = next_timestamp last clock in if ltb_ℤ last (pos t) then some (t, clock) else later

-- The end of `getIdByTs`: the new state, the id, and the readings left.
abbrev pub emit : Snowflake → ℕ → ℕ → List ℕ → Snowflake × ℕ × List ℕ
emit s timestamp sequence clock = (
  record s { last_timestamp = pos timestamp; sequence = sequence },
  compose timestamp s.worker_id sequence,
  clock,
)

abbrev pub emit_next : Snowflake → Option (ℕ × List ℕ) → Option (Snowflake × ℕ × List ℕ)
emit_next s none = none
emit_next s (some (t, clock)) = some (emit s t 0 clock)

unfoldable pub get_id_by_ts : Snowflake → ℕ → List ℕ → Option (Snowflake × ℕ × List ℕ)
get_id_by_ts s timestamp clock =
    let sequence = bit_and (s.sequence + 1) max_sequence in
    if eqb_ℤ s.last_timestamp (pos timestamp)
    then if sequence == 0
      then emit_next s (next_timestamp s.last_timestamp clock)
      else some (emit s timestamp sequence clock)
    else some (emit s timestamp 0 clock)

abbrev pub mask_first_bit : Option (Snowflake × ℕ × List ℕ) → Option (Snowflake × ℕ × List ℕ)
mask_first_bit none = none
mask_first_bit (some (s, id, clock)) = some (s, bit_and first_bit_revert id, clock)

unfoldable pub get_id : Snowflake → List ℕ → Option (Snowflake × ℕ × List ℕ)
get_id s [] = none
get_id s (t ∷ clock) =
    if ltb_ℤ (pos t) s.last_timestamp
    then mask_first_bit (get_id_by_ts s t clock)
    else get_id_by_ts s t clock

-- The ids of a number of calls, one after another.
abbrev pub and_then {ℓ} : {A : Type ℓ} → Option A → (A → Option (List ℕ)) → Option (List ℕ)
and_then none f = none
and_then (some a) f = f a

unfoldable pub ids : ℕ → Snowflake → List ℕ → Option (List ℕ)
ids zero s clock = some []
ids (suc calls) s clock =
    and_then (get_id s clock) (λ r. and_then (ids calls r.0 r.2) (λ rest. some (r.1 ∷ rest)))

-- A signed `char` of a byte, converted to uint32_t.
abbrev pub char_u32 : ℕ → ℕ
char_u32 c = if ltb c 128 then c else c + 2 ^ 32 - 256

-- ipToWorkerId: the loop over the characters, `n` dots seen so far.
unfoldable pub worker_loop : ℕ → ℕ → Bytes → ℕ
worker_loop worker_id n [] = worker_id
worker_loop worker_id n (c ∷ s) =
    let dot = worker_loop worker_id (n + 1) s in
    let digit = worker_loop ((worker_id * 10 + (char_u32 c + 2 ^ 32 - b'0')) % 2 ^ 32) n s in
    if ltb n 3 then (if c == b'.' then dot else digit) else worker_id

unfoldable pub ip_to_worker_id : Bytes → ℕ
ip_to_worker_id ip = worker_loop 0 0 ip % 1024

-- initWorkerId
unfoldable pub init_worker_id : Bytes → Snowflake → Snowflake
init_worker_id ip s = record s { worker_id = ip_to_worker_id ip }
