-- ===== src/Snowflake/Tests.antt =====
-- Witnesses and runs for moxt/utils/snowflake.cpp.
use moxt_cpp.Prelude.{
  ℕ, ◌+◌, ◌/◌, ◌%◌, ◌^◌, ◌<◌, ◌≡◌, ◌≢◌, ◌⊎◌, inl, refl, none, some, List, [], ◌∷◌, arith,
}
use moxt_cpp.Prelude.Int.{pos}
use moxt_cpp.Snowflake.{start_stamp, compose, initial, get_id_by_ts, get_id, ids}
use moxt_cpp.Snowflake.Layout.{compose_fields}
use moxt_cpp.Snowflake.Order.{Increasing, ids-Increasing, get_id-returns}
use moxt_cpp.Snowflake.ClockBack.{get_id_backward, ids_repeat}

abbrev noon : ℕ
noon = 1_720_000_000_000

compose_fields_example :
    let id = compose noon 7 42 in
    (id / 2 ^ 25 + start_stamp ≡ noon)
    × (id / 2 ^ 12 % 2 ^ 13 ≡ 7)
    × (id % 2 ^ 12 ≡ 42)
    × (id < 2 ^ 63)
compose_fields_example = compose_fields noon 7 42 (omega arith) (omega arith) (omega arith)

abbrev some_ids : List ℕ
some_ids = compose noon 7 0 ∷ compose noon 7 1 ∷ compose (noon + 3) 7 0 ∷ []

some_ids_run : ids 3 (initial 7) (noon ∷ noon ∷ (noon + 3) ∷ []) ≡ some some_ids
unfolding ids get_id get_id_by_ts
some_ids_run = refl

ids-Increasing_example : Increasing some_ids
ids-Increasing_example =
    ids-Increasing 3 7 (noon ∷ noon ∷ (noon + 3) ∷ []) some_ids (omega arith)
      (refl, omega arith, (refl, omega arith, (refl, omega arith, tt))) some_ids_run

get_id-returns_example : get_id (initial 7) (noon ∷ (noon + 1) ∷ []) ≢ none
get_id-returns_example = get_id-returns (initial 7) noon ((noon + 1) ∷ []) (inl refl)

get_id_backward_example :
    (id : ℕ) × (get_id
        (record { last_timestamp = pos (noon + 5); sequence = 3; worker_id = 7 })
        (noon ∷ [])
      ≡ some (record { last_timestamp = pos noon; sequence = 0; worker_id = 7 }, id, []))
    × ((id ≡ 0) ⊎ (id ≡ 2 ^ 60))
    × (noon < start_stamp + 2 ^ 35 → id ≡ 0)
get_id_backward_example =
    get_id_backward (record { last_timestamp = pos (noon + 5); sequence = 3; worker_id = 7 }) noon
      [] (omega arith) (omega arith) refl

ids_repeat_example :
    (id : ℕ) × (ids 3 (initial 7) ((noon + 1) ∷ noon ∷ (noon + 1) ∷ [])
      ≡ some (compose (noon + 1) 7 0 ∷ id ∷ compose (noon + 1) 7 0 ∷ []))
ids_repeat_example = ids_repeat noon (noon + 1) 7 (omega arith)
