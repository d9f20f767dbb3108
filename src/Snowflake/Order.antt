-- ===== src/Snowflake/Order.antt =====
-- With a clock that does not go back, every id is greater than the one before.
use Prim.Native.Nat.{bit_and}
use moxt_cpp.Prelude.{
  ℕ, zero, suc, ◌+◌, ◌^◌, ◌<◌, ◌≡◌, ◌≢◌, ◌⊎◌, inl, inr, refl, true, false, Option, none, some, List,
  [], ◌∷◌, arith, ◌==◌, Bool-cases, Option-cases,
}
use moxt_cpp.Prelude.Int.{ℤ, pos, negsuc, ltb_ℤ, eqb_ℤ}
use moxt_cpp.Prelude.Bits.{bit_and_mask}
use moxt_cpp.Snowflake.{
  Snowflake, max_sequence, compose, next_timestamp, emit, emit_next, get_id_by_ts, get_id, ids,
  and_then, initial, mask_first_bit,
}
use moxt_cpp.Snowflake.Layout.{InEra, compose_lem}

-- Readings that never go back, from `last` on, all within the era.
abbrev pub From : ℤ → List ℕ → Type 0
From last [] = Unit
From last (t ∷ clock) = (ltb_ℤ (pos t) last ≡ false) × InEra t × From (pos t) clock

abbrev pub LastInEra : ℤ → Type 0
LastInEra (pos t) = InEra t
LastInEra (negsuc n) = Unit

pub record IsValid (s : Snowflake) : Type 0 where
  pub last : LastInEra s.last_timestamp
  pub sequence_range : s.sequence < 2 ^ 12
  pub worker_range : s.worker_id < 2 ^ 13

-- The id of the last call, where there was one, is below `id`.
abbrev IdAfter : ℤ → ℕ → ℕ → ℕ → Type 0
IdAfter (pos t) worker sequence id = compose t worker sequence < id
IdAfter (negsuc n) worker sequence id = Unit

-- A call's result: valid, later than before, with the clock still not behind.
record Emitted (s : Snowflake) (r : Snowflake × ℕ × List ℕ) : Type 0 where
  valid : IsValid r.0
  after : IdAfter s.last_timestamp s.worker_id s.sequence r.1
  this : (id : ℕ) → IdAfter r.0.last_timestamp r.0.worker_id r.0.sequence id → r.1 < id
  clock : From r.0.last_timestamp r.2

compose_lt :
    (t u worker q r : ℕ)
    → InEra t
    → InEra u
    → worker < 2 ^ 13
    → q < 2 ^ 12
    → r < 2 ^ 12
    → (t < u) ⊎ ((t ≡ u) × (q < r))
    → compose t worker q < compose u worker r
compose_lt t u worker q r et eu hw hq hr h =
    rw (compose_lem t worker q et hw hq, compose_lem u worker r eu hw hr) (omega arith)

From-weaken :
    (l : ℤ) (t : ℕ) (clock : List ℕ) → ltb_ℤ (pos t) l ≡ false → From (pos t) clock → From l clock
From-weaken l t [] h f = tt
From-weaken l t (u ∷ clock) h f = (ground arith, f.1, f.2)

abbrev Later : ℤ → Option (ℕ × List ℕ) → Type 0
Later l none = Unit
Later l (some (t, clock)) = (ltb_ℤ l (pos t) ≡ true) × InEra t × From (pos t) clock

next_timestamp-Later : (l : ℤ) (clock : List ℕ) → From l clock → Later l (next_timestamp l clock)
unfolding next_timestamp
next_timestamp-Later l [] f = tt
next_timestamp-Later l (t ∷ clock) f = elim (Bool-cases (ltb_ℤ l (pos t))) [
  | inl e ↦ rw e (e, f.1, f.2)
  | inr e ↦ rw e (next_timestamp-Later l clock (From-weaken l t clock f.0 f.2))
]

abbrev EmittedIf : Snowflake → Option (Snowflake × ℕ × List ℕ) → Type 0
EmittedIf s none = Unit
EmittedIf s (some r) = Emitted s r

-- An id at a later reading, or at the same reading with a greater sequence number.
abbrev Advances : ℤ → ℕ → ℕ → ℕ → Type 0
Advances (negsuc n) q t r = Unit
Advances (pos u) q t r = (u < t) ⊎ ((u ≡ t) × (q < r))

after-emit :
    (l : ℤ) (t w q r : ℕ)
    → LastInEra l
    → InEra t
    → w < 2 ^ 13
    → q < 2 ^ 12
    → r < 2 ^ 12
    → Advances l q t r
    → IdAfter l w q (compose t w r)
after-emit (pos u) t w q r el et hw hq hr a = compose_lt u t w q r el et hw hq hr a
after-emit (negsuc n) t w q r el et hw hq hr a = tt

emit-Emitted :
    (s : Snowflake) (t r : ℕ) (clock : List ℕ)
    → IsValid s
    → InEra t
    → r < 2 ^ 12
    → Advances s.last_timestamp s.sequence t r
    → From (pos t) clock
    → Emitted s (emit s t r clock)
emit-Emitted s t r clock v e h a f = record {
  valid = record { last = e; sequence_range = h; worker_range = v.worker_range };
  after =
      after-emit s.last_timestamp t s.worker_id s.sequence r v.last e v.worker_range
        v.sequence_range h a;
  this = λ id p. p;
  clock = f;
}

later-Advances : (l : ℤ) (q t r : ℕ) → ltb_ℤ l (pos t) ≡ true → Advances l q t r
later-Advances (pos u) q t r h = inl (ground arith)
later-Advances (negsuc n) q t r h = tt

different-Advances :
    (l : ℤ) (q t r : ℕ) → ltb_ℤ (pos t) l ≡ false → eqb_ℤ l (pos t) ≡ false → Advances l q t r
different-Advances (pos u) q t r h e = inl (ground arith)
different-Advances (negsuc n) q t r h e = tt

same-Advances : (l : ℤ) (q t r : ℕ) → eqb_ℤ l (pos t) ≡ true → q < r → Advances l q t r
same-Advances (pos u) q t r e h = inr (ground arith, h)
same-Advances (negsuc n) q t r e h = tt

ne_zero : (n : ℕ) → (n == 0) ≡ false → n ≢ 0
ne_zero n h e = ground arith

emit_next-Emitted :
    (s : Snowflake) (next : Option (ℕ × List ℕ))
    → IsValid s
    → Later s.last_timestamp next
    → EmittedIf s (emit_next s next)
emit_next-Emitted s none v h = tt
emit_next-Emitted s (some (t, clock)) v h =
    emit-Emitted s t 0 clock v h.1 (omega arith)
      (later-Advances s.last_timestamp s.sequence t 0 h.0) h.2

-- One call at a reading that is not behind the last.
get_id_by_ts-Emitted :
    (s : Snowflake) (t : ℕ) (clock : List ℕ)
    → IsValid s
    → From s.last_timestamp (t ∷ clock)
    → EmittedIf s (get_id_by_ts s t clock)
unfolding get_id_by_ts
get_id_by_ts-Emitted s t clock v f = elim (Bool-cases (eqb_ℤ s.last_timestamp (pos t))) [
  | inr e ↦ rw e (
      emit-Emitted s t 0 clock v f.1 (omega arith)
        (different-Advances s.last_timestamp s.sequence t 0 f.0 e) f.2)
  | inl e ↦ elim (Bool-cases (bit_and (s.sequence + 1) max_sequence == 0)) [
    | inl full ↦
        rw (e, full)
          (emit_next-Emitted s _ v (
            next_timestamp-Later s.last_timestamp clock
              (From-weaken s.last_timestamp t clock f.0 f.2)))
    | inr more ↦
        rw (e, more)
          (emit-Emitted s t _ clock v f.1 (omega (arith, bit_and_mask 12 (s.sequence + 1)))
            (same-Advances s.last_timestamp s.sequence t _ e
              (omega (arith, bit_and_mask 12 (s.sequence + 1), ne_zero _ more, v.sequence_range)))
            f.2)
  ]
]

get_id-Emitted :
    (s : Snowflake) (clock : List ℕ)
    → IsValid s
    → From s.last_timestamp clock
    → EmittedIf s (get_id s clock)
unfolding get_id
get_id-Emitted s [] v f = tt
get_id-Emitted s (t ∷ clock) v f = rw f.0 (get_id_by_ts-Emitted s t clock v f)

abbrev pub Rising : ℕ → List ℕ → Type 0
Rising b [] = Unit
Rising b (x ∷ xs) = (b < x) × Rising x xs

abbrev pub Increasing : List ℕ → Type 0
Increasing [] = Unit
Increasing (x ∷ xs) = Rising x xs

abbrev RisingFrom : Snowflake → List ℕ → Type 0
RisingFrom s [] = Unit
RisingFrom s (x ∷ xs) = IdAfter s.last_timestamp s.worker_id s.sequence x × Rising x xs

abbrev RisingIf : Snowflake → Option (List ℕ) → Type 0
RisingIf s none = Unit
RisingIf s (some xs) = RisingFrom s xs

prepend :
    (s : Snowflake) (r : Snowflake × ℕ × List ℕ) (rest : Option (List ℕ))
    → Emitted s r
    → RisingIf r.0 rest
    → RisingIf s (and_then rest (λ xs. some (r.1 ∷ xs)))
prepend s r none e h = tt
prepend s r (some []) e h = (e.after, tt)
prepend s r (some (x ∷ xs)) e h = (e.after, (e.this x h.0, h.1))

ids-RisingIf :
    (calls : ℕ) (s : Snowflake) (clock : List ℕ)
    → IsValid s
    → From s.last_timestamp clock
    → RisingIf s (ids calls s clock)
unfolding ids
ids-RisingIf zero s clock v f = tt
ids-RisingIf (suc calls) s clock v f = elim (Option-cases (get_id s clock)) [
  | inl e ↦ rw e tt
  | inr (r, e) ↦
      let here : Emitted s r = rw e at (get_id-Emitted s clock v f) in
      rw e (prepend s r _ here (ids-RisingIf calls r.0 r.2 here.valid here.clock))
]

RisingFrom-Increasing : (s : Snowflake) (xs : List ℕ) → RisingFrom s xs → Increasing xs
RisingFrom-Increasing s [] h = tt
RisingFrom-Increasing s (x ∷ xs) h = h.1

-- The ids of any number of calls in a row are strictly increasing, so no id is given twice, if
-- the clock never goes back and stays within 38 bits of the start, and the worker is below 2^13.
pub ids-Increasing :
    (calls worker : ℕ) (clock xs : List ℕ)
    → worker < 2 ^ 13
    → From (negsuc 0) clock
    → ids calls (initial worker) clock ≡ some xs
    → Increasing xs
ids-Increasing calls worker clock xs h f e = RisingFrom-Increasing (initial worker) xs (
    rw e at (
      ids-RisingIf calls (initial worker) clock
        (record { last = tt; sequence_range = omega arith; worker_range = h }) f))

-- A reading after `last`.
abbrev pub HasLater : ℤ → List ℕ → Type 0
HasLater last [] = ⊥
HasLater last (t ∷ clock) = (ltb_ℤ last (pos t) ≡ true) ⊎ HasLater last clock

next_timestamp-returns : (l : ℤ) (clock : List ℕ) → HasLater l clock → next_timestamp l clock ≢ none
unfolding next_timestamp
next_timestamp-returns l [] h = absurd h
next_timestamp-returns l (t ∷ clock) (inl e) = rw e (λ z. cc)
next_timestamp-returns l (t ∷ clock) (inr h) = ground (arith, next_timestamp-returns l clock h)

emit_next-returns :
    (s : Snowflake) (next : Option (ℕ × List ℕ)) → next ≢ none → emit_next s next ≢ none
emit_next-returns s none h = λ _. h refl
emit_next-returns s (some (t, clock)) h = λ e. cc

mask-returns : (r : Option (Snowflake × ℕ × List ℕ)) → r ≢ none → mask_first_bit r ≢ none
mask-returns none h = λ _. h refl
mask-returns (some r) h = λ e. cc

get_id_by_ts-returns :
    (s : Snowflake) (t : ℕ) (clock : List ℕ)
    → HasLater s.last_timestamp clock
    → get_id_by_ts s t clock ≢ none
unfolding get_id_by_ts
get_id_by_ts-returns s t clock h = elim (Bool-cases (eqb_ℤ s.last_timestamp (pos t))) [
  | inr e ↦ rw e (λ z. cc)
  | inl e ↦ elim (Bool-cases (bit_and (s.sequence + 1) max_sequence == 0)) [
    | inl full ↦
        rw (e, full) (emit_next-returns s _ (next_timestamp-returns s.last_timestamp clock h))
    | inr more ↦ rw (e, more) (λ z. cc)
  ]
]

-- A call returns as soon as the clock reads later than the time of the last id, on every branch.
pub get_id-returns :
    (s : Snowflake) (t : ℕ) (clock : List ℕ)
    → HasLater s.last_timestamp clock
    → get_id s (t ∷ clock) ≢ none
get_id-returns s t clock h = elim (Bool-cases (ltb_ℤ (pos t) s.last_timestamp)) [
  | inl e ↦ unfold get_id in rw e (mask-returns (get_id_by_ts s t clock) inner)
  | inr e ↦ unfold get_id in rw e inner
]
  where
    inner : get_id_by_ts s t clock ≢ none
    inner = get_id_by_ts-returns s t clock h
