-- ===== src/HttpClientPool/Owned.antt =====
-- moxt/httpx/clientpool.cpp: who has a client.
use mathlib.Core.Option.{some-injective}
use moxt_cpp.Queue.{Queue, head}
use moxt_cpp.HttpClient.{Replies, Answer, returned, thrown, connect, handled}
use moxt_cpp.HttpClientPool.{
  queue_capacity, acquire_from, create_http_client, connect_answer, increment, decrement,
}
use moxt_cpp.Count.{count, live, count-head, length-head, live-put_new}
use moxt_cpp.HttpClientPool.Use.{Program, new_program, given}
use moxt_cpp.Prelude.{
  ◌≡◌, refl, ◌∙◌, ℕ, suc, ◌+◌, ◌%◌, ◌^◌, ◌<◌, ◌≤◌, Bool, true, false, Option, none, some, length,
  inl, inr, ◌⊎◌, arith,
}
use moxt_cpp.Prelude.Put.{put, put_there}

increment-tracked :
    (n held created : ℕ)
    → n < 2 ^ 32
    → (n + created) % 2 ^ 32 ≡ held % 2 ^ 32
    → (increment n < 2 ^ 32) × ((increment n + created) % 2 ^ 32 ≡ suc held % 2 ^ 32)
increment-tracked n held created l e = (omega arith, omega (arith, e))

pub decrement-tracked :
    (n held created : ℕ)
    → n < 2 ^ 32
    → (n + created) % 2 ^ 32 ≡ suc held % 2 ^ 32
    → (decrement n < 2 ^ 32) × ((decrement n + created) % 2 ^ 32 ≡ held % 2 ^ 32)
decrement-tracked n held created l e = (omega arith, omega (arith, e))

module _ (q : Queue ℕ) {Response : Type 0} (failure : Response → Response) (empty : Response) where
  -- Each live client stands in exactly one place, and no other pointer does.
  pub record Owned (s : Program q failure empty) : Type 0 where
    pub once :
        (c : ℕ)
        → count c (q.items s.pool.pool)
            + count c (q.items s.pool.closed_pool)
            + count c s.held
            + count c s.lost
          ≡ live (s.pool.clients c)
    pub fresh : (c : ℕ) → s.pool.next_client ≤ c → s.pool.clients c ≡ none
    -- The count is the number held less the number created, in 32 bits.
    pub tracked :
        (s.pool.tracking_count < 2 ^ 32)
        × ((s.pool.tracking_count + s.created) % 2 ^ 32 ≡ length s.held % 2 ^ 32)
    pub capacity_pool : q.capacity s.pool.pool ≡ queue_capacity
    pub capacity_closed : q.capacity s.pool.closed_pool ≡ queue_capacity
    pub few :
        length (q.items s.pool.pool) + length (q.items s.pool.closed_pool) + length s.held
        ≤ s.acquired

  pub new_program-Owned : Owned (new_program q failure empty)
  unfolding count
  new_program-Owned = record {
    once = λ c. rw (q.items-make queue_capacity) refl;
    fresh = λ c l. refl;
    tracked = (omega arith, refl);
    capacity_pool = q.capacity-make queue_capacity;
    capacity_closed = q.capacity-make queue_capacity;
    few = rw (q.items-make queue_capacity) (omega arith);
  }

  module _ (s : Program q failure empty) (v : Owned s) where
    -- A client out of the pool.
    reused-Owned :
        (client : ℕ) (answer : Option ℕ)
        → head (q.items s.pool.pool) ≡ some client
        → Owned (
            given q failure empty
              (some client)
              answer
              (record s.pool {
                pool = q.pop s.pool.pool;
                tracking_count = increment s.pool.tracking_count;
              })
              s)
    unfolding count
    reused-Owned client answer e = record {
      once = λ c.
          rw (q.items-pop s.pool.pool)
            (omega (arith, count-head c client (q.items s.pool.pool) e, v.once c));
      fresh = v.fresh;
      tracked =
          increment-tracked s.pool.tracking_count (length s.held) s.created v.tracked.0 v.tracked.1;
      capacity_pool = q.capacity-pop s.pool.pool ∙ v.capacity_pool;
      capacity_closed = v.capacity_closed;
      few =
          rw (q.items-pop s.pool.pool)
            (omega (arith, length-head client (q.items s.pool.pool) e, v.few));
    }

    fresh_next :
        (connected : Bool) (c : ℕ)
        → suc s.pool.next_client ≤ c
        → put s.pool.next_client (some connected) s.pool.clients c ≡ none
    fresh_next connected c l =
        put_there s.pool.next_client c (some connected) s.pool.clients (λ e. omega arith)
        ∙ v.fresh c (omega arith)

    -- A new client, given out or left behind.
    created-Owned :
        (connected : Bool) (o : Option ℕ)
        → (o ≡ none) ⊎ (o ≡ some s.pool.next_client)
        → Owned (given q failure empty none o (create_http_client q connected s.pool) s)
    unfolding count
    created-Owned connected none h = record {
      once = λ c. omega (
        arith,
        live-put_new s.pool.next_client c s.pool.clients connected
            (v.fresh s.pool.next_client (omega arith)),
        v.once c,
      );
      fresh = fresh_next connected;
      tracked = v.tracked;
      capacity_pool = v.capacity_pool;
      capacity_closed = v.capacity_closed;
      few = omega (arith, v.few);
    }
    created-Owned connected (some n) (inl h) = absurd cc
    created-Owned connected (some n) (inr h) =
        let e : n ≡ s.pool.next_client = some-injective n s.pool.next_client h in
        record {
          once = λ c. rw e (
              omega (
                arith,
                live-put_new s.pool.next_client c s.pool.clients connected
                    (v.fresh s.pool.next_client (omega arith)),
                v.once c,
              ));
          fresh = fresh_next connected;
          tracked = (v.tracked.0, omega (arith, v.tracked.1));
          capacity_pool = v.capacity_pool;
          capacity_closed = v.capacity_closed;
          few = omega (arith, v.few);
        }

    connect_answer_cases :
        (a : Answer Bool) (n : ℕ) → (connect_answer q a n ≡ none) ⊎ (connect_answer q a n ≡ some n)
    connect_answer_cases (returned true) n = inr refl
    connect_answer_cases (returned false) n = inl refl
    connect_answer_cases thrown n = inl refl

    pub acquired-Owned :
        (o : Option ℕ) (r : Replies Response)
        → head (q.items s.pool.pool) ≡ o
        → let a = acquire_from q o r s.pool in Owned (given q failure empty o a.1 a.0 s)
    acquired-Owned (some client) r e = reused-Owned client (some client) e
    acquired-Owned none r e =
        let d = connect r in
        created-Owned (handled r.late d.connected) (connect_answer q d.answer s.pool.next_client)
          (connect_answer_cases d.answer s.pool.next_client)
