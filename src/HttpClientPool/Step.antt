-- ===== src/HttpClientPool/Step.antt =====
-- moxt/httpx/clientpool.cpp: the steps of a program that uses a pool.
use native.Mathlib.Decide.{dec_lt}
use mathlib.Core.Option.{some-ne-none}
use moxt_cpp.Queue.{Queue, head}
use moxt_cpp.HttpClient.{Replies, perform_request}
use moxt_cpp.HttpClientPool.{
  HttpClientPool, queue_capacity, Result, returns, waits, and_then, acquire, acquire_from, release,
  release_by, pushed_to_pool, pushed_to_closed, collect, collect_from, delete_live, decrement,
}
use moxt_cpp.Count.{
  live-some, count, count-snoc, count-head, length-head, count-remove_at, length-remove_at,
  one_same, live-put_old, live-put-none,
}
use moxt_cpp.HttpClientPool.Use.{
  Program, Event, acquiring, requesting, releasing, collecting, given, with_pool, request,
  release_held, step,
}
use moxt_cpp.HttpClientPool.Owned.{Owned, acquired-Owned, decrement-tracked}
use moxt_cpp.WebSocket.Events.{remove_at}
use moxt_cpp.Prelude.{
  ◌≡◌, refl, sym, ◌∙◌, ap, ℕ, ◌%◌, ◌^◌, if◌then◌else◌, ◌+◌, ◌≤◌, ◌<◌, Bool, true, false, Option,
  none, some, [], ◌∷◌, length, length-append, get_elem?, inl, inr, ◌⊎◌, arith,
}
use moxt_cpp.Prelude.Put.{put, put_there}

module _ (q : Queue ℕ) {Response : Type 0} (failure : Response → Response) (empty : Response) where
  abbrev pub acquirings : Event q failure empty → ℕ
  acquirings (acquiring r) = 1
  acquirings _ = 0

  -- A client is released to a queue that is full: the one of its flag `connected`.
  abbrev pub Full : ℕ → Program q failure empty → Type 0
  Full n s =
      (client : ℕ) × (connected : Bool) × (get_elem? s.held n ≡ some client)
      × (s.pool.clients client ≡ some connected)
      × (length (q.items (if connected then s.pool.pool else s.pool.closed_pool)) ≡ queue_capacity)

  abbrev pub Blocked : Event q failure empty → Program q failure empty → Type 0
  Blocked (releasing n) s = Full n s
  Blocked _ s = ⊥

  module _ (s : Program q failure empty) (v : Owned q failure empty s) where
    -- A step that returns, or that waits where it is blocked.
    abbrev pub Comes : Type 0 → ℕ → Result (Program q failure empty) → Type 0
    Comes blocked n r =
        ((s' : Program q failure empty) × (r ≡ returns s')
          × Owned q failure empty s'
          × (s'.acquired ≡ n + s.acquired))
        ⊎ ((r ≡ waits) × blocked × (queue_capacity < s.acquired))

    held_count : (n client : ℕ) → get_elem? s.held n ≡ some client → 1 ≤ count client s.held
    held_count n client e =
        omega (arith, count-remove_at client n client s.held e, one_same client client refl)

    held_live :
        (n client : ℕ)
        → get_elem? s.held n ≡ some client
        → (b : Bool) × (s.pool.clients client ≡ some b)
    held_live n client e =
        live-some (s.pool.clients client) (omega (arith, held_count n client e, v.once client))

    -- A live client is not among those to come.
    fresh_put :
        (client : ℕ) (b : Bool) (o : Option Bool)
        → s.pool.clients client ≡ some b
        → (c : ℕ) → s.pool.next_client ≤ c
        → put client o s.pool.clients c ≡ none
    fresh_put client b o e c l =
        put_there client c o s.pool.clients
          (λ h. some-ne-none b (sym e ∙ ap s.pool.clients h ∙ v.fresh c l))
        ∙ v.fresh c l

    requested-Owned :
        (client : ℕ) (b d : Bool)
        → s.pool.clients client ≡ some b
        → Owned q failure empty (
            with_pool q failure empty s
              (record s.pool { clients = put client (some d) s.pool.clients }))
    requested-Owned client b d e = record {
      once = λ c. v.once c ∙ sym (live-put_old client c s.pool.clients b d e);
      fresh = fresh_put client b (some d) e;
      tracked = v.tracked;
      capacity_pool = v.capacity_pool;
      capacity_closed = v.capacity_closed;
      few = v.few;
    }

    request-Comes :
        (o : Option ℕ) (n : ℕ) (r : Replies Response)
        → get_elem? s.held n ≡ o
        → Comes ⊥ 0 (request q failure empty o r s)
    request-Comes none n r e = inl (s, refl, v, omega arith)
    request-Comes (some client) n r e =
        let (b, h) = held_live n client e in
        let d = perform_request failure empty b r in
        inl (
          with_pool q failure empty s
              (record s.pool { clients = put client (some d.connected) s.pool.clients }),
          rw h refl,
          requested-Owned client b d.connected h,
          omega arith,
        )

    module _ (n client : ℕ) (e : get_elem? s.held n ≡ some client) where
      tracked_back :
          (decrement s.pool.tracking_count < 2 ^ 32)
          × ((decrement s.pool.tracking_count + s.created) % 2 ^ 32
              ≡ length (remove_at n s.held) % 2 ^ 32)
      tracked_back =
          decrement-tracked s.pool.tracking_count (length (remove_at n s.held)) s.created
            v.tracked.0 (v.tracked.1 ∙ ap (λ k. k % 2 ^ 32) (length-remove_at n client s.held e))

      abbrev given_back : HttpClientPool q → Program q failure empty
      given_back p = record s { pool = p; held = remove_at n s.held }

      to_pool-Comes :
          s.pool.clients client ≡ some true
          → Comes (Full n s) 0 (
              and_then
                (pushed_to_pool q (q.push s.pool.pool client) s.pool)
                (λ p. returns (given_back p)))
      to_pool-Comes g = elim (dec_lt (length (q.items s.pool.pool)) (q.capacity s.pool.pool)) [
        | yes l ↦
            let (r, p, h, k) = q.push_room s.pool.pool client l in
            inl (
              given_back
                  (record s.pool { pool = r; tracking_count = decrement s.pool.tracking_count }),
              rw p refl,
              record {
                once = λ c. rw h (
                    omega (
                      arith,
                      count-snoc c client (q.items s.pool.pool),
                      count-remove_at c n client s.held e,
                      v.once c,
                    ));
                fresh = v.fresh;
                tracked = tracked_back;
                capacity_pool = k ∙ v.capacity_pool;
                capacity_closed = v.capacity_closed;
                few = rw h (
                    omega (
                      arith,
                      length-append (q.items s.pool.pool) (client ∷ []),
                      length-remove_at n client s.held e,
                      v.few,
                    ));
              },
              omega arith,
            )
        | no m ↦
            let w = q.within s.pool.pool in
            let full : length (q.items s.pool.pool) ≡ q.capacity s.pool.pool = omega arith in
            inr (
              rw (q.push_full s.pool.pool client full) refl,
              (client, true, e, g, full ∙ v.capacity_pool),
              omega (arith, full, v.capacity_pool, length-remove_at n client s.held e, v.few),
            )
      ]

      to_closed-Comes :
          s.pool.clients client ≡ some false
          → Comes (Full n s) 0 (
              and_then
                (pushed_to_closed q (q.push s.pool.closed_pool client) s.pool)
                (λ p. returns (given_back p)))
      to_closed-Comes g =
          elim (dec_lt (length (q.items s.pool.closed_pool)) (q.capacity s.pool.closed_pool)) [
            | yes l ↦
                let (r, p, h, k) = q.push_room s.pool.closed_pool client l in
                inl (
                  given_back (record s.pool {
                    closed_pool = r;
                    tracking_count = decrement s.pool.tracking_count;
                  }),
                  rw p refl,
                  record {
                    once = λ c. rw h (
                        omega (
                          arith,
                          count-snoc c client (q.items s.pool.closed_pool),
                          count-remove_at c n client s.held e,
                          v.once c,
                        ));
                    fresh = v.fresh;
                    tracked = tracked_back;
                    capacity_pool = v.capacity_pool;
                    capacity_closed = k ∙ v.capacity_closed;
                    few = rw h (
                        omega (
                          arith,
                          length-append (q.items s.pool.closed_pool) (client ∷ []),
                          length-remove_at n client s.held e,
                          v.few,
                        ));
                  },
                  omega arith,
                )
            | no m ↦
                let w = q.within s.pool.closed_pool in
                let full : length (q.items s.pool.closed_pool) ≡ q.capacity s.pool.closed_pool =
                  omega arith in
                inr (
                  rw (q.push_full s.pool.closed_pool client full) refl,
                  (client, false, e, g, full ∙ v.capacity_closed),
                  omega (arith, full, v.capacity_closed, length-remove_at n client s.held e, v.few),
                )
          ]

      released-Comes :
          (o : Option Bool)
          → s.pool.clients client ≡ o
          → Comes
              (Full n s)
              0
              (and_then (release_by q o client s.pool) (λ p. returns (given_back p)))
      released-Comes none h =
          let (b, g) = held_live n client e in absurd (some-ne-none b (sym g ∙ h))
      released-Comes (some true) h = to_pool-Comes h
      released-Comes (some false) h = to_closed-Comes h

    release_held-Comes :
        (o : Option ℕ) (n : ℕ)
        → get_elem? s.held n ≡ o
        → Comes (Full n s) 0 (release_held q failure empty o n s)
    unfolding release
    release_held-Comes none n e = inl (s, refl, v, omega arith)
    release_held-Comes (some client) n e = released-Comes n client e (s.pool.clients client) refl

    -- A client of the queue of closed ones is deleted.
    deleted-Comes :
        (client : ℕ) (o : Option Bool)
        → head (q.items s.pool.closed_pool) ≡ some client
        → s.pool.clients client ≡ o
        → Comes ⊥ 0 (
            and_then
              (delete_live q o client (record s.pool { closed_pool = q.pop s.pool.closed_pool }))
              (λ p. returns (with_pool q failure empty s p)))
    deleted-Comes client none h e =
        let (b, g) = live-some (s.pool.clients client) (
          omega (
            arith,
            count-head client client (q.items s.pool.closed_pool) h,
            one_same client client refl,
            v.once client,
          )) in
        absurd (some-ne-none b (sym g ∙ e))
    deleted-Comes client (some b) h e = inl (
      with_pool q failure empty s (record s.pool {
        closed_pool = q.pop s.pool.closed_pool;
        clients = put client none s.pool.clients;
      }),
      refl,
      record {
        once = λ c. rw (q.items-pop s.pool.closed_pool) (
            omega (
              arith,
              count-head c client (q.items s.pool.closed_pool) h,
              live-put-none client c s.pool.clients b e,
              v.once c,
            ));
        fresh = fresh_put client b none e;
        tracked = v.tracked;
        capacity_pool = v.capacity_pool;
        capacity_closed = q.capacity-pop s.pool.closed_pool ∙ v.capacity_closed;
        few =
            rw (q.items-pop s.pool.closed_pool)
              (omega (arith, length-head client (q.items s.pool.closed_pool) h, v.few));
      },
      omega arith,
    )

    collect-Comes :
        (o : Option ℕ)
        → head (q.items s.pool.closed_pool) ≡ o
        → Comes ⊥ 0
            (and_then (collect_from q o s.pool) (λ p. returns (with_pool q failure empty s p)))
    collect-Comes none e = inl (s, refl, v, omega arith)
    collect-Comes (some client) e = deleted-Comes client (s.pool.clients client) e refl

    acquired_more :
        (o a : Option ℕ) (p : HttpClientPool q)
        → (given q failure empty o a p s).acquired ≡ 1 + s.acquired
    acquired_more (some c) a p = omega arith
    acquired_more none (some c) p = omega arith
    acquired_more none none p = omega arith

    pub step-Comes :
        (e : Event q failure empty) → Comes (Blocked e s) (acquirings e) (step q failure empty e s)
    unfolding step acquire collect
    step-Comes (acquiring r) =
        let o = q.front s.pool.pool in
        let a = acquire_from q o r s.pool in
        inl (
          given q failure empty o a.1 a.0 s,
          refl,
          acquired-Owned q failure empty s v o r (sym (q.front-items s.pool.pool)),
          acquired_more o a.1 a.0,
        )
    step-Comes (requesting n r) = request-Comes (get_elem? s.held n) n r refl
    step-Comes (releasing n) = release_held-Comes (get_elem? s.held n) n refl
    step-Comes collecting =
        collect-Comes (q.front s.pool.closed_pool) (sym (q.front-items s.pool.closed_pool))
