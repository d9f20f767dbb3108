-- ===== src/HttpClientPool/Run.antt =====
-- moxt/httpx/clientpool.cpp: the runs of a program that uses a pool.
use moxt_cpp.Queue.{Queue}
use moxt_cpp.HttpClientPool.{queue_capacity, returns, waits}
use moxt_cpp.HttpClientPool.Use.{Program, new_program, Event, run}
use moxt_cpp.HttpClientPool.Owned.{Owned, new_program-Owned}
use moxt_cpp.Prelude.{◌≡◌, refl, ap, ◌++◌, ℕ, ◌+◌, ◌≤◌, ◌<◌, List, [], ◌∷◌, inl, inr, ◌⊎◌, arith}
use moxt_cpp.HttpClientPool.Step.{acquirings, Blocked, step-Comes}

module _ (q : Queue ℕ) {Response : Type 0} (failure : Response → Response) (empty : Response) where
  abbrev pub acquirings_of : List (Event q failure empty) → ℕ
  acquirings_of [] = 0
  acquirings_of (e ∷ es) = acquirings q failure empty e + acquirings_of es

  -- A run that waits for good: it returns up to a call that releases a client to a full queue.
  pub record Waits (es : List (Event q failure empty)) (s : Program q failure empty) : Type 0 where
    pub before : List (Event q failure empty)
    pub event : Event q failure empty
    pub after : List (Event q failure empty)
    pub program : Program q failure empty
    pub parts : es ≡ before ++ event ∷ after
    pub returned : run q failure empty before s ≡ returns program
    pub blocked : Blocked q failure empty event program
    pub held_up : run q failure empty es s ≡ waits
    pub many : queue_capacity < acquirings_of es + s.acquired

  -- What a run comes to.
  abbrev pub Ran : List (Event q failure empty) → Program q failure empty → Type 0
  Ran es s =
      ((s' : Program q failure empty) × (run q failure empty es s ≡ returns s')
        × Owned q failure empty s')
      ⊎ Waits es s

  run-Ran :
      (es : List (Event q failure empty)) (s : Program q failure empty)
      → Owned q failure empty s
      → Ran es s
  unfolding run
  run-Ran [] s v = inl (s, refl, v)
  run-Ran (e ∷ es) s v = elim (step-Comes q failure empty s v e) [
    | inr (f, b, l) ↦ inr (record {
      before = [];
      event = e;
      after = es;
      program = s;
      parts = refl;
      returned = refl;
      blocked = b;
      held_up = rw f refl;
      many = omega arith;
    })
    | inl (s', f, w, n) ↦ elim (run-Ran es s' w) [
      | inl (t, g, u) ↦ inl (t, rw (f, g) refl, u)
      | inr u ↦ inr (record {
        before = e ∷ u.before;
        event = u.event;
        after = u.after;
        program = u.program;
        parts = ap (λ xs. e ∷ xs) u.parts;
        returned = rw (f, u.returned) refl;
        blocked = u.blocked;
        held_up = rw (f, u.held_up) refl;
        many = omega (arith, u.many);
      })
    ]
  ]

  -- A program gives back each client that it was given once, makes requests on its clients before,
  -- and the collector runs in between. No call then uses a client that was deleted, each live client
  -- is in one of the two queues, held by the program, or left behind by an `acquire` that could not
  -- connect, and in one of these only; `trackingCount` is the number of clients held less the number
  -- of those created for an `acquire`, in 32 bits. A call waits for good only where it releases a
  -- client to a queue that is full, and only after more than 12 calls of `acquire`.
  pub program-Owned : (es : List (Event q failure empty)) → Ran es (new_program q failure empty)
  program-Owned es = run-Ran es (new_program q failure empty) (new_program-Owned q failure empty)

  -- With at most 12 calls of `acquire`, every call returns.
  pub few_return :
      (es : List (Event q failure empty))
      → acquirings_of es ≤ queue_capacity
      → (s : Program q failure empty) × (run q failure empty es (new_program q failure empty)
          ≡ returns s)
        × Owned q failure empty s
  few_return es l = elim (program-Owned es) [ inl r ↦ r | inr u ↦ absurd (omega (arith, u.many)) ]
