-- ===== src/HttpClientPool/Free.antt =====
-- moxt/httpx/clientpool.cpp: the destructor.
use mathlib.Core.Path.{subst}
use moxt_cpp.Queue.{head-none, Queue, head}
use moxt_cpp.HttpClientPool.{
  HttpClientPool, queue_capacity, Result, returns, and_then, delete_client, delete_live, drain_pool,
  drain_closed, free_pool,
}
use moxt_cpp.Count.{live-some, count, live, count-head, length-head, one_same, live-put-none}
use moxt_cpp.HttpClientPool.Use.{Program}
use moxt_cpp.HttpClientPool.Owned.{Owned}
use moxt_cpp.Prelude.{
  ◌≡◌, refl, sym, ◌∙◌, ap, ℕ, zero, suc, ◌+◌, ◌<◌, Bool, Option, none, some, [], length, arith,
}
use moxt_cpp.Prelude.Put.{put}

module _ (q : Queue ℕ) (others : ℕ → ℕ) where
  -- The live clients are those in the queues and others.
  abbrev Balanced : HttpClientPool q → Type 0
  Balanced p =
      (c : ℕ)
      → count c (q.items p.pool) + count c (q.items p.closed_pool) + others c ≡ live (p.clients c)

  record Emptied (p : HttpClientPool q) (r : Result (HttpClientPool q)) : Type 0 where
    after : HttpClientPool q
    result : r ≡ returns after
    empty : q.items after.pool ≡ []
    kept : q.items after.closed_pool ≡ q.items p.closed_pool
    balanced : Balanced after

  abbrev on_front : ℕ → HttpClientPool q → Option ℕ → Result (HttpClientPool q)
  on_front fuel p o = elim o [
    | none ↦ returns p
    | some client ↦
        and_then (delete_client q client (record p { pool = q.pop p.pool })) (drain_pool q fuel)
  ]

  at_front :
      (fuel : ℕ) (p : HttpClientPool q)
      → drain_pool q (suc fuel) p ≡ on_front fuel p (q.front p.pool)
  unfolding drain_pool
  at_front fuel p = refl

  Emptied-by :
      (p : HttpClientPool q) (r s : Result (HttpClientPool q)) → r ≡ s → Emptied p s → Emptied p r
  Emptied-by p r s e w = subst (Emptied p) (sym e) w

  abbrev without : HttpClientPool q → ℕ → HttpClientPool q
  without p client = record p { pool = q.pop p.pool; clients = put client none p.clients }

  queued_live :
      (client : ℕ) (p : HttpClientPool q)
      → Balanced p
      → head (q.items p.pool) ≡ some client
      → (b : Bool) × (p.clients client ≡ some b)
  queued_live client p b h = live-some (p.clients client) (
      omega
        (arith, count-head client client (q.items p.pool) h, one_same client client refl, b client))

  front_Emptied :
      (fuel : ℕ) (p : HttpClientPool q) (o : Option ℕ)
      → ((r : HttpClientPool q)
          → Balanced r
          → length (q.items r.pool) < fuel
          → Emptied r (drain_pool q fuel r))
      → Balanced p
      → length (q.items p.pool) < suc fuel
      → head (q.items p.pool) ≡ o
      → Emptied p (on_front fuel p o)
  front_Emptied fuel p none rest b l h = record {
    after = p;
    result = refl;
    empty = head-none (q.items p.pool) h;
    kept = refl;
    balanced = b;
  }
  front_Emptied fuel p (some client) rest b l h =
      let (connected, e) = queued_live client p b h in
      let w =
        rest (without p client)
          (λ c. rw (q.items-pop p.pool) (
            omega (
              arith,
              count-head c client (q.items p.pool) h,
              live-put-none client c p.clients connected e,
              b c,
            )))
          (rw (q.items-pop p.pool) (omega (arith, length-head client (q.items p.pool) h))) in
      record {
        after = w.after;
        result = rw e w.result;
        empty = w.empty;
        kept = w.kept;
        balanced = w.balanced;
      }

  drain_pool-Emptied :
      (fuel : ℕ) (p : HttpClientPool q)
      → Balanced p
      → length (q.items p.pool) < fuel
      → Emptied p (drain_pool q fuel p)
  drain_pool-Emptied zero p b l = absurd (omega arith)
  drain_pool-Emptied (suc fuel) p b l =
      Emptied-by p (drain_pool q (suc fuel) p) (on_front fuel p (q.front p.pool)) (at_front fuel p)
        (front_Emptied fuel p (q.front p.pool) (drain_pool-Emptied fuel) b l
          (sym (q.front-items p.pool)))

  -- The second loop is the first one with the queues exchanged.
  abbrev swap : HttpClientPool q → HttpClientPool q
  swap p = record p { pool = p.closed_pool; closed_pool = p.pool }

  abbrev swapped : Result (HttpClientPool q) → Result (HttpClientPool q)
  swapped r = and_then r (λ p. returns (swap p))

  abbrev on_closed : ℕ → HttpClientPool q → Option ℕ → Result (HttpClientPool q)
  on_closed fuel p o = elim o [
    | none ↦ returns p
    | some client ↦
        and_then (delete_client q client (record p { closed_pool = q.pop p.closed_pool }))
          (drain_closed q fuel)
  ]

  at_closed :
      (fuel : ℕ) (p : HttpClientPool q)
      → drain_closed q (suc fuel) p ≡ on_closed fuel p (q.front p.closed_pool)
  unfolding drain_closed
  at_closed fuel p = refl

  deleted_swap :
      (fuel client : ℕ) (p : HttpClientPool q) (o : Option Bool)
      → ((r : HttpClientPool q) → drain_closed q fuel r ≡ swapped (drain_pool q fuel (swap r)))
      → and_then
          (delete_live q o client (record p { closed_pool = q.pop p.closed_pool }))
          (drain_closed q fuel)
        ≡ swapped (
            and_then
              (delete_live q o client (record (swap p) { pool = q.pop p.closed_pool }))
              (drain_pool q fuel))
  deleted_swap fuel client p none h = refl
  deleted_swap fuel client p (some b) h =
      h (record p { closed_pool = q.pop p.closed_pool; clients = put client none p.clients })

  on_closed-swap :
      (fuel : ℕ) (p : HttpClientPool q) (o : Option ℕ)
      → ((r : HttpClientPool q) → drain_closed q fuel r ≡ swapped (drain_pool q fuel (swap r)))
      → on_closed fuel p o ≡ swapped (on_front fuel (swap p) o)
  on_closed-swap fuel p none h = refl
  on_closed-swap fuel p (some client) h = deleted_swap fuel client p (p.clients client) h

  drain_closed-swap :
      (fuel : ℕ) (p : HttpClientPool q)
      → drain_closed q fuel p ≡ swapped (drain_pool q fuel (swap p))
  unfolding drain_closed drain_pool
  drain_closed-swap zero p = refl
  drain_closed-swap (suc fuel) p =
      at_closed fuel p
      ∙ on_closed-swap fuel p (q.front p.closed_pool) (drain_closed-swap fuel)
      ∙ sym (ap swapped (at_front fuel (swap p)))

  only_others :
      (p : HttpClientPool q)
      → Balanced p
      → q.items p.pool ≡ []
      → q.items p.closed_pool ≡ []
      → (c : ℕ) → live (p.clients c) ≡ others c
  unfolding count
  only_others p b e f c = omega (arith, b c, ap (count c) e, ap (count c) f)

module _ (q : Queue ℕ) {Response : Type 0} (failure : Response → Response) (empty : Response) where
  -- The destructor of a pool ends with every client of its two queues deleted, each once, and no
  -- other: a client lives on exactly where the program holds it or an `acquire` left it behind.
  pub free_pool-Owned :
      (s : Program q failure empty)
      → Owned q failure empty s
      → (p : HttpClientPool q) × (free_pool q s.pool ≡ returns p)
        × ((c : ℕ) → live (p.clients c) ≡ count c s.held + count c s.lost)
  unfolding free_pool count
  free_pool-Owned s v =
      let others : ℕ → ℕ = λ c. count c s.held + count c s.lost in
      let w =
        drain_pool-Emptied q others (suc queue_capacity) s.pool (λ c. omega (arith, v.once c))
          (omega (arith, q.within s.pool.pool, v.capacity_pool)) in
      let u =
        drain_pool-Emptied q others (suc queue_capacity) (swap q others w.after)
          (λ c. omega (arith, w.balanced c))
          (rw w.kept (omega (arith, q.within s.pool.closed_pool, v.capacity_closed))) in
      (
        swap q others u.after,
        rw (w.result, drain_closed-swap q others (suc queue_capacity) w.after, u.result) refl,
        only_others q others u.after u.balanced u.empty (u.kept ∙ w.empty),
      )
