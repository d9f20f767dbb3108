-- ===== src/HttpClientPool/Use.antt =====
-- moxt/httpx/clientpool.cpp: a program that gives back the clients it was given, each once, and
-- makes requests on them before.
use moxt_cpp.Queue.{Queue}
use moxt_cpp.HttpClient.{Replies, perform_request}
use moxt_cpp.HttpClientPool.{
  HttpClientPool, new_pool, Result, returns, dangling, and_then, acquire, release, collect,
}
use moxt_cpp.WebSocket.Events.{remove_at}
use moxt_cpp.Prelude.{ℕ, suc, Bool, Option, none, some, List, [], ◌∷◌, get_elem?}
use moxt_cpp.Prelude.Put.{put}

module _ (q : Queue ℕ) {Response : Type 0} (failure : Response → Response) (empty : Response) where
  -- The pool with the clients that the program holds, those that no one has, and the numbers of calls
  -- of `acquire` and of clients that such a call created and gave out.
  pub record Program : Type 0 where
    pub pool : HttpClientPool q
    pub held : List ℕ
    pub lost : List ℕ
    pub acquired : ℕ
    pub created : ℕ

  abbrev pub new_program : Program
  new_program = record { pool = new_pool q; held = []; lost = []; acquired = 0; created = 0 }

  -- A call of the program on its `n`th client, or a round of the collector.
  pub data Event : Type 0 where
    acquiring : Replies Response → Event
    requesting : ℕ → Replies Response → Event
    releasing : ℕ → Event
    collecting : Event

  -- A client from the pool; a new one that is given out, or left behind where connecting failed.
  abbrev pub given : Option ℕ → Option ℕ → HttpClientPool q → Program → Program
  given (some client) answer p s = record {
    pool = p;
    held = client ∷ s.held;
    lost = s.lost;
    acquired = suc s.acquired;
    created = s.created;
  }
  given none (some client) p s = record {
    pool = p;
    held = client ∷ s.held;
    lost = s.lost;
    acquired = suc s.acquired;
    created = suc s.created;
  }
  given none none p s = record {
    pool = p;
    held = s.held;
    lost = s.pool.next_client ∷ s.lost;
    acquired = suc s.acquired;
    created = s.created;
  }

  abbrev pub with_pool : Program → HttpClientPool q → Program
  with_pool s p = record s { pool = p }

  abbrev pub requested_on : Option Bool → ℕ → Replies Response → Program → Result Program
  requested_on none client r s = dangling
  requested_on (some connected) client r s =
      let d = perform_request failure empty connected r in
      returns
        (with_pool s (record s.pool { clients = put client (some d.connected) s.pool.clients }))

  abbrev pub request : Option ℕ → Replies Response → Program → Result Program
  request none r s = returns s
  request (some client) r s = requested_on (s.pool.clients client) client r s

  abbrev pub release_held : Option ℕ → ℕ → Program → Result Program
  release_held none n s = returns s
  release_held (some client) n s =
      and_then (release q (some client) s.pool)
        λ p. returns (record s { pool = p; held = remove_at n s.held })

  unfoldable pub step : Event → Program → Result Program
  step (acquiring r) s =
      let a = acquire q r s.pool in returns (given (q.front s.pool.pool) a.1 a.0 s)
  step (requesting n r) s = request (get_elem? s.held n) r s
  step (releasing n) s = release_held (get_elem? s.held n) n s
  step collecting s = and_then (collect q s.pool) (λ p. returns (with_pool s p))

  -- The first event first.
  unfoldable pub run : List Event → Program → Result Program
  run [] s = returns s
  run (e ∷ es) s = and_then (step e s) (run es)
