-- ===== src/HttpClientPool.antt =====
-- moxt/httpx/clientpool.cpp: `HttpClientPoolImpl`, which keeps HTTP clients for their next use. The
-- queues are `SPSCQueueSafe`, each call of which is one step here (LockedQueue/Order); a push to a
-- full one does not return (LockedQueue/Blocked). A client is an address with its flag `connected`;
-- an address without one is not live.
pub mod Use
pub mod Owned
pub mod Step
pub mod Run
pub mod Free
mod Tests
use moxt_cpp.Queue.{Queue}
use moxt_cpp.HttpClient.{Replies, Answer, returned, thrown, Done, connect, handled}
use moxt_cpp.Prelude.{
  ◌+◌, ◌-◌, ◌%◌, ◌^◌, ℕ, zero, suc, Bool, true, false, Option, none, some, List, [], ◌∷◌,
}
use moxt_cpp.Prelude.Put.{put}

-- The two queues have room for as many.
abbrev pub queue_capacity : ℕ
queue_capacity = 12

-- `trackingCount` is the 32 bits of a std::atomic<int>, which wraps around.
abbrev pub increment : ℕ → ℕ
increment n = (n + 1) % 2 ^ 32

abbrev pub decrement : ℕ → ℕ
decrement n = (n + (2 ^ 32 - 1)) % 2 ^ 32

-- What a call comes to: it returns, it waits for good, or it uses a client that is not live.
pub data Result (A : Type 0) : Type 0 where
  returns : A → Result A
  waits dangling : Result A

abbrev pub and_then : {A B : Type 0} → Result A → (A → Result B) → Result B
and_then (returns a) f = f a
and_then waits f = waits
and_then dangling f = dangling

module _ (q : Queue ℕ) where
  pub record HttpClientPool : Type 0 where
    pub pool : q.Ring
    pub closed_pool : q.Ring
    pub tracking_count : ℕ
    pub clients : ℕ → Option Bool
    pub next_client : ℕ

  abbrev pub new_pool : HttpClientPool
  new_pool = record {
    pool = q.make queue_capacity;
    closed_pool = q.make queue_capacity;
    tracking_count = 0;
    clients = λ c. none;
    next_client = 0;
  }

  -- createHttpClient and `connect`: the client is live whatever `connect` answers.
  abbrev pub create_http_client : Bool → HttpClientPool → HttpClientPool
  create_http_client connected p = record p {
    clients = put p.next_client (some connected) p.clients;
    next_client = suc p.next_client;
  }

  -- The client, or `none` for the null pointer or an exception.
  abbrev pub connect_answer : Answer Bool → ℕ → Option ℕ
  connect_answer (returned true) client = some client
  connect_answer (returned false) client = none
  connect_answer thrown client = none

  module _ {Response : Type 0} where
    abbrev pub acquire_from :
        Option ℕ → Replies Response → HttpClientPool → HttpClientPool × Option ℕ
    acquire_from (some client) r p =
        (record p { pool = q.pop p.pool; tracking_count = increment p.tracking_count }, some client)
    acquire_from none r p =
        let d = connect r in
        (create_http_client (handled r.late d.connected) p, connect_answer d.answer p.next_client)

    unfoldable pub acquire : Replies Response → HttpClientPool → HttpClientPool × Option ℕ
    acquire r p = acquire_from (q.front p.pool) r p

  -- The queue that a client is released to.
  abbrev pub pushed_to_pool : Option q.Ring → HttpClientPool → Result HttpClientPool
  pushed_to_pool none p = waits
  pushed_to_pool (some r) p =
      returns (record p { pool = r; tracking_count = decrement p.tracking_count })

  abbrev pub pushed_to_closed : Option q.Ring → HttpClientPool → Result HttpClientPool
  pushed_to_closed none p = waits
  pushed_to_closed (some r) p =
      returns (record p { closed_pool = r; tracking_count = decrement p.tracking_count })

  abbrev pub release_by : Option Bool → ℕ → HttpClientPool → Result HttpClientPool
  release_by none client p = dangling
  release_by (some true) client p = pushed_to_pool (q.push p.pool client) p
  release_by (some false) client p = pushed_to_closed (q.push p.closed_pool client) p

  unfoldable pub release : Option ℕ → HttpClientPool → Result HttpClientPool
  release none p = returns p
  release (some client) p = release_by (p.clients client) client p

  -- `delete client`, after `disconnect` where the client is connected
  abbrev pub delete_live : Option Bool → ℕ → HttpClientPool → Result HttpClientPool
  delete_live none client p = dangling
  delete_live (some connected) client p = returns (record p { clients = put client none p.clients })

  abbrev pub delete_client : ℕ → HttpClientPool → Result HttpClientPool
  delete_client client p = delete_live (p.clients client) client p

  -- A round of `collect`.
  abbrev pub collect_from : Option ℕ → HttpClientPool → Result HttpClientPool
  collect_from none p = returns p
  collect_from (some client) p =
      delete_client client (record p { closed_pool = q.pop p.closed_pool })

  unfoldable pub collect : HttpClientPool → Result HttpClientPool
  collect p = collect_from (q.front p.closed_pool) p

  -- The loops of the destructor, with fuel; running out of it counts as waiting.
  unfoldable pub drain_pool : ℕ → HttpClientPool → Result HttpClientPool
  drain_pool zero p = waits
  drain_pool (suc fuel) p = elim (q.front p.pool) [
    | none ↦ returns p
    | some client ↦
        and_then (delete_client client (record p { pool = q.pop p.pool })) (drain_pool fuel)
  ]

  unfoldable pub drain_closed : ℕ → HttpClientPool → Result HttpClientPool
  drain_closed zero p = waits
  drain_closed (suc fuel) p = elim (q.front p.closed_pool) [
    | none ↦ returns p
    | some client ↦
        and_then (delete_client client (record p { closed_pool = q.pop p.closed_pool }))
          (drain_closed fuel)
  ]

  -- The destructor.
  unfoldable pub free_pool : HttpClientPool → Result HttpClientPool
  free_pool p = and_then (drain_pool (suc queue_capacity) p) (drain_closed (suc queue_capacity))
