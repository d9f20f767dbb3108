-- ===== src/HttpClientPool/Tests.antt =====
-- moxt/httpx/clientpool.cpp: a program that uses a pool, with a number as the response.
use moxt_cpp.Queue.{Queue, bounded}
use moxt_cpp.HttpClient.{Replies}
use moxt_cpp.HttpClientPool.{HttpClientPool, returns, free_pool}
use moxt_cpp.Count.{live, count}
use moxt_cpp.HttpClientPool.Use.{
  Program, new_program, Event, acquiring, requesting, releasing, collecting,
}
use moxt_cpp.HttpClientPool.Run.{Ran, program-Owned, few_return}
use moxt_cpp.HttpClientPool.Free.{free_pool-Owned}
use moxt_cpp.Prelude.{◌≡◌, ℕ, ◌+◌, true, false, List, [], ◌∷◌, arith}

abbrev served : Replies ℕ
served = record {
  host_name = true;
  resolved = true;
  handlers = true ∷ [];
  late = [];
  shaken = true;
  written = true;
  received = true;
  response = 200;
}

abbrev refused : Replies ℕ
refused = record served { handlers = false ∷ [] }

abbrev cut_off : Replies ℕ
cut_off = record served { received = false }

abbrev not_found : ℕ → ℕ
not_found r = 404

abbrev ring : Queue ℕ
ring = bounded ℕ

-- Two clients, one of which loses its connection, and one that cannot connect.
abbrev events : List (Event ring not_found 0)
events =
    acquiring served
    ∷ acquiring served
    ∷ acquiring refused
    ∷ requesting 0 cut_off
    ∷ releasing 0
    ∷ releasing 0
    ∷ collecting
    ∷ acquiring served
    ∷ []

program-Owned_example : Ran ring not_found 0 events (new_program ring not_found 0)
program-Owned_example = program-Owned ring not_found 0 events

-- The program after them.
abbrev used : Program ring not_found 0
used = (few_return ring not_found 0 events (omega arith)).0

free_pool-Owned_example :
    (p : HttpClientPool ring) × (free_pool ring used.pool ≡ returns p)
    × ((c : ℕ) → live (p.clients c) ≡ count c used.held + count c used.lost)
free_pool-Owned_example =
    free_pool-Owned ring not_found 0 used (few_return ring not_found 0 events (omega arith)).2
