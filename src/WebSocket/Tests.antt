-- ===== src/WebSocket/Tests.antt =====
-- moxt/httpx/websocket.cpp: runs of the client.
use moxt_cpp.WebSocket.{
  success, operation_aborted, other_error, async_resolve, start, new_websocket, call_connect,
  call_write, call_disconnect,
}
use moxt_cpp.WebSocket.Events.{Event, new_system, completed, called, started, play}
use moxt_cpp.WebSocket.Run.{Played, play-Sound}
use moxt_cpp.WebSocket.Backoff.{
  Failure, resolving, connecting, securing, upgrading, with_code, Tried, attempts-Tried, waited,
}
use moxt_cpp.WebSocket.Closing.{
  completions, first_resolve-failed, disconnecting, reading, disconnect_undone,
}
use moxt_cpp.Prelude.{◌≡◌, refl, false, true, List, [], ◌∷◌, codes, arith}
use moxt_cpp.Prelude.Outcome.{ok, ◌>>=◌}

-- A connection whose callback writes; the program writes, and disconnects before the read ends.
abbrev session : List Event
session =
    called call_connect
    ∷ completed 0 (with_code success)
    ∷ completed 0 (with_code success)
    ∷ completed 0 (with_code success)
    ∷ completed 0 (record (with_code success) { connect_calls = call_write (codes "hello") ∷ [] })
    ∷ completed 0 (record (with_code success) { received = codes "welcome" })
    ∷ called (call_write (codes "bye"))
    ∷ called (call_disconnect false)
    ∷ completed 2 (with_code operation_aborted)
    ∷ []

play-Sound_example : Played session new_system
play-Sound_example = play-Sound session

-- Attempts that fail in each part.
abbrev failures : List Failure
failures =
    record { stage = resolving; code = other_error }
    ∷ record { stage = connecting; code = other_error }
    ∷ record { stage = securing; code = other_error }
    ∷ record { stage = upgrading; code = operation_aborted }
    ∷ []

attempts-Tried_example : Tried failures false 10 [] 10
attempts-Tried_example =
    attempts-Tried failures false 10 [] 10 (refl, (refl, (refl, (refl, tt)))) (omega arith)

first_resolve-failed_example :
    play
      (called call_connect
        ∷ completed 0 (with_code other_error)
        ∷ completions ((0, with_code success) ∷ []))
      new_system
    ≡ ok (
      record { ws = record new_websocket { reconnect = true }; pending = [] },
      start async_resolve ∷ [],
    )
first_resolve-failed_example =
    first_resolve-failed (with_code other_error) ((0, with_code success) ∷ []) refl

disconnect_undone_example :
    (play
        (disconnecting (record (with_code other_error) { reason = 0; received = [] }))
        (reading false 3 [] 10)
      >>= λ r. ok (waited (started r.1)))
    ≡ ok (15 ∷ [])
disconnect_undone_example = disconnect_undone false 3 [] 10 other_error 0 [] refl (omega arith)
