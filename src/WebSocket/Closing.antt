-- ===== src/WebSocket/Closing.antt =====
-- moxt/httpx/websocket.cpp: failures of the first name, of a read during a disconnect, and in the
-- middle of a message.
use moxt_cpp.WebSocket.{
  ErrorCode, failed, success, operation_aborted, stream_truncated, other_error, async_resolve,
  async_read, Request, message, WebSocket, new_websocket, connect, disconnect, on_stream,
  on_resolve, on_connect, on_ssl_handshake, on_handshake, on_close, on_reconnect, on_read, read,
  do_heartbeat, call_connect, call_disconnect,
}
use moxt_cpp.WebSocket.Events.{
  Completion, complete, System, new_system, started, remove_at, Event, completed, called, step,
  play,
}
use moxt_cpp.WebSocket.Backoff.{waiting_time-small, with_code, successes, waited}
use moxt_cpp.Prelude.{
  ◌≡◌, refl, ◌*◌, ◌^◌, ◌<◌, arith, leb, ℕ, Bool, true, false, List, [], ◌∷◌, ◌++◌, Bytes,
  if◌then◌else◌, ◌==◌, Bool-cases, inl, inr,
}
use moxt_cpp.Prelude.Outcome.{ok, ◌>>=◌}

-- Completions at any places.
abbrev pub completions : List (ℕ × Completion) → List Event
completions [] = []
completions ((n, c) ∷ cs) = completed n c ∷ completions cs

-- With nothing pending, nothing completes.
play_nothing :
    (cs : List (ℕ × Completion)) (ws : WebSocket)
    → play (completions cs) (record { ws = ws; pending = [] })
      ≡ ok (record { ws = ws; pending = [] }, [])
unfolding play step
play_nothing [] ws = refl
play_nothing ((n, c) ∷ cs) ws = rw (play_nothing cs ws) refl

-- If the first attempt to resolve the name fails, the client has set out to connect again, but
-- nothing is pending: whatever completions are waited for, it asks for nothing any more.
pub first_resolve-failed :
    (c : Completion) (cs : List (ℕ × Completion))
    → failed c.code ≡ true
    → play (called call_connect ∷ completed 0 c ∷ completions cs) new_system
      ≡ ok (
        record { ws = record new_websocket { reconnect = true }; pending = [] },
        Request.start async_resolve ∷ [],
      )
unfolding play step complete remove_at started connect disconnect on_resolve
first_resolve-failed c cs h =
    rw (h, play_nothing cs (record new_websocket { reconnect = true })) refl

-- A connected client that reads.
abbrev pub reading : Bool → ℕ → Bytes → ℕ → System
reading reconnect count buffer interval = record {
  ws = record {
    websocket = true;
    reconnect = reconnect;
    reconnect_count = count;
    buffer = buffer;
    heartbeat_interval = interval;
  };
  pending = async_read ∷ [];
}

-- The program disconnects for good, the read fails, the first close completes.
abbrev pub disconnecting : Completion → List Event
disconnecting c =
    called (call_disconnect false) ∷ completed 0 c ∷ completed 0 (with_code success) ∷ []

-- Five seconds for each attempt since the last connection, a minute at most.
abbrev pub back_off : ℕ → ℕ
back_off count = if leb (5 * count) 60 then 5 * count else 60

-- The waits to connect again after a read that failed with a code and a reason of the server.
abbrev pub waits_after : ErrorCode → ℕ → ℕ → List ℕ
waits_after success reason count = []
waits_after operation_aborted reason count = []
waits_after stream_truncated reason count = if reason == 4014 then [] else back_off count ∷ []
waits_after other_error reason count = back_off count ∷ []

-- A program disconnects for good while a read is pending, after fewer than 2^29 attempts to connect;
-- the read fails, and the close that was asked for completes. Where the code of the read is the one
-- of an aborted operation, or the stream is cut off with the reason 4014, the client then does not
-- wait to connect again; on any other code of a failure it waits once to connect again, five seconds
-- for each attempt and a minute at most.
pub disconnect_undone :
    (reconnect : Bool) (count : ℕ) (buffer : Bytes) (interval : ℕ) (code : ErrorCode) (reason : ℕ)
    (received : Bytes)
    → failed code ≡ true
    → count < 2 ^ 29
    → let c = record (with_code code) { reason = reason; received = received } in
      (play (disconnecting c) (reading reconnect count buffer interval) >>= λ r.
      ok (waited (started r.1)))
      ≡ ok (waits_after code reason count)
unfolding play step complete remove_at started disconnect on_read on_close
disconnect_undone reconnect count buffer interval success reason received h l = absurd cc
disconnect_undone reconnect count buffer interval operation_aborted reason received h l = refl
disconnect_undone reconnect count buffer interval stream_truncated reason received h l =
    elim (Bool-cases (reason == 4014)) [
      | inl e ↦ rw e refl
      | inr e ↦ rw (e, waiting_time-small count (omega arith)) refl
    ]
disconnect_undone reconnect count buffer interval other_error reason received h l =
    rw (waiting_time-small count (omega arith)) refl

-- The texts of the messages that the program is told of.
unfoldable pub told : List Request → List Bytes
told [] = []
told (message text ∷ rs) = text ∷ told rs
told (_ ∷ rs) = told rs

-- A read that fails after some bytes of a message, a reconnect, and a whole message.
abbrev pub cut_off : Completion → Completion → List Event
cut_off broken whole = completed 0 broken ∷ successes 6 ++ completed 0 whole ∷ []

-- Where a read fails with an error after a part of a message, and the client connects again, the
-- callback gets that part before the next message, as one message.
part_kept :
    (reconnect : Bool) (count interval : ℕ) (part text : Bytes)
    → (play
          (cut_off
            (record (with_code other_error) { received = part })
            (record (with_code success) { received = text }))
          (reading reconnect count [] interval)
        >>= λ r. ok (told r.1))
      ≡ ok ((part ++ text) ∷ [])
unfolding play step complete remove_at started connect disconnect on_stream on_resolve on_connect
    on_ssl_handshake on_handshake on_close on_reconnect on_read read do_heartbeat told
part_kept reconnect count interval part text = refl
