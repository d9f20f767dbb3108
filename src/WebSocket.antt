-- ===== src/WebSocket.antt =====
-- moxt/httpx/websocket.hpp, moxt/httpx/websocket.cpp: `WebSocket`, a client that connects again
-- after an error. The network library is not modelled: a handler asks it for operations, the
-- `Request`s, and WebSocket/Events says which handler it calls once an operation is complete. The
-- callbacks of the program are the calls that they make on the client.
pub mod Events
pub mod Fine
pub mod Sound
pub mod Run
pub mod Backoff
pub mod Closing
mod Tests
use moxt_cpp.Prelude.{
  ℕ, suc, ◌*◌, ◌%◌, ◌^◌, Bool, true, false, Option, none, some, List, [], ◌∷◌, ◌++◌, Bytes, ltb,
  ◌==◌, if◌then◌else◌,
}
use moxt_cpp.Prelude.Outcome.{Outcome, ok, fault, null_pointer, ◌>>=◌}

-- The codes that the handlers tell apart.
pub data ErrorCode : Type 0 where
  success operation_aborted stream_truncated other_error : ErrorCode

-- `if (ec)`
abbrev pub failed : ErrorCode → Bool
failed success = false
failed _ = true

-- What completes later, by a call of a handler; waits are in seconds.
pub data Operation : Type 0 where
  async_resolve async_connect async_ssl_handshake async_handshake async_close async_read : Operation
  async_write : Bytes → Operation
  wait_reconnect wait_heartbeat : ℕ → Operation

-- What a handler does besides changing the client.
pub data Request : Type 0 where
  start : Operation → Request
  expires_after : ℕ → Request
  new_stream expires_never cancel_heartbeat connected heartbeat : Request
  message : Bytes → Request

-- `websocket` says whether there is a stream.
pub record WebSocket : Type 0 where
  pub websocket : Bool
  pub reconnect : Bool
  pub reconnect_count : ℕ
  pub buffer : Bytes
  pub heartbeat_interval : ℕ

abbrev pub new_websocket : WebSocket
new_websocket = record {
  websocket = false;
  reconnect = false;
  reconnect_count = 0;
  buffer = [];
  heartbeat_interval = 0;
}

abbrev pub Step : Type 0
Step = WebSocket → Outcome (WebSocket × List Request)

infixl 4 ◌and_then◌
abbrev pub ◌and_then◌ :
    Outcome (WebSocket × List Request) → Step → Outcome (WebSocket × List Request)
r and_then f = do a ← r; b ← f a.0; ok (b.0, a.1 ++ b.1)

-- An operation on `*_websocket`.
unfoldable pub on_stream : List Request → Step
on_stream requests ws = if ws.websocket then ok (ws, requests) else fault null_pointer

unfoldable pub connect : Step
connect ws = ok (ws, start async_resolve ∷ [])

unfoldable pub disconnect : Bool → Step
disconnect reconnect ws =
    let requests = if ws.websocket then start async_close ∷ [] else [] in
    ok (record ws { reconnect = reconnect }, requests)

unfoldable pub write : Bytes → Step
write data' ws = on_stream (start (async_write data') ∷ []) ws

-- A call that a program makes, at any time or in a callback.
pub data Call : Type 0 where
  call_connect : Call
  call_disconnect : Bool → Call
  call_write : Bytes → Call

abbrev pub call : Call → Step
call call_connect ws = connect ws
call (call_disconnect reconnect) ws = disconnect reconnect ws
call (call_write data') ws = write data' ws

abbrev pub calls : List Call → Step
calls [] ws = ok (ws, [])
calls (c ∷ cs) ws = call c ws and_then calls cs

-- A callback.
abbrev pub callback : Request → List Call → Step
callback request cs ws = ok (ws, request ∷ []) and_then calls cs

unfoldable pub on_ssl_handshake : ErrorCode → Step
on_ssl_handshake ec ws =
    if failed ec
    then disconnect true ws
    else on_stream (expires_never ∷ start async_handshake ∷ []) ws

-- SSL_set_tlsext_host_name, with its error where it fails.
abbrev pub after_host_name : Option ErrorCode → Step
after_host_name (some ec) ws = on_ssl_handshake ec ws
after_host_name none ws = on_stream (expires_after 30 ∷ start async_connect ∷ []) ws

unfoldable pub on_resolve : ErrorCode → Option ErrorCode → Step
on_resolve ec host_name ws =
    if failed ec
    then disconnect true ws
    else (ok (record ws { websocket = true }, new_stream ∷ []) and_then after_host_name host_name)

unfoldable pub on_connect : ErrorCode → Step
on_connect ec ws =
    if failed ec
    then disconnect true ws
    else on_stream (expires_after 30 ∷ start async_ssl_handshake ∷ []) ws

unfoldable pub read : Step
read ws = on_stream (start async_read ∷ []) ws

unfoldable pub do_heartbeat : ErrorCode → List Call → Step
do_heartbeat ec cs ws =
    if failed ec
    then ok (ws, [])
    else callback heartbeat cs ws and_then λ ws'.
        ok (ws', start (wait_heartbeat ws'.heartbeat_interval) ∷ [])

unfoldable pub on_handshake : ErrorCode → List Call → List Call → Step
on_handshake ec connect_calls heartbeat_calls ws =
    if failed ec
    then disconnect true ws
    else read (record ws { reconnect_count = 0 })
      and_then callback connected connect_calls
      and_then λ ws'. do_heartbeat success heartbeat_calls (record ws' { heartbeat_interval = 10 })

-- `std::min(_reconnectCount * 5, 60u)`, on unsigned int
unfoldable pub waiting_time : ℕ → ℕ
waiting_time count = let time = count * 5 % 2 ^ 32 in if ltb 60 time then 60 else time

unfoldable pub on_close : Step
on_close ws =
    let timer =
      if ws.reconnect then start (wait_reconnect (waiting_time ws.reconnect_count)) ∷ [] else [] in
    ok (ws, cancel_heartbeat ∷ timer)

unfoldable pub on_reconnect : ErrorCode → Step
on_reconnect ec ws =
    if failed ec
    then ok (ws, [])
    else connect (record ws { reconnect_count = suc ws.reconnect_count % 2 ^ 32 })

-- Whether a failed read asks to connect again. `reason` is the code that the server closed with.
abbrev pub reads_again : ErrorCode → ℕ → Bool
reads_again stream_truncated reason = if reason == 4014 then false else true
reads_again operation_aborted reason = false
reads_again _ reason = true

unfoldable pub on_read : ErrorCode → ℕ → List Call → Step
on_read ec reason message_calls ws =
    if failed ec
    then (if reads_again ec reason then disconnect true ws else ok (ws, []))
    else callback (message ws.buffer) message_calls ws and_then λ ws'.
        read (record ws' { buffer = [] })

unfoldable pub on_write : ErrorCode → Step
on_write ec ws = ok (ws, [])
