-- ===== src/WebSocket/Sound.antt =====
-- moxt/httpx/websocket.cpp: the handlers and calls, one by one: the stream, and the waits.
use moxt_cpp.WebSocket.Fine.{
  Served, Fine, Fine-and_then, idle-Fine, if-Fine, on_stream_one, Fine-any,
}
use moxt_cpp.WebSocket.{
  ErrorCode, failed, reads_again, async_resolve, async_connect, async_ssl_handshake,
  async_handshake, async_close, async_read, async_write, wait_reconnect, wait_heartbeat, Request,
  start, WebSocket, callback, calls, Call, call, call_connect, call_disconnect, call_write, Step,
  on_resolve, on_connect, on_ssl_handshake, on_handshake, on_close, on_read, on_reconnect,
  do_heartbeat, connect, disconnect, write, read, on_stream, waiting_time, after_host_name,
  ◌and_then◌,
}
use moxt_cpp.WebSocket.Events.{started}
use moxt_cpp.Prelude.{
  ◌≡◌, refl, ℕ, suc, ◌%◌, ◌^◌, ◌≤◌, Bool, true, false, Option, none, some, List, [], ◌∷◌, Bytes,
  All, if◌then◌else◌, arith,
}
use moxt_cpp.Prelude.Outcome.{Outcome, ok}

closing-Served : (b : Bool) → All (Served b) (started (if b then start async_close ∷ [] else []))
unfolding started
closing-Served true = (((λ e. refl), omega arith), tt)
closing-Served false = tt

pub disconnect-Fine :
    (reconnect : Bool) (ws : WebSocket) → Fine ws.websocket (disconnect reconnect ws)
unfolding disconnect
disconnect-Fine reconnect ws = record {
  after =
      (record ws { reconnect = reconnect }, if ws.websocket then start async_close ∷ [] else []);
  result = refl;
  keeps = λ e. e;
  served = closing-Served ws.websocket;
}

pub connect-Fine : (ws : WebSocket) → Fine ws.websocket (connect ws)
unfolding connect started
connect-Fine ws = record {
  after = (ws, start async_resolve ∷ []);
  result = refl;
  keeps = λ e. e;
  served = (((λ e. cc), omega arith), tt);
}

write-Fine :
    (data' : Bytes) (ws : WebSocket) → ws.websocket ≡ true → Fine ws.websocket (write data' ws)
unfolding write started
write-Fine data' ws h =
    on_stream_one (start (async_write data') ∷ []) (async_write data') ws h refl (omega arith)

pub call-Fine : (c : Call) (ws : WebSocket) → ws.websocket ≡ true → Fine ws.websocket (call c ws)
call-Fine call_connect ws h = connect-Fine ws
call-Fine (call_disconnect reconnect) ws h = disconnect-Fine reconnect ws
call-Fine (call_write data') ws h = write-Fine data' ws h

calls-Fine :
    (cs : List Call) (ws : WebSocket) → ws.websocket ≡ true → Fine ws.websocket (calls cs ws)
unfolding started
calls-Fine [] ws h = idle-Fine ws ws.websocket [] (λ e. e) refl
calls-Fine (c ∷ cs) ws h =
    Fine-and_then ws.websocket (call c ws) (calls cs) (call-Fine c ws h)
      (λ ws' k. calls-Fine cs ws' (k h))

callback-Fine :
    (request : Request) (cs : List Call) (ws : WebSocket)
    → ws.websocket ≡ true
    → started (request ∷ []) ≡ []
    → Fine ws.websocket (callback request cs ws)
callback-Fine request cs ws h e =
    Fine-and_then ws.websocket (ok (ws, request ∷ [])) (calls cs)
      (idle-Fine ws ws.websocket (request ∷ []) (λ k. k) e) (λ ws' k. calls-Fine cs ws' (k h))

pub on_ssl_handshake-Fine :
    (ec : ErrorCode) (ws : WebSocket)
    → ws.websocket ≡ true
    → Fine ws.websocket (on_ssl_handshake ec ws)
unfolding on_ssl_handshake started
on_ssl_handshake-Fine ec ws h =
    if-Fine ws.websocket (failed ec) (disconnect true ws)
      (on_stream (Request.expires_never ∷ start async_handshake ∷ []) ws) (disconnect-Fine true ws)
      (on_stream_one (Request.expires_never ∷ start async_handshake ∷ []) async_handshake ws h refl
        (omega arith))

after_host_name-Fine :
    (host_name : Option ErrorCode) (ws : WebSocket)
    → ws.websocket ≡ true
    → Fine ws.websocket (after_host_name host_name ws)
unfolding started
after_host_name-Fine (some ec) ws h = on_ssl_handshake-Fine ec ws h
after_host_name-Fine none ws h =
    on_stream_one (Request.expires_after 30 ∷ start async_connect ∷ []) async_connect ws h refl
      (omega arith)

-- A name that was resolved makes a stream.
pub on_resolve-Fine :
    (ec : ErrorCode) (host_name : Option ErrorCode) (ws : WebSocket)
    → Fine ws.websocket (on_resolve ec host_name ws)
unfolding on_resolve started
on_resolve-Fine ec host_name ws =
    let streaming : WebSocket = record ws { websocket = true } in
    let made : Outcome (WebSocket × List Request) = ok (streaming, Request.new_stream ∷ []) in
    if-Fine ws.websocket (failed ec) (disconnect true ws) (made and_then after_host_name host_name)
      (disconnect-Fine true ws)
      (Fine-any ws.websocket (made and_then after_host_name host_name) (
        Fine-and_then true made (after_host_name host_name)
          (idle-Fine streaming true (Request.new_stream ∷ []) (λ e. refl) refl)
          (λ ws' k. after_host_name-Fine host_name ws' (k refl))))

pub on_connect-Fine :
    (ec : ErrorCode) (ws : WebSocket) → ws.websocket ≡ true → Fine ws.websocket (on_connect ec ws)
unfolding on_connect started
on_connect-Fine ec ws h =
    if-Fine ws.websocket (failed ec) (disconnect true ws)
      (on_stream (Request.expires_after 30 ∷ start async_ssl_handshake ∷ []) ws)
      (disconnect-Fine true ws)
      (on_stream_one (Request.expires_after 30 ∷ start async_ssl_handshake ∷ []) async_ssl_handshake
        ws h refl (omega arith))

read-Fine : (ws : WebSocket) → ws.websocket ≡ true → Fine ws.websocket (read ws)
unfolding read started
read-Fine ws h = on_stream_one (start async_read ∷ []) async_read ws h refl (omega arith)

pub do_heartbeat-Fine :
    (ec : ErrorCode) (cs : List Call) (ws : WebSocket)
    → ws.websocket ≡ true
    → Fine ws.websocket (do_heartbeat ec cs ws)
unfolding do_heartbeat started
do_heartbeat-Fine ec cs ws h =
    let wait : Step = λ ws'. ok (ws', start (wait_heartbeat ws'.heartbeat_interval) ∷ []) in
    if-Fine ws.websocket (failed ec) (ok (ws, [])) (callback Request.heartbeat cs ws and_then wait)
      (idle-Fine ws ws.websocket [] (λ e. e) refl)
      (Fine-and_then ws.websocket (callback Request.heartbeat cs ws) wait
        (callback-Fine Request.heartbeat cs ws h refl)
        (λ ws' k. record {
          after = (ws', start (wait_heartbeat ws'.heartbeat_interval) ∷ []);
          result = refl;
          keeps = λ e. e;
          served = (((λ n. k h), omega arith), tt);
        }))

pub on_handshake-Fine :
    (ec : ErrorCode) (connect_calls heartbeat_calls : List Call) (ws : WebSocket)
    → ws.websocket ≡ true
    → Fine ws.websocket (on_handshake ec connect_calls heartbeat_calls ws)
unfolding on_handshake started
on_handshake-Fine ec connect_calls heartbeat_calls ws h =
    let reset : WebSocket = record ws { reconnect_count = 0 } in
    let beat : Step = λ ws'.
      do_heartbeat ErrorCode.success heartbeat_calls (record ws' { heartbeat_interval = 10 }) in
    let opened : Outcome (WebSocket × List Request) =
      read reset and_then callback Request.connected connect_calls in
    if-Fine ws.websocket (failed ec) (disconnect true ws) (opened and_then beat)
      (disconnect-Fine true ws)
      (Fine-and_then ws.websocket opened beat
        (Fine-and_then ws.websocket (read reset) (callback Request.connected connect_calls)
          (read-Fine reset h)
          (λ ws' k. callback-Fine Request.connected connect_calls ws' (k h) refl))
        (λ ws' k.
          do_heartbeat-Fine ErrorCode.success heartbeat_calls
            (record ws' { heartbeat_interval = 10 }) (k h)))

waiting_time_le : (count : ℕ) → waiting_time count ≤ 60
unfolding waiting_time
waiting_time_le count = ground arith

timer-Served :
    (stream reconnect : Bool) (count : ℕ)
    → stream ≡ true
    → All
        (Served stream)
        (started (if reconnect then start (wait_reconnect (waiting_time count)) ∷ [] else []))
unfolding started
timer-Served stream true count h = (((λ n. h), waiting_time_le count), tt)
timer-Served stream false count h = tt

pub on_close-Fine : (ws : WebSocket) → ws.websocket ≡ true → Fine ws.websocket (on_close ws)
unfolding on_close started
on_close-Fine ws h = record {
  after = (
    ws,
    Request.cancel_heartbeat
        ∷ (if ws.reconnect
            then start (wait_reconnect (waiting_time ws.reconnect_count)) ∷ []
            else []),
  );
  result = refl;
  keeps = λ e. e;
  served = timer-Served ws.websocket ws.reconnect ws.reconnect_count h;
}

pub on_reconnect-Fine : (ec : ErrorCode) (ws : WebSocket) → Fine ws.websocket (on_reconnect ec ws)
unfolding on_reconnect started
on_reconnect-Fine ec ws =
    let counted : WebSocket = record ws { reconnect_count = suc ws.reconnect_count % 2 ^ 32 } in
    if-Fine ws.websocket (failed ec) (ok (ws, [])) (connect counted)
      (idle-Fine ws ws.websocket [] (λ e. e) refl) (connect-Fine counted)

pub on_read-Fine :
    (ec : ErrorCode) (reason : ℕ) (message_calls : List Call) (ws : WebSocket)
    → ws.websocket ≡ true
    → Fine ws.websocket (on_read ec reason message_calls ws)
unfolding on_read started
on_read-Fine ec reason message_calls ws h =
    let again : Step = λ ws'. read (record ws' { buffer = [] }) in
    let told : Outcome (WebSocket × List Request) =
      callback (Request.message ws.buffer) message_calls ws in
    if-Fine ws.websocket (failed ec)
      (if reads_again ec reason then disconnect true ws else ok (ws, [])) (told and_then again)
      (if-Fine ws.websocket (reads_again ec reason) (disconnect true ws) (ok (ws, []))
        (disconnect-Fine true ws) (idle-Fine ws ws.websocket [] (λ e. e) refl))
      (Fine-and_then ws.websocket told again
        (callback-Fine (Request.message ws.buffer) message_calls ws h refl)
        (λ ws' k. read-Fine (record ws' { buffer = [] }) (k h)))
