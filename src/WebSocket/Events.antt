-- ===== src/WebSocket/Events.antt =====
-- moxt/httpx/websocket.cpp: the handlers as asio calls them, each once for an operation that was
-- started, in any order and with any error code, between calls of the program.
use moxt_cpp.WebSocket.{
  ErrorCode, Operation, async_resolve, async_connect, async_ssl_handshake, async_handshake,
  async_close, async_read, async_write, wait_reconnect, wait_heartbeat, Request, start, WebSocket,
  new_websocket, Call, call, Step, on_resolve, on_connect, on_ssl_handshake, on_handshake, on_close,
  on_read, on_write, on_reconnect, do_heartbeat,
}
use moxt_cpp.Prelude.{ℕ, zero, suc, Option, none, some, List, [], ◌∷◌, ◌++◌, Bytes, get_elem?}
use moxt_cpp.Prelude.Outcome.{Outcome, ok, ◌>>=◌}

-- What the library passes to a handler or leaves for it, and the calls of the callbacks it runs.
pub record Completion : Type 0 where
  pub code : ErrorCode
  pub host_name : Option ErrorCode
  pub reason : ℕ
  pub received : Bytes
  pub connect_calls : List Call
  pub other_calls : List Call

unfoldable pub complete : Operation → Completion → Step
complete async_resolve c ws = on_resolve c.code c.host_name ws
complete async_connect c ws = on_connect c.code ws
complete async_ssl_handshake c ws = on_ssl_handshake c.code ws
complete async_handshake c ws = on_handshake c.code c.connect_calls c.other_calls ws
complete async_close c ws = on_close ws
complete async_read c ws =
    on_read c.code c.reason c.other_calls (record ws { buffer = ws.buffer ++ c.received })
complete (async_write data') c ws = on_write c.code ws
complete (wait_reconnect seconds) c ws = on_reconnect c.code ws
complete (wait_heartbeat seconds) c ws = do_heartbeat c.code c.other_calls ws

pub record System : Type 0 where
  pub ws : WebSocket
  pub pending : List Operation

abbrev pub new_system : System
new_system = record { ws = new_websocket; pending = [] }

unfoldable pub started : List Request → List Operation
started [] = []
started (start op ∷ rs) = op ∷ started rs
started (_ ∷ rs) = started rs

unfoldable pub remove_at {ℓ} : {A : Type ℓ} → ℕ → List A → List A
remove_at n [] = []
remove_at zero (x ∷ xs) = xs
remove_at (suc n) (x ∷ xs) = x ∷ remove_at n xs

-- The operation at a place of `pending` is complete, or the program makes a call.
pub data Event : Type 0 where
  completed : ℕ → Completion → Event
  called : Call → Event

abbrev pub settle : List Operation → WebSocket × List Request → System × List Request
settle pending r = (record { ws = r.0; pending = pending ++ started r.1 }, r.1)

abbrev pub complete_at :
    Option Operation → ℕ → Completion → System → Outcome (System × List Request)
complete_at none n c s = ok (s, [])
complete_at (some op) n c s = do r ← complete op c s.ws; ok (settle (remove_at n s.pending) r)

unfoldable pub step : Event → System → Outcome (System × List Request)
step (completed n c) s = complete_at (get_elem? s.pending n) n c s
step (called c) s = do r ← call c s.ws; ok (settle s.pending r)

-- The first event first.
unfoldable pub play : List Event → System → Outcome (System × List Request)
play [] s = ok (s, [])
play (e ∷ es) s = do a ← step e s; b ← play es a.0; ok (b.0, a.1 ++ b.1)
