-- ===== src/WebSocket/Fine.antt =====
-- moxt/httpx/websocket.cpp: what is true of the result of a handler.
use moxt_cpp.WebSocket.{
  Operation, async_resolve, wait_reconnect, Request, start, WebSocket, Step, on_stream, ◌and_then◌,
}
use moxt_cpp.WebSocket.Events.{started}
use mathlib.Core.Path.{subst}
use moxt_cpp.Prelude.{
  ◌≡◌, refl, sym, ap, ℕ, ◌≤◌, Bool, true, false, List, [], ◌∷◌, ◌++◌, All, All-append,
  if◌then◌else◌,
}
use moxt_cpp.Prelude.Outcome.{Outcome, ok}

-- Only names are resolved without a stream.
abbrev pub needs_stream : Operation → Bool
needs_stream async_resolve = false
needs_stream _ = true

abbrev pub seconds : Operation → ℕ
seconds (wait_reconnect n) = n
seconds _ = 0

abbrev pub Served : Bool → Operation → Type 0
Served stream op = (needs_stream op ≡ true → stream ≡ true) × (seconds op ≤ 60)

-- A result without a fault that keeps a stream and starts what it serves.
pub record Fine (stream : Bool) (r : Outcome (WebSocket × List Request)) : Type 0 where
  pub after : WebSocket × List Request
  pub result : r ≡ ok after
  pub keeps : stream ≡ true → after.0.websocket ≡ true
  pub served : All (Served after.0.websocket) (started after.1)

pub started-append : (a b : List Request) → started (a ++ b) ≡ started a ++ started b
unfolding started
started-append [] b = refl
started-append (start op ∷ a) b = ap (λ l. op ∷ l) (started-append a b)
started-append (Request.expires_after n ∷ a) b = started-append a b
started-append (Request.new_stream ∷ a) b = started-append a b
started-append (Request.expires_never ∷ a) b = started-append a b
started-append (Request.cancel_heartbeat ∷ a) b = started-append a b
started-append (Request.connected ∷ a) b = started-append a b
started-append (Request.heartbeat ∷ a) b = started-append a b
started-append (Request.message m ∷ a) b = started-append a b

-- A stream that stays serves what it served.
pub Served-on :
    (a b : Bool) (ops : List Operation)
    → (a ≡ true → b ≡ true)
    → All (Served a) ops
    → All (Served b) ops
Served-on a b [] h s = tt
Served-on a b (op ∷ ops) h ((n, l), s) = ((λ e. h (n e), l), Served-on a b ops h s)

pub Fine-and_then :
    (stream : Bool) (r : Outcome (WebSocket × List Request)) (f : Step)
    → Fine stream r
    → ((ws : WebSocket) → (stream ≡ true → ws.websocket ≡ true) → Fine ws.websocket (f ws))
    → Fine stream (r and_then f)
Fine-and_then stream r f w g =
    let v = g w.after.0 w.keeps in
    record {
      after = (v.after.0, w.after.1 ++ v.after.1);
      result = rw (w.result, v.result) refl;
      keeps = λ e. v.keeps (w.keeps e);
      served = subst (All (Served v.after.0.websocket)) (sym (started-append w.after.1 v.after.1)) (
          All-append (Served v.after.0.websocket) (started w.after.1) (started v.after.1)
            (Served-on w.after.0.websocket v.after.0.websocket (started w.after.1) v.keeps w.served)
            v.served);
    }

pub on_stream-Fine :
    (requests : List Request) (ws : WebSocket)
    → ws.websocket ≡ true
    → All (Served ws.websocket) (started requests)
    → Fine ws.websocket (on_stream requests ws)
unfolding on_stream
on_stream-Fine requests ws h s = record {
  after = (ws, requests);
  result = rw h refl;
  keeps = λ e. e;
  served = s;
}

-- A result that asks for nothing.
pub idle-Fine :
    (ws : WebSocket) (stream : Bool) (requests : List Request)
    → (stream ≡ true → ws.websocket ≡ true)
    → started requests ≡ []
    → Fine stream (ok (ws, requests))
idle-Fine ws stream requests h e = record {
  after = (ws, requests);
  result = refl;
  keeps = h;
  served = subst (All (Served ws.websocket)) (sym e) tt;
}

pub if-Fine :
    (stream b : Bool) (x y : Outcome (WebSocket × List Request))
    → Fine stream x
    → Fine stream y
    → Fine stream (if b then x else y)
if-Fine stream true x y p q = p
if-Fine stream false x y p q = q

-- One operation on a stream.
pub on_stream_one :
    (requests : List Request) (op : Operation) (ws : WebSocket)
    → ws.websocket ≡ true
    → started requests ≡ op ∷ []
    → seconds op ≤ 60
    → Fine ws.websocket (on_stream requests ws)
on_stream_one requests op ws h e l =
    on_stream-Fine requests ws h (subst (All (Served ws.websocket)) (sym e) (((λ n. h), l), tt))

pub Fine-any :
    (stream : Bool) (r : Outcome (WebSocket × List Request)) → Fine true r → Fine stream r
Fine-any stream r w = record {
  after = w.after;
  result = w.result;
  keeps = λ e. w.keeps refl;
  served = w.served;
}
