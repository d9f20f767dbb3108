-- ===== src/WebSocket/Run.antt =====
-- moxt/httpx/websocket.cpp: any run of the client.
use moxt_cpp.WebSocket.{
  Operation, async_resolve, async_connect, async_ssl_handshake, async_handshake, async_close,
  async_read, async_write, wait_reconnect, wait_heartbeat, Request, WebSocket, Call, call,
  call_connect, call_disconnect, call_write, on_write, write, on_stream,
}
use moxt_cpp.WebSocket.Events.{
  Completion, complete, System, new_system, started, remove_at, Event, completed, called, settle,
  complete_at, step, play,
}
use moxt_cpp.WebSocket.Fine.{Served, Fine, Served-on, idle-Fine}
use moxt_cpp.WebSocket.Sound.{
  on_resolve-Fine, on_connect-Fine, on_ssl_handshake-Fine, on_handshake-Fine, on_close-Fine,
  on_read-Fine, on_reconnect-Fine, do_heartbeat-Fine, connect-Fine, disconnect-Fine, call-Fine,
}
use mathlib.Core.Path.{subst}
use mathlib.Core.Option.{some-injective}
use moxt_cpp.Prelude.{
  ◌≡◌, refl, ℕ, zero, suc, true, false, Option, none, some, List, [], ◌∷◌, ◌++◌, All, All-append,
  get_elem?, ◌⊎◌, inl, inr, Bool-cases,
}
use moxt_cpp.Prelude.Outcome.{ok, fault, null_pointer}

-- Whatever is pending, other than the resolving of a name, has its stream.
abbrev pub Sound : System → Type 0
Sound s = All (Served s.ws.websocket) s.pending

-- A program that, after some events, writes while there is no stream.
pub data Early : List Event → System → Type 0 where
  now :
      (data' : List ℕ) (es : List Event) (s : System)
      → s.ws.websocket ≡ false
      → Early (called (call_write data') ∷ es) s
  later :
      (e : Event) (es : List Event) (s : System) (a : System × List Request)
      → step e s ≡ ok a
      → Early es a.0
      → Early (e ∷ es) s

complete-Fine :
    (op : Operation) (c : Completion) (ws : WebSocket)
    → Served ws.websocket op
    → Fine ws.websocket (complete op c ws)
unfolding complete on_write started
complete-Fine async_resolve c ws (h, _) = on_resolve-Fine c.code c.host_name ws
complete-Fine async_connect c ws (h, _) = on_connect-Fine c.code ws (h refl)
complete-Fine async_ssl_handshake c ws (h, _) = on_ssl_handshake-Fine c.code ws (h refl)
complete-Fine async_handshake c ws (h, _) =
    on_handshake-Fine c.code c.connect_calls c.other_calls ws (h refl)
complete-Fine async_close c ws (h, _) = on_close-Fine ws (h refl)
complete-Fine async_read c ws (h, _) =
    on_read-Fine c.code c.reason c.other_calls (record ws { buffer = ws.buffer ++ c.received })
      (h refl)
complete-Fine (async_write data') c ws (h, _) = idle-Fine ws ws.websocket [] (λ e. e) refl
complete-Fine (wait_reconnect n) c ws (h, _) = on_reconnect-Fine c.code ws
complete-Fine (wait_heartbeat n) c ws (h, _) = do_heartbeat-Fine c.code c.other_calls ws (h refl)

module _ {A : Type 0} (P : A → Type 0) where
  All-remove_at : (n : ℕ) (xs : List A) → All P xs → All P (remove_at n xs)
  unfolding remove_at
  All-remove_at n [] h = tt
  All-remove_at zero (x ∷ xs) (_, h) = h
  All-remove_at (suc n) (x ∷ xs) (p, h) = (p, All-remove_at n xs h)

  All-get_elem : (n : ℕ) (xs : List A) (a : A) → All P xs → get_elem? xs n ≡ some a → P a
  All-get_elem n [] a h e = absurd cc
  All-get_elem zero (x ∷ xs) a (p, h) e = subst P (some-injective x a e) p
  All-get_elem (suc n) (x ∷ xs) a (_, h) e = All-get_elem n xs a h e

-- What a step comes to.
abbrev Stepped : Event → System → Type 0
Stepped e s =
    ((a : System × List Request) × (step e s ≡ ok a) × Sound a.0)
    ⊎ ((step e s ≡ fault null_pointer) × ((es : List Event) → Early (e ∷ es) s))

settled :
    (s : System) (pending : List Operation) (r : WebSocket × List Request)
    → All (Served s.ws.websocket) pending
    → (s.ws.websocket ≡ true → r.0.websocket ≡ true)
    → All (Served r.0.websocket) (started r.1)
    → Sound (settle pending r).0
settled s pending r p k v =
    All-append (Served r.0.websocket) pending (started r.1)
      (Served-on s.ws.websocket r.0.websocket pending k p) v

completed-Stepped :
    (n : ℕ) (c : Completion) (s : System) (o : Option Operation)
    → Sound s
    → get_elem? s.pending n ≡ o
    → (a : System × List Request) × (complete_at o n c s ≡ ok a) × Sound a.0
completed-Stepped n c s none h e = ((s, []), refl, h)
completed-Stepped n c s (some op) h e =
    let w = complete-Fine op c s.ws (All-get_elem (Served s.ws.websocket) n s.pending op h e) in
    (
      settle (remove_at n s.pending) w.after,
      rw w.result refl,
      settled s (remove_at n s.pending) w.after
          (All-remove_at (Served s.ws.websocket) n s.pending h) w.keeps w.served,
    )

called-Fine :
    (c : Call) (s : System)
    → Sound s
    → Fine s.ws.websocket (call c s.ws)
    → (a : System × List Request) × (step (called c) s ≡ ok a) × Sound a.0
unfolding step
called-Fine c s h w =
    (settle s.pending w.after, rw w.result refl, settled s s.pending w.after h w.keeps w.served)

step-Stepped : (e : Event) (s : System) → Sound s → Stepped e s
unfolding step write on_stream
step-Stepped (completed n c) s h = inl (completed-Stepped n c s (get_elem? s.pending n) h refl)
step-Stepped (called call_connect) s h = inl (called-Fine call_connect s h (connect-Fine s.ws))
step-Stepped (called (call_disconnect r)) s h =
    inl (called-Fine (call_disconnect r) s h (disconnect-Fine r s.ws))
step-Stepped (called (call_write data')) s h = elim (Bool-cases s.ws.websocket) [
  | inl e ↦ inl (called-Fine (call_write data') s h (call-Fine (call_write data') s.ws e))
  | inr e ↦ inr (rw e refl, λ es. now data' es s e)
]

-- What a run comes to.
abbrev pub Played : List Event → System → Type 0
Played es s =
    ((a : System × List Request) × (play es s ≡ ok a) × Sound a.0)
    ⊎ ((play es s ≡ fault null_pointer) × Early es s)

play-Played : (es : List Event) (s : System) → Sound s → Played es s
unfolding play
play-Played [] s h = inl ((s, []), refl, h)
play-Played (e ∷ es) s h = elim (step-Stepped e s h) [
  | inr (f, w) ↦ inr (rw f refl, w es)
  | inl (a, f, v) ↦ elim (play-Played es a.0 v) [
    | inl (b, g, w) ↦ inl ((b.0, a.1 ++ b.1), rw (f, g) refl, w)
    | inr (g, w) ↦ inr (rw (f, g) refl, later e es s a f w)
  ]
]

-- A run of the client from its start faults only where the program itself calls `Write` outside the
-- callbacks while there is no stream, which reads a null pointer; in every other run, whatever the
-- order of the completions, their error codes and the calls of the callbacks, there is a stream
-- whenever an operation on it is pending, and no wait for a reconnect is longer than 60 seconds.
pub play-Sound : (es : List Event) → Played es new_system
play-Sound es = play-Played es new_system tt
