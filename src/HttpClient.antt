-- ===== src/HttpClient.antt =====
-- moxt/httpx/httpclient.hpp: `HttpClient`, one TLS connection for requests one after the other. The
-- network library is not modelled: what it answers to each call is an argument, and a method gives
-- the calls it makes of it, in order. A response is opaque.
pub mod Requests
mod Tests
use moxt_cpp.Prelude.{Bool, true, false, Option, none, some, List, [], ◌∷◌, ◌++◌, if◌then◌else◌}

-- A call of the library; a handshake with whether it succeeds.
pub data LibraryCall : Type 0 where
  set_host_name resolve connect_socket write_request read_response : LibraryCall
  handshake : Bool → LibraryCall

-- What the library answers: whether a call succeeds, and what was read. A handler of async_connect
-- may run after the wait for it has ended, so that the handlers, each with whether its socket is
-- connected, are two lists: `handlers` run during the wait of a `connect`, and `late` run behind the
-- last change of `connected` in a method and before the next method begins.
pub record Replies (Response : Type 0) : Type 0 where
  pub host_name : Bool
  pub resolved : Bool
  pub handlers : List Bool
  pub late : List Bool
  pub shaken : Bool
  pub written : Bool
  pub received : Bool
  pub response : Response

-- What a method comes to: a value or an exception.
pub data Answer (A : Type 0) : Type 0 where
  returned : A → Answer A
  thrown : Answer A

-- The flag `connected` after a method, its answer, and the calls it made.
pub record Done (A : Type 0) : Type 0 where
  pub connected : Bool
  pub answer : Answer A
  pub made : List LibraryCall

abbrev pub done : {A : Type 0} → Bool → Answer A → List LibraryCall → Done A
done connected answer made = record { connected = connected; answer = answer; made = made }

-- More calls, made before.
abbrev pub also : {A : Type 0} → List LibraryCall → Done A → Done A
also calls d = done d.connected d.answer (calls ++ d.made)

-- The flag as handlers of async_connect leave it, each of which sets it.
abbrev pub handled : List Bool → Bool → Bool
handled [] connected = connected
handled (success ∷ handlers) connected = handled handlers success

-- What a method comes to with the handlers that run late.
abbrev pub handled_late : {A : Type 0} → List Bool → Done A → Done A
handled_late late d = done (handled late d.connected) d.answer d.made

module _ {Response : Type 0} where
  -- connect_v0: the calls are synchronous, and `resolve` throws.
  unfoldable pub shake_v0 : Replies Response → Done Bool
  shake_v0 r =
      if r.shaken
      then done true (returned true) (handshake true ∷ [])
      else done false (returned false) (handshake false ∷ [])

  unfoldable pub connect_v0 : Bool → Replies Response → Done Bool
  connect_v0 socket r =
      if r.resolved
      then also (resolve ∷ set_host_name ∷ []) (
          if r.host_name
          then also (connect_socket ∷ [])
              (if socket then shake_v0 r else done false (returned false) [])
          else done false (returned false) [])
      else done false thrown (resolve ∷ [])

  -- The end of `connect`, with the flag set: it stays so when the handshake fails. A handler that
  -- runs during the handshake counts as late where it fails, and has no effect where it succeeds.
  unfoldable pub shake : Replies Response → Done Bool
  shake r = done true (returned r.shaken) (handshake r.shaken ∷ [])

  -- The end of `connect`, with the flag that it finds behind the wait.
  abbrev pub after_wait : Bool → Replies Response → Done Bool
  after_wait connected r =
      also (set_host_name ∷ resolve ∷ connect_socket ∷ [])
        (if connected then shake r else done false (returned false) [])

  unfoldable pub connect : Replies Response → Done Bool
  connect r =
      if r.host_name
      then (if r.resolved
          then after_wait (handled r.handlers false) r
          else done false thrown (set_host_name ∷ resolve ∷ []))
      else done false (returned false) (set_host_name ∷ [])

  -- The request is written and the response read; `failure` is `result(not_found)`.
  unfoldable pub exchange : (Response → Response) → Response → Replies Response → Done Response
  exchange failure empty r =
      if r.written
      then also (write_request ∷ []) (
          if r.received
          then done true (returned r.response) (read_response ∷ [])
          else done false (returned (failure r.response)) (read_response ∷ []))
      else done false (returned (failure empty)) (write_request ∷ [])

  abbrev pub after_connect :
      (Response → Response) → Response → Replies Response → Done Bool → Done Response
  after_connect failure empty r d = elim d.answer [
    | returned true ↦ also d.made (exchange failure empty r)
    | returned false ↦ done d.connected thrown d.made
    | thrown ↦ done d.connected thrown d.made
  ]

  unfoldable pub perform_request :
      (Response → Response) → Response → Bool → Replies Response → Done Response
  perform_request failure empty connected r =
      handled_late r.late
        (if connected then exchange failure empty r else after_connect failure empty r (connect r))

  -- performRequestAsync: `read` is `none` if the wait ends before the handler of async_read has
  -- run; the response is then the one made at the start.
  abbrev pub read_in_time : Response → Option Bool → Replies Response → Answer Response
  read_in_time empty none r = returned empty
  read_in_time empty (some true) r = returned r.response
  read_in_time empty (some false) r = thrown

  unfoldable pub perform_request_async :
      Response → Option Bool → Bool → Replies Response → Done Response
  perform_request_async empty read connected r = handled_late r.late (
      if r.written
      then done connected (read_in_time empty read r) (write_request ∷ read_response ∷ [])
      else done false thrown (write_request ∷ []))

  -- Requests one after the other: all the calls they make.
  unfoldable pub requests :
      (Response → Response) → Response → Bool → List (Replies Response) → List LibraryCall
  requests failure empty connected [] = []
  requests failure empty connected (r ∷ rs) =
      let d = perform_request failure empty connected r in
      d.made ++ requests failure empty d.connected rs
