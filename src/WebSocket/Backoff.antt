-- ===== src/WebSocket/Backoff.antt =====
-- moxt/httpx/websocket.cpp: attempts to connect that fail, and the waits between them.
use moxt_cpp.WebSocket.{
  ErrorCode, failed, success, Operation, async_resolve, async_connect, async_ssl_handshake,
  async_handshake, async_close, wait_reconnect, Request, start, connect, disconnect, on_stream,
  on_resolve, on_connect, on_ssl_handshake, on_handshake, on_close, on_reconnect, waiting_time,
}
use moxt_cpp.WebSocket.Events.{
  Completion, complete, System, started, remove_at, Event, completed, step, play,
}
use moxt_cpp.WebSocket.Fine.{started-append}
use moxt_cpp.Prelude.{
  ◌≡◌, refl, sym, ap, ◌∙◌, ℕ, zero, suc, ◌+◌, ◌*◌, ◌%◌, ◌^◌, ◌<◌, Bool, true, none, List, [], ◌∷◌,
  ◌++◌, append_assoc, length, All, leb, if◌then◌else◌, arith, Bytes,
}
use moxt_cpp.Prelude.Outcome.{Outcome, ok, fault, ◌>>=◌}

-- A completion with a code, of callbacks that make no calls.
abbrev pub with_code : ErrorCode → Completion
with_code ec = record {
  code = ec;
  host_name = none;
  reason = 0;
  received = [];
  connect_calls = [];
  other_calls = [];
}

-- The part of an attempt that fails.
pub data Stage : Type 0 where
  resolving connecting securing upgrading : Stage

pub record Failure : Type 0 where
  pub stage : Stage
  pub code : ErrorCode

-- The events of a failed attempt, from a name to resolve to the next.
abbrev pub parts_before : Stage → ℕ
parts_before resolving = 0
parts_before connecting = 1
parts_before securing = 2
parts_before upgrading = 3

abbrev pub successes : ℕ → List Event
successes zero = []
successes (suc n) = completed 0 (with_code success) ∷ successes n

abbrev pub attempt : Failure → List Event
attempt f =
    successes (parts_before f.stage)
    ++ completed 0 (with_code f.code)
      ∷ completed 0 (with_code success)
      ∷ completed 0 (with_code success)
      ∷ []

abbrev pub attempts : List Failure → List Event
attempts [] = []
attempts (f ∷ fs) = attempt f ++ attempts fs

-- The seconds of the waits for a reconnect.
abbrev pub waits_of : Operation → List ℕ
waits_of (wait_reconnect n) = n ∷ []
waits_of _ = []

abbrev pub waited : List Operation → List ℕ
waited [] = []
waited (op ∷ ops) = waits_of op ++ waited ops

waited-append : (a b : List Operation) → waited (a ++ b) ≡ waited a ++ waited b
waited-append [] b = refl
waited-append (op ∷ a) b =
    ap (λ l. waits_of op ++ l) (waited-append a b)
    ∙ sym (append_assoc (waits_of op) (waited a) (waited b))

-- Five seconds more with each attempt, up to a minute.
abbrev pub backoffs : ℕ → ℕ → List ℕ
backoffs count zero = []
backoffs count (suc n) = (if leb (5 * count) 60 then 5 * count else 60) ∷ backoffs (suc count) n

-- A client with a stream that resolves its name.
abbrev pub resolving_name : Bool → ℕ → Bytes → ℕ → System
resolving_name reconnect count buffer interval = record {
  ws = record {
    websocket = true;
    reconnect = reconnect;
    reconnect_count = count;
    buffer = buffer;
    heartbeat_interval = interval;
  };
  pending = async_resolve ∷ [];
}

-- Requests that come after others.
abbrev behind : List Request → Outcome (System × List Request) → Outcome (System × List Request)
behind rs r = r >>= λ b. ok (b.0, rs ++ b.1)

behind-behind :
    (rs ts : List Request) (r : Outcome (System × List Request))
    → behind rs (behind ts r) ≡ behind (rs ++ ts) r
behind-behind rs ts (ok b) = ap (λ l. ok (b.0, l)) (sym (append_assoc rs ts b.1))
behind-behind rs ts (fault e) = refl

abbrev and_play : List Event → Outcome (System × List Request) → Outcome (System × List Request)
and_play es r = r >>= λ x. behind x.1 (play es x.0)

behind-and_play :
    (rs : List Request) (es : List Event) (r : Outcome (System × List Request))
    → behind rs (and_play es r) ≡ and_play es (behind rs r)
behind-and_play rs es (ok x) = behind-behind rs x.1 (play es x.0)
behind-and_play rs es (fault e) = refl

abbrev from_step : List Event → Outcome (System × List Request) → Outcome (System × List Request)
from_step es r = r >>= λ a. behind a.1 (play es a.0)

behind_nothing : (r : Outcome (System × List Request)) → behind [] r ≡ r
behind_nothing (ok b) = refl
behind_nothing (fault e) = refl

from_step-append :
    (a b : List Event) (r : Outcome (System × List Request))
    → ((s : System) → play (a ++ b) s ≡ and_play b (play a s))
    → from_step (a ++ b) r ≡ and_play b (from_step a r)
from_step-append a b (ok x) h = ap (behind x.1) (h x.0) ∙ behind-and_play x.1 b (play a x.0)
from_step-append a b (fault f) h = refl

play-append : (a b : List Event) (s : System) → play (a ++ b) s ≡ and_play b (play a s)
unfolding play
play-append [] b s = sym (behind_nothing (play b s))
play-append (e ∷ a) b s = from_step-append a b (step e s) (play-append a b)

-- What an attempt asks for.
abbrev requests_connecting : List Request
requests_connecting = Request.new_stream ∷ Request.expires_after 30 ∷ start async_connect ∷ []

abbrev requests_before : Stage → List Request
requests_before resolving = []
requests_before connecting = requests_connecting
requests_before securing =
    requests_connecting ++ Request.expires_after 30 ∷ start async_ssl_handshake ∷ []
requests_before upgrading =
    requests_connecting
    ++ Request.expires_after 30
      ∷ start async_ssl_handshake
      ∷ Request.expires_never
      ∷ start async_handshake
      ∷ []

abbrev requests : Stage → ℕ → List Request
requests stage count =
    requests_before stage
    ++ start async_close
      ∷ Request.cancel_heartbeat
      ∷ start (wait_reconnect (waiting_time count))
      ∷ start async_resolve
      ∷ []

attempt-play :
    (stage : Stage) (code : ErrorCode) (reconnect : Bool) (count : ℕ) (buffer : Bytes)
    (interval : ℕ)
    → failed code ≡ true
    → play
        (attempt (record { stage = stage; code = code }))
        (resolving_name reconnect count buffer interval)
      ≡ ok (resolving_name true (suc count % 2 ^ 32) buffer interval, requests stage count)
unfolding play step complete remove_at started connect disconnect on_stream on_resolve on_connect
    on_ssl_handshake on_handshake on_close on_reconnect
attempt-play resolving code reconnect count buffer interval h = rw h refl
attempt-play connecting code reconnect count buffer interval h = rw h refl
attempt-play securing code reconnect count buffer interval h = rw h refl
attempt-play upgrading code reconnect count buffer interval h = rw h refl

waited-requests :
    (stage : Stage) (count : ℕ) → waited (started (requests stage count)) ≡ waiting_time count ∷ []
unfolding started
waited-requests resolving count = refl
waited-requests connecting count = refl
waited-requests securing count = refl
waited-requests upgrading count = refl

pub waiting_time-small :
    (count : ℕ)
    → count * 5 < 2 ^ 32
    → waiting_time count ≡ (if leb (5 * count) 60 then 5 * count else 60)
unfolding waiting_time
waiting_time-small count h = ground arith

-- What attempts come to: the last flag and count, and the waits.
pub record Tried (fs : List Failure) (reconnect : Bool) (count : ℕ) (buffer : Bytes) (interval : ℕ)
    : Type 0 where
  pub flag : Bool
  pub asked : List Request
  pub result :
      play (attempts fs) (resolving_name reconnect count buffer interval)
      ≡ ok (resolving_name flag (count + length fs) buffer interval, asked)
  pub waits : waited (started asked) ≡ backoffs count (length fs)

-- However many attempts to connect fail one after the other, each in any of its four parts and with
-- any error code, a client with a stream closes it after each, waits, and resolves the name again:
-- five seconds for each attempt since the last connection, but a minute at most. It counts the
-- attempts, as long as five times their number is below 2^32.
pub attempts-Tried :
    (fs : List Failure) (reconnect : Bool) (count : ℕ) (buffer : Bytes) (interval : ℕ)
    → All (λ f. failed f.code ≡ true) fs
    → (count + length fs) * 5 < 2 ^ 32
    → Tried fs reconnect count buffer interval
unfolding started play
attempts-Tried [] reconnect count buffer interval h l = record {
  flag = reconnect;
  asked = [];
  result = (let e : count + 0 ≡ count = omega arith in rw e refl);
  waits = refl;
}
attempts-Tried (f ∷ fs) reconnect count buffer interval (h, hs) l =
    let w = attempts-Tried fs true (suc count) buffer interval hs (omega arith) in
    let small : suc count % 2 ^ 32 ≡ suc count = omega arith in
    let sum : suc count + length fs ≡ count + suc (length fs) = omega arith in
    record {
      flag = w.flag;
      asked = requests f.stage count ++ w.asked;
      result =
          play-append (attempt f) (attempts fs) (resolving_name reconnect count buffer interval)
          ∙ rw (attempt-play f.stage f.code reconnect count buffer interval h, small, w.result, sum)
              refl;
      waits =
          ap waited (started-append (requests f.stage count) w.asked)
          ∙ waited-append (started (requests f.stage count)) (started w.asked)
          ∙ rw (waited-requests f.stage count, waiting_time-small count (omega arith), w.waits)
              refl;
    }
