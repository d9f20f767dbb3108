-- ===== src/DataQueue/Use.antt =====
-- moxt/libthread.cpp: a program at both ends of a queue. It passes data in and out by copy, takes
-- buffers out, and passes buffers in that it took out before.
use moxt_cpp.Queue.{Queue}
use moxt_cpp.DataQueue.{
  Iovec, DataQueue, seq_lockfree_queue_push, seq_lockfree_queue_pop, seq_lockfree_queue_push_data,
  seq_lockfree_queue_pop_data, Popped,
}
use moxt_cpp.WebSocket.Events.{remove_at}
use moxt_cpp.Prelude.{ℕ, Bool, true, false, Option, none, some, List, [], ◌∷◌, Bytes, get_elem?}
use moxt_cpp.Prelude.Outcome.{Outcome, ok, ◌>>=◌}

-- Data to push with its length, data to pop with the room for it, a buffer of the program to push by
-- its place, and a buffer to pop.
pub data Event : Type 0 where
  pushing_data : Bytes → ℕ → Event
  popping_data : ℕ → Event
  pushing : ℕ → Event
  popping : Event

pub data Answer : Type 0 where
  did_push : Bool → Answer
  did_pop : Popped → Answer
  took : Bool → Answer
  no_call : Answer

module _ (q : Queue Iovec) where
  -- The queue and the buffers that the program took out.
  pub record Program : Type 0 where
    pub queue : DataQueue q
    pub held : List Iovec

  abbrev pub given : ℕ → Bool × DataQueue q → Program → Answer × Program
  given n (true, t) s = (did_push true, record { queue = t; held = remove_at n s.held })
  given n (false, t) s = (did_push false, record { queue = t; held = s.held })

  abbrev pub push_held : Option Iovec → ℕ → Program → Answer × Program
  push_held none n s = (no_call, s)
  push_held (some iov) n s = given n (seq_lockfree_queue_push q iov s.queue) s

  abbrev pub received : Option Iovec × DataQueue q → Program → Answer × Program
  received (none, t) s = (took false, record { queue = t; held = s.held })
  received (some iov, t) s = (took true, record { queue = t; held = iov ∷ s.held })

  abbrev pub after_push : List Iovec → Bool × DataQueue q → Answer × Program
  after_push held (b, t) = (did_push b, record { queue = t; held = held })

  abbrev pub after_pop : List Iovec → Popped × DataQueue q → Answer × Program
  after_pop held (p, t) = (did_pop p, record { queue = t; held = held })

  unfoldable pub step : Event → Program → Outcome (Answer × Program)
  step (pushing_data from len) s = do
    r ← seq_lockfree_queue_push_data q from len s.queue
    ok (after_push s.held r)
  step (popping_data room) s = do
    r ← seq_lockfree_queue_pop_data q room s.queue
    ok (after_pop s.held r)
  step (pushing n) s = ok (push_held (get_elem? s.held n) n s)
  step popping s = ok (received (seq_lockfree_queue_pop q s.queue) s)

  -- The first event first: the answers, and the program after them.
  unfoldable pub run : List Event → Program → Outcome (List Answer × Program)
  run [] s = ok ([], s)
  run (e ∷ es) s = do r ← step e s; rest ← run es r.1; ok (r.0 ∷ rest.0, rest.1)
