-- ===== src/DataQueue/Tests.antt =====
-- moxt/libthread.cpp: a queue of data in use.
use native.Mathlib.Decide.{dec_lt, ℕ_discrete}
use moxt_cpp.Queue.{Queue, bounded}
use moxt_cpp.DataQueue.{
  Iovec, seq_lockfree_queue_free, seq_lockfree_queue_push, seq_lockfree_queue_pop,
  seq_lockfree_queue_push_data, seq_lockfree_queue_pop_data, seq_lockfree_queue_new, Popped,
}
use moxt_cpp.DataQueue.Use.{
  Event, pushing_data, popping_data, pushing, popping, Answer, did_push, did_pop, took, no_call,
  Program, run, step,
}
use moxt_cpp.DataQueue.Spec.{no_blocks, promises, promised}
use moxt_cpp.DataQueue.Refine.{new_program, Ends, new_program-Ends}
use moxt_cpp.WebSocket.Events.{remove_at}
use moxt_cpp.Prelude.{◌≡◌, refl, true, false, Option, some, List, [], ◌∷◌, Bytes}
use moxt_cpp.Prelude.Outcome.{Outcome, ok, fault, bad_index, ◌>>=◌}

abbrev ring : Queue Iovec
ring = bounded Iovec

-- Two blocks, the second of which goes round again as it is.
abbrev events : List Event
events =
    pushing_data (1 ∷ 2 ∷ 3 ∷ []) 2
    ∷ pushing_data (7 ∷ []) 1
    ∷ popping_data 2
    ∷ popping
    ∷ popping_data 8
    ∷ pushing 0
    ∷ pushing 0
    ∷ popping_data 8
    ∷ []

abbrev nothing : Popped
nothing = record { result = false; len = 0; output = [] }

abbrev answers : List Answer
answers =
    did_push true
    ∷ did_push true
    ∷ did_pop (record { result = true; len = 2; output = 1 ∷ 2 ∷ [] })
    ∷ took true
    ∷ did_pop nothing
    ∷ did_push true
    ∷ no_call
    ∷ did_pop (record { result = true; len = 1; output = 7 ∷ [] })
    ∷ []

abbrev outcome : {A : Type 0} → Outcome (List Answer × A) → Outcome (List Answer)
outcome m = do r ← m; ok r.0

answered : outcome (promises events no_blocks) ≡ ok answers
unfolding promises promised remove_at
answered = refl

short_room :
    outcome (run ring (pushing_data (1 ∷ 2 ∷ []) 2 ∷ popping_data 1 ∷ []) (new_program ring))
    ≡ fault bad_index
unfolding run step seq_lockfree_queue_push_data seq_lockfree_queue_push dec_lt
    seq_lockfree_queue_new seq_lockfree_queue_pop_data seq_lockfree_queue_pop ℕ_discrete
short_room = refl

-- A block that the ring still holds stays behind when the ring is deleted.
abbrev left : Outcome (List Answer × Program ring) → Outcome (Option Bytes)
left m = do r ← m; ok (seq_lockfree_queue_free ring r.1.queue 0)

left_behind : left (run ring (pushing_data (5 ∷ []) 1 ∷ []) (new_program ring)) ≡ ok (some (5 ∷ []))
unfolding run step seq_lockfree_queue_push_data seq_lockfree_queue_push dec_lt
    seq_lockfree_queue_new seq_lockfree_queue_free ℕ_discrete
left_behind = refl

new_program-Ends_example :
    Ends ring (run ring events (new_program ring)) (promises events no_blocks)
new_program-Ends_example = new_program-Ends ring events
