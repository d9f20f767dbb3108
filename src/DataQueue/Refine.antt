-- ===== src/DataQueue/Refine.antt =====
-- moxt/libthread.cpp: any calls on a queue of data answer as its promise does.
use mathlib.Core.Path.{subst}
use moxt_cpp.Queue.{Queue}
use moxt_cpp.DataQueue.{
  Iovec, ring_capacity, seq_lockfree_queue_new, seq_lockfree_queue_push,
  seq_lockfree_queue_push_data, seq_lockfree_queue_pop_data, seq_lockfree_queue_pop,
}
use moxt_cpp.DataQueue.Use.{
  Event, pushing_data, popping_data, pushing, popping, Answer, Program, step, run,
}
use moxt_cpp.DataQueue.Spec.{Blocks, no_blocks, promised, promises}
use moxt_cpp.DataQueue.Stored.{Stored-place}
use moxt_cpp.DataQueue.Owned.{
  Matches, push-cases, room-length, queued_new, dropped_new, Front, front-cases, taken_out,
  given_in, copied_out,
}
use moxt_cpp.Prelude.{
  ◌≡◌, refl, sym, ◌∙◌, ℕ, true, some, List, [], ◌∷◌, Bytes, length, take, inl, inr, arith, leb,
  take_all, length-take, Bool-cases,
}
use moxt_cpp.Prelude.Outcome.{Outcome, ok, fault, ◌>>=◌}
use moxt_cpp.Prelude.Put.{put_here}

leb_same : (n : ℕ) → leb n n ≡ true
leb_same n = ground arith

module _ (q : Queue Iovec) where
  -- The program gets the answer of the promise, and goes on as it says.
  abbrev pub Agrees : Outcome (Answer × Program q) → Outcome (Answer × Blocks) → Type 0
  Agrees (ok (a, s)) (ok (b, t)) = (a ≡ b) × Matches q s.queue s.held t
  Agrees (ok r) (fault e) = ⊥
  Agrees (fault e) (ok r) = ⊥
  Agrees (fault e) (fault d) = e ≡ d

  module _ (s : Program q) (t : Blocks) (v : Matches q s.queue s.held t) where
    push_data_copied :
        (from : Bytes) (len : ℕ)
        → leb len (length from) ≡ true
        → Agrees (step q (pushing_data from len) s) (promised (pushing_data from len) t)
    unfolding step promised seq_lockfree_queue_push_data seq_lockfree_queue_push
    push_data_copied from len e =
        let n = s.queue.next_buffer in
        let here = put_here n n (some (take len from)) s.queue.buffers refl in
        elim (push-cases q s.queue.ring (record { iov_base = n; iov_len = len }) v.bounded_by) [
          | inl (r, p, i, c, l) ↦
              rw (e, p, room-length q s.queue s.held t v ∙ l)
                (
                  refl,
                  queued_new q s.queue s.held t v r (take len from) len
                      (length-take len from (ground arith)) i c,
                )
          | inr (p, l) ↦
              rw (e, p, room-length q s.queue s.held t v ∙ l, here)
                (refl, dropped_new q s.queue s.held t v (take len from))
        ]

    push_data-Agrees :
        (from : Bytes) (len : ℕ)
        → Agrees (step q (pushing_data from len) s) (promised (pushing_data from len) t)
    unfolding step promised seq_lockfree_queue_push_data
    push_data-Agrees from len = elim (Bool-cases (leb len (length from))) [
      | inl e ↦ push_data_copied from len e
      | inr e ↦ rw e refl
    ]

    none_queued : t.queued ≡ [] → Matches q s.queue s.held (record { queued = []; taken = t.taken })
    none_queued b =
        subst (λ xs. Matches q s.queue s.held (record { queued = xs; taken = t.taken })) b v

    pop_data_front :
        (room : ℕ) (w : Front q s.queue t)
        → Agrees (step q (popping_data room) s) (promised (popping_data room) t)
    unfolding step promised seq_lockfree_queue_pop_data seq_lockfree_queue_pop
    pop_data_front room w =
        let f : leb (length w.block) (length w.block) ≡ true = leb_same (length w.block) in
        rw
          (
            w.front_is,
            w.points,
            w.queued_are,
            sym w.measures,
            f,
            take_all (length w.block) w.block (omega arith),
          )
          (elim (Bool-cases (leb (length w.block) room)) [
            | inl e ↦ rw e (refl, copied_out q s.queue s.held t v w)
            | inr e ↦ rw e refl
          ])

    pop_data-Agrees :
        (room : ℕ) → Agrees (step q (popping_data room) s) (promised (popping_data room) t)
    unfolding step promised seq_lockfree_queue_pop_data seq_lockfree_queue_pop
    pop_data-Agrees room = elim (front-cases q s.queue s.held t v) [
      | inl (f, i, b) ↦ rw (f, b) (refl, none_queued b)
      | inr w ↦ pop_data_front room w
    ]

    push-Agrees : (n : ℕ) → Agrees (step q (pushing n) s) (promised (pushing n) t)
    unfolding step promised seq_lockfree_queue_push
    push-Agrees n = elim (Stored-place s.queue.buffers n s.held t.taken v.taken) [
      | inl (e, f) ↦ rw (e, f) (refl, v)
      | inr w ↦ elim (push-cases q s.queue.ring w.entry v.bounded_by) [
        | inl (r, p, i, c, l) ↦
            rw (w.at_entry, w.at_block, p, room-length q s.queue s.held t v ∙ l)
              (refl, given_in q s.queue s.held t v n w r i c)
        | inr (p, l) ↦
            rw (w.at_entry, w.at_block, p, room-length q s.queue s.held t v ∙ l) (refl, v)
      ]
    ]

    pop-Agrees : Agrees (step q popping s) (promised popping t)
    unfolding step promised seq_lockfree_queue_pop
    pop-Agrees = elim (front-cases q s.queue s.held t v) [
      | inl (f, i, b) ↦ rw (f, b) (refl, none_queued b)
      | inr w ↦ rw (w.front_is, w.queued_are) (refl, taken_out q s.queue s.held t v w)
    ]

  step-Agrees :
      (s : Program q) (t : Blocks) (v : Matches q s.queue s.held t) (e : Event)
      → Agrees (step q e s) (promised e t)
  step-Agrees s t v (pushing_data from len) = push_data-Agrees s t v from len
  step-Agrees s t v (popping_data room) = pop_data-Agrees s t v room
  step-Agrees s t v (pushing n) = push-Agrees s t v n
  step-Agrees s t v popping = pop-Agrees s t v

  -- The answers are those of the promise, and the blocks afterwards; or both end in the same fault.
  abbrev pub Ends : Outcome (List Answer × Program q) → Outcome (List Answer × Blocks) → Type 0
  Ends (ok (a, s)) (ok (b, t)) = (a ≡ b) × Matches q s.queue s.held t
  Ends (ok r) (fault e) = ⊥
  Ends (fault e) (ok r) = ⊥
  Ends (fault e) (fault d) = e ≡ d

  first-Ends :
      (a b : Answer) (m : Outcome (List Answer × Program q)) (p : Outcome (List Answer × Blocks))
      → a ≡ b
      → Ends m p
      → Ends (do rest ← m; ok (a ∷ rest.0, rest.1)) (do rest ← p; ok (b ∷ rest.0, rest.1))
  first-Ends a b (ok x) (ok y) e (f, v) = (cc, v)
  first-Ends a b (ok x) (fault y) e h = h
  first-Ends a b (fault x) (ok y) e h = h
  first-Ends a b (fault x) (fault y) e h = h

  after-Ends :
      (es : List Event)
      → ((s : Program q) (t : Blocks)
          → Matches q s.queue s.held t
          → Ends (run q es s) (promises es t))
      → (m : Outcome (Answer × Program q)) (p : Outcome (Answer × Blocks)) → Agrees m p
      → Ends
          (do r ← m; rest ← run q es r.1; ok (r.0 ∷ rest.0, rest.1))
          (do r ← p; rest ← promises es r.1; ok (r.0 ∷ rest.0, rest.1))
  after-Ends es go (ok (a, s)) (ok (b, t)) (e, v) =
      first-Ends a b (run q es s) (promises es t) e (go s t v)
  after-Ends es go (ok x) (fault y) h = absurd h
  after-Ends es go (fault x) (ok y) h = absurd h
  after-Ends es go (fault x) (fault y) h = h

  run-Ends :
      (es : List Event) (s : Program q) (t : Blocks)
      → Matches q s.queue s.held t
      → Ends (run q es s) (promises es t)
  unfolding run promises
  run-Ends [] s t v = (refl, v)
  run-Ends (e ∷ es) s t v =
      after-Ends es (run-Ends es) (step q e s) (promised e t) (step-Agrees s t v e)

  abbrev pub new_program : Program q
  new_program = record { queue = seq_lockfree_queue_new q; held = [] }

  new_program-Matches : Matches q (seq_lockfree_queue_new q) [] no_blocks
  unfolding seq_lockfree_queue_new
  new_program-Matches = record {
    queued = rw (q.items-make ring_capacity) tt;
    taken = tt;
    once = λ c. rw (q.items-make ring_capacity) refl;
    fresh = λ c l. refl;
    bounded_by = q.capacity-make ring_capacity;
  }

  -- For any calls of a program that pushes raw only buffers that it popped raw, with copies of any
  -- length: the calls answer as a bounded first-in first-out queue of blocks, each block as it went
  -- in, and a fault is there exactly where the queue of blocks has it, a copy that is longer than
  -- the data or the room for it. Every live buffer stands once, in the ring or with the program.
  pub new_program-Ends : (es : List Event) → Ends (run q es new_program) (promises es no_blocks)
  new_program-Ends es = run-Ends es new_program no_blocks new_program-Matches
