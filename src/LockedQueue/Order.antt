-- ===== src/LockedQueue/Order.antt =====
-- moxt/utils/spscqueue_safe.hpp: the values that threads push and pop, as one bounded queue.
use mathlib.Core.Path.{subst}
use native.Mathlib.Decide.{dec_lt}
use moxt_cpp.Queue.{Queue, head, tail, head-none, head-some}
use moxt_cpp.LockedQueue.{
  Call, Pc, idle, reading, pointing, lost, exchanging, spinning, pushing, taking, unlocking, Event,
  put, took, missed, Turn, begin, go, System, new_queue, move, moved, exchanged, loaded, pushed,
  fronted, read_through, step, run, Moved, entered,
}
use moxt_cpp.LockedQueue.Exclusive.{Exclusive, Relies, new_queue-Exclusive, step-Exclusive}
use moxt_cpp.Prelude.{
  ◌≡◌, refl, sym, ℕ, ◌<◌, Bool, true, false, Option, none, some, List, [], ◌∷◌, ◌++◌, length, arith,
}

module _ {A : Type 0} where
  -- What a queue of one thread allows: a push while there is room, a pop of the value in front, and
  -- an answer that it is empty while it is.
  pub data Fifo (cap : ℕ) : List A → List (Event A) → List A → Type 0 where
    nothing : (xs : List A) → Fifo cap xs [] xs
    puts :
        (x : A) (xs ys : List A) (es : List (Event A))
        → length xs < cap
        → Fifo cap (xs ++ x ∷ []) es ys
        → Fifo cap xs (put x ∷ es) ys
    takes :
        (x : A) (xs ys : List A) (es : List (Event A))
        → Fifo cap xs es ys
        → Fifo cap (x ∷ xs) (took x ∷ es) ys
    misses : (ys : List A) (es : List (Event A)) → Fifo cap [] es ys → Fifo cap [] (missed ∷ es) ys

module _ {A : Type 0} (q : Queue A) where
  -- A step that a queue of one thread allows.
  record Allowed (queue : q.Ring) (m : Moved q) : Type 0 where
    bounded_by : q.capacity m.queue ≡ q.capacity queue
    allows :
        (es : List (Event A)) (ys : List A)
        → Fifo (q.capacity queue) (q.items m.queue) es ys
        → Fifo (q.capacity queue) (q.items queue) (m.events ++ es) ys

  -- A step that leaves the queue as it is.
  quiet : (queue : q.Ring) (f : Bool) (p : Pc A) → Allowed queue (moved q f queue p [])
  quiet queue f p = record { bounded_by = refl; allows = λ es ys h. h }

  pushed-Allowed :
      (queue : q.Ring) (f : Bool) (x : A) → Allowed queue (pushed q (q.push queue x) f queue x)
  pushed-Allowed queue f x = elim (dec_lt (length (q.items queue)) (q.capacity queue)) [
    | yes l ↦
        let (r, e, h, c) = q.push_room queue x l in
        subst (λ o. Allowed queue (pushed q o f queue x)) (sym e)
          (record {
            bounded_by = c;
            allows = λ es ys g.
                puts x (q.items queue) ys es l (subst (λ xs. Fifo (q.capacity queue) xs es ys) h g);
          })
    | no n ↦
        let w = q.within queue in
        subst (λ o. Allowed queue (pushed q o f queue x)) (sym (q.push_full queue x (omega arith)))
          (quiet queue f (pushing x))
  ]

  fronted-Allowed :
      (queue : q.Ring) (f : Bool) (o : Option A)
      → head (q.items queue) ≡ o
      → Allowed queue (fronted q o f queue)
  fronted-Allowed queue f none e = record {
    bounded_by = refl;
    allows = λ es ys g.
        subst (λ xs. Fifo (q.capacity queue) xs (missed ∷ es) ys)
          (sym (head-none (q.items queue) e))
          (misses ys es
            (subst (λ xs. Fifo (q.capacity queue) xs es ys) (head-none (q.items queue) e) g));
  }
  fronted-Allowed queue f (some x) e = quiet queue f pointing

  taking-Allowed :
      (queue : q.Ring) (f : Bool) (x : A)
      → head (q.items queue) ≡ some x
      → Allowed queue (moved q f (q.pop queue) (unlocking (some x)) (took x ∷ []))
  taking-Allowed queue f x e = record {
    bounded_by = q.capacity-pop queue;
    allows = λ es ys g.
        subst (λ xs. Fifo (q.capacity queue) xs (took x ∷ es) ys)
          (sym (head-some (q.items queue) x e))
          (takes x (tail (q.items queue)) ys es
            (subst (λ xs. Fifo (q.capacity queue) xs es ys) (q.items-pop queue) g));
  }

  exchanged-Allowed :
      (queue : q.Ring) (f : Bool) (c : Call A) → Allowed queue (exchanged q f c queue)
  exchanged-Allowed queue true c = quiet queue true (spinning c)
  exchanged-Allowed queue false c = quiet queue true (entered q c)

  loaded-Allowed : (queue : q.Ring) (f : Bool) (c : Call A) → Allowed queue (loaded q f c queue)
  loaded-Allowed queue true c = quiet queue true (spinning c)
  loaded-Allowed queue false c = quiet queue false (exchanging c)

  through-Allowed :
      (queue : q.Ring) (f : Bool) (o : Option A) → Allowed queue (read_through q o f queue)
  through-Allowed queue f none = quiet queue f lost
  through-Allowed queue f (some x) = quiet queue f (taking x)

  move-Allowed :
      (p : Pc A) (f : Bool) (queue : q.Ring)
      → Relies p (q.items queue)
      → Allowed queue (move q p f queue)
  unfolding move
  move-Allowed idle f queue r = quiet queue f idle
  move-Allowed (exchanging c) f queue r = exchanged-Allowed queue f c
  move-Allowed (spinning c) f queue r = loaded-Allowed queue f c
  move-Allowed (pushing x) f queue r = pushed-Allowed queue f x
  move-Allowed reading f queue r =
      fronted-Allowed queue f (q.front queue) (sym (q.front-items queue))
  move-Allowed pointing f queue r = through-Allowed queue f (q.front queue)
  move-Allowed (taking x) f queue r = taking-Allowed queue f x r
  move-Allowed (unlocking a) f queue r = quiet queue false idle
  move-Allowed lost f queue r = absurd r

  run-Fifo :
      (ts : List (Turn A)) (s : System q)
      → Exclusive q s
      → let r = run q ts s in Fifo (q.capacity s.queue) (q.items s.queue) r.1 (q.items r.0.queue)
  unfolding run step
  run-Fifo [] s v = nothing (q.items s.queue)
  run-Fifo (begin t c ∷ ts) s v =
      run-Fifo ts (step q (begin t c) s).0 (step-Exclusive q (begin t c) s v)
  run-Fifo (go t ∷ ts) s v =
      let m = move q (s.pc t) s.flag s.queue in
      let s' = (step q (go t) s).0 in
      let a = move-Allowed (s.pc t) s.flag s.queue (v.relies t) in
      a.allows (run q ts s').1 (q.items (run q ts s').0.queue) (
        subst (λ n. Fifo n (q.items m.queue) (run q ts s').1 (q.items (run q ts s').0.queue))
          a.bounded_by (run-Fifo ts s' (step-Exclusive q (go t) s v)))

  -- However threads push and pop at the same time, the queue does what a bounded queue of one
  -- thread allows, event by event: a value is pushed while there is room, the value popped is the
  -- one in front, and `pop` answers that there is none only while the queue is empty.
  pub new_queue-Fifo :
      (ts : List (Turn A)) (capacity : ℕ)
      → let r = run q ts (new_queue q capacity) in Fifo capacity [] r.1 (q.items r.0.queue)
  new_queue-Fifo ts capacity =
      let r = run q ts (new_queue q capacity) in
      subst (λ xs. Fifo capacity xs r.1 (q.items r.0.queue)) (q.items-make capacity)
        (subst (λ n. Fifo n (q.items (q.make capacity)) r.1 (q.items r.0.queue))
          (q.capacity-make capacity)
          (run-Fifo ts (new_queue q capacity) (new_queue-Exclusive q capacity)))
