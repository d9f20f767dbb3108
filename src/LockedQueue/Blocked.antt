-- ===== src/LockedQueue/Blocked.antt =====
-- moxt/utils/spscqueue_safe.hpp: a push to a queue that is full.
use mathlib.Core.Path.{subst}
use native.Mathlib.Decide.{ℕ_discrete}
use moxt_cpp.Queue.{Queue}
use moxt_cpp.LockedQueue.{
  Call, push_value, Pc, idle, reading, pointing, lost, exchanging, spinning, pushing, taking,
  unlocking, Turn, begin, go, begun, System, move, moves, moved, step, run,
}
use moxt_cpp.LockedQueue.Exclusive.{Exclusive, holds, is_some, others_free, step-Exclusive}
use moxt_cpp.Prelude.{
  ◌≡◌, refl, sym, ◌∙◌, ap, ℕ, Bool, true, false, some, List, [], ◌∷◌, ◌++◌, length,
}
use moxt_cpp.Prelude.Put.{assign, assign_here, assign_there}

module _ {A : Type 0} (q : Queue A) (t : ℕ) (x : A) where
  -- A thread that has the lock of a full queue and pushes to it.
  pub record Full (s : System q) : Type 0 where
    pub exclusive : Exclusive q s
    pub pushes : s.pc t ≡ pushing x
    pub full : length (q.items s.queue) ≡ q.capacity s.queue

  owner_t : (s : System q) (v : Full s) → v.exclusive.owner ≡ some t
  owner_t s v = v.exclusive.only t (rw v.pushes refl)

  flag_set : (s : System q) (v : Full s) → s.flag ≡ true
  flag_set s v = v.exclusive.flagged ∙ ap is_some (owner_t s v)

  -- What a step of another thread comes to.
  free_move :
      (p : Pc A) (r : q.Ring)
      → holds p ≡ false
      → (p' : Pc A) × (move q p true r ≡ moved q true r p' [])
  unfolding move
  free_move idle r h = (idle, refl)
  free_move (exchanging c) r h = (spinning c, refl)
  free_move (spinning c) r h = (spinning c, refl)
  free_move lost r h = (lost, refl)
  free_move reading r h = absurd cc
  free_move pointing r h = absurd cc
  free_move (pushing y) r h = absurd cc
  free_move (taking y) r h = absurd cc
  free_move (unlocking a) r h = absurd cc

  -- A step that changes nothing but where other threads wait.
  abbrev Waits : Turn A → System q → Type 0
  Waits u s =
      ((step q u s).1 ≡ []) × ((step q u s).0.queue ≡ s.queue) × ((step q u s).0.pc t ≡ pushing x)

  own_move :
      (s : System q)
      → Full s
      → move q (s.pc t) s.flag s.queue ≡ moved q s.flag s.queue (pushing x) []
  unfolding move
  own_move s v = rw (v.pushes, q.push_full s.queue x v.full) refl

  moves_on :
      (u : ℕ) (s : System q) (p : Pc A) (f : Bool)
      → move q (s.pc u) s.flag s.queue ≡ moved q f s.queue p []
      → assign u p s.pc t ≡ pushing x
      → Waits (go u) s
  unfolding step
  moves_on u s p f e h = rw e (refl, refl, h)

  begun_apart :
      (u : ℕ) (c : Call A) (s : System q) → Full s → assign u (begun c (s.pc u)) s.pc t ≡ pushing x
  begun_apart u c s v = elim (ℕ_discrete u t) [
    | yes e ↦
        assign_here u t (begun c (s.pc u)) s.pc e
        ∙ ap (λ u. begun c (s.pc u)) e
        ∙ ap (begun c) v.pushes
    | no n ↦ assign_there u t (begun c (s.pc u)) s.pc n ∙ v.pushes
  ]

  step-Waits : (u : Turn A) (s : System q) → Full s → Waits u s
  unfolding step
  step-Waits (begin u c) s v = (refl, refl, begun_apart u c s v)
  step-Waits (go u) s v = elim (ℕ_discrete u t) [
    | yes e ↦
        subst (λ u. Waits (go u) s) (sym e)
          (moves_on t s (pushing x) s.flag (own_move s v) (assign_here t t (pushing x) s.pc refl))
    | no n ↦
        let h = others_free q s v.exclusive t (owner_t s v) u (λ e. n (sym e)) in
        let m = free_move (s.pc u) s.queue h in
        moves_on u s m.0 true (ap (λ f. move q (s.pc u) f s.queue) (flag_set s v) ∙ m.1)
          (assign_there u t m.0 s.pc n ∙ v.pushes)
  ]

  Full-step : (u : Turn A) (s : System q) → Full s → Full (step q u s).0
  Full-step u s v =
      let w = step-Waits u s v in
      record {
        exclusive = step-Exclusive q u s v.exclusive;
        pushes = w.2;
        full = subst (λ r. length (q.items r) ≡ q.capacity r) (sym w.1) v.full;
      }

  Full-run :
      (ts : List (Turn A)) (s : System q)
      → Full s
      → ((run q ts s).1 ≡ []) × ((run q ts s).0.queue ≡ s.queue)
  unfolding run
  Full-run [] s v = (refl, refl)
  Full-run (u ∷ ts) s v =
      let w = step-Waits u s v in
      let r = Full-run ts (step q u s).0 (Full-step u s v) in (rw (w.0, r.0) refl, r.1 ∙ w.1)

  -- A push to a full queue blocks it for good: the thread keeps the lock while it waits for room,
  -- so that no other thread can make any, and whatever turns follow, no value is pushed or popped
  -- and no pop is answered.
  pub push_blocks :
      (s : System q) (ts : List (Turn A))
      → Exclusive q s
      → s.flag ≡ false
      → s.pc t ≡ idle
      → length (q.items s.queue) ≡ q.capacity s.queue
      → let r = run q (begin t (push_value x) ∷ go t ∷ ts) s in (r.1 ≡ []) × (r.0.queue ≡ s.queue)
  unfolding run step move
  push_blocks s ts v e i f =
      let first = (step q (begin t (push_value x)) s).0 in
      let at : first.pc t ≡ exchanging (push_value x) =
        assign_here t t (begun (push_value x) (s.pc t)) s.pc refl ∙ ap (begun (push_value x)) i in
      let got : move q (first.pc t) s.flag s.queue ≡ moved q true s.queue (pushing x) [] =
        rw (at, e) refl in
      subst
        (λ m.
          Exclusive q (moves q t m first.pc).0
          → (m.events ++ (run q ts (moves q t m first.pc).0).1 ≡ [])
            × ((run q ts (moves q t m first.pc).0).0.queue ≡ s.queue))
        (sym got)
        (λ w.
          Full-run ts (moves q t (moved q true s.queue (pushing x) []) first.pc).0 (record {
            exclusive = w;
            pushes = assign_here t t (pushing x) first.pc refl;
            full = f;
          }))
        (step-Exclusive q (go t) first (step-Exclusive q (begin t (push_value x)) s v))
