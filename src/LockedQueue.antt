-- ===== src/LockedQueue.antt =====
-- moxt/utils/spinlock.hpp and moxt/utils/spscqueue_safe.hpp: `CSpinLock` and `SPSCQueueSafe`, a
-- queue that any number of threads push to and pop from, one at a time. A thread's step is one
-- access to what the threads share, the flag of the lock and the queue; steps of threads come in
-- any order, and each sees the accesses before it.
pub mod Exclusive
pub mod Order
pub mod Blocked
mod Tests
use moxt_cpp.Queue.{Queue}
use moxt_cpp.Prelude.{ℕ, Bool, true, false, Option, none, some, List, [], ◌∷◌, ◌++◌, if◌then◌else◌}
use moxt_cpp.Prelude.Put.{assign}

pub data Call (A : Type 0) : Type 0 where
  push_value : A → Call A
  pop_value : Call A

-- Where a thread stands: outside; at the two reads of the flag in `lock`; in rigtorp's `push`; before
-- `front`, before `v = *ptr` and before rigtorp's `pop`; before `unlock`, with the result. `lost` is
-- behind a read through a pointer to an element that is gone.
pub data Pc (A : Type 0) : Type 0 where
  idle reading pointing lost : Pc A
  exchanging spinning : Call A → Pc A
  pushing taking : A → Pc A
  unlocking : Option A → Pc A

-- What a step does to the queue: `missed` is a `front` of an empty queue.
pub data Event (A : Type 0) : Type 0 where
  put took : A → Event A
  missed : Event A

-- A thread begins a call, or goes on with it.
pub data Turn (A : Type 0) : Type 0 where
  begin : ℕ → Call A → Turn A
  go : ℕ → Turn A

abbrev pub begun : {A : Type 0} → Call A → Pc A → Pc A
begun c idle = exchanging c
begun c p = p

module _ {A : Type 0} (q : Queue A) where
  pub record System : Type 0 where
    pub flag : Bool
    pub queue : q.Ring
    pub pc : ℕ → Pc A

  abbrev pub new_queue : ℕ → System
  new_queue capacity = record { flag = false; queue = q.make capacity; pc = λ t. idle }

  -- The flag, the queue and the thread after a step.
  pub record Moved : Type 0 where
    pub flag : Bool
    pub queue : q.Ring
    pub pc : Pc A
    pub events : List (Event A)

  abbrev pub moved : Bool → q.Ring → Pc A → List (Event A) → Moved
  moved flag queue pc events = record { flag = flag; queue = queue; pc = pc; events = events }

  abbrev pub entered : Call A → Pc A
  entered (push_value v) = pushing v
  entered pop_value = reading

  -- `lock_flag.exchange(true)`
  abbrev pub exchanged : Bool → Call A → q.Ring → Moved
  exchanged true c r = moved true r (spinning c) []
  exchanged false c r = moved true r (entered c) []

  -- `while (lock_flag.load())`
  abbrev pub loaded : Bool → Call A → q.Ring → Moved
  loaded true c r = moved true r (spinning c) []
  loaded false c r = moved false r (exchanging c) []

  -- rigtorp's `push`, which tries again while the queue has no room
  abbrev pub pushed : Option q.Ring → Bool → q.Ring → A → Moved
  pushed none f r v = moved f r (pushing v) []
  pushed (some s) f r v = moved f s (unlocking none) (put v ∷ [])

  -- `front`, and the test of its pointer
  abbrev pub fronted : Option A → Bool → q.Ring → Moved
  fronted none f r = moved f r (unlocking none) (missed ∷ [])
  fronted (some x) f r = moved f r pointing []

  -- `v = *ptr`
  abbrev pub read_through : Option A → Bool → q.Ring → Moved
  read_through none f r = moved f r lost []
  read_through (some x) f r = moved f r (taking x) []

  -- `SPSCQueueSafe::push`, `SPSCQueueSafe::pop`, `CSpinLock::lock` and `CSpinLock::unlock`
  unfoldable pub move : Pc A → Bool → q.Ring → Moved
  move idle f r = moved f r idle []
  move (exchanging c) f r = exchanged f c r
  move (spinning c) f r = loaded f c r
  move (pushing v) f r = pushed (q.push r v) f r v
  move reading f r = fronted (q.front r) f r
  move pointing f r = read_through (q.front r) f r
  move (taking x) f r = moved f (q.pop r) (unlocking (some x)) (took x ∷ [])
  move (unlocking a) f r = moved false r idle []
  move lost f r = moved f r lost []

  abbrev pub moves : ℕ → Moved → (ℕ → Pc A) → System × List (Event A)
  moves t m pc = (record { flag = m.flag; queue = m.queue; pc = assign t m.pc pc }, m.events)

  unfoldable pub step : Turn A → System → System × List (Event A)
  step (begin t c) s =
      (record { flag = s.flag; queue = s.queue; pc = assign t (begun c (s.pc t)) s.pc }, [])
  step (go t) s = moves t (move (s.pc t) s.flag s.queue) s.pc

  -- The first turn first.
  unfoldable pub run : List (Turn A) → System → System × List (Event A)
  run [] s = (s, [])
  run (t ∷ ts) s = let a = step t s in let b = run ts a.0 in (b.0, a.1 ++ b.1)
