-- ===== src/WorkPool/Tasks.antt =====
-- moxt/libthread.cpp: a program and its pool. Tasks that were given to the pool run in any order.
use moxt_cpp.Far.{FuncArgResult}
use moxt_cpp.WorkPool.{
  Heap, Entry, Callback, seq_photon_workpool_async_call, seq_photon_workpool_async_call_with_cb,
  seq_photon_workpool_call, seq_photon_workpool_call_with_cb,
}
use moxt_cpp.WebSocket.Events.{remove_at}
use moxt_cpp.Prelude.{ℕ, suc, Option, none, some, List, [], ◌∷◌, get_elem?}
use moxt_cpp.Prelude.Outcome.{Outcome, ok, ◌>>=◌}
use moxt_cpp.Prelude.Put.{put}

-- Whether there is a callback or the call has none, with the number of the task's functions.
pub data Work : Type 0 where
  plain : ℕ → Work
  with_cb : ℕ → Work

-- A call with the entries of its argument, which waits for the task or does not, or a worker that
-- takes the task at a place of those that wait.
pub data Event : Type 0 where
  calling : Work → FuncArgResult → Event
  giving : Work → FuncArgResult → Event
  working : ℕ → Event

-- The tasks that wait, and the results that a callback was given and the worker leaves to it.
pub record Program : Type 0 where
  pub heap : Heap
  pub waiting : List (Work × ℕ)
  pub handed : List (Option ℕ)

abbrev pub new_program : Program
new_program = record {
  heap = record { fars = λ far. none; next_far = 0 };
  waiting = [];
  handed = [];
}

-- A new argument.
abbrev pub new_far : FuncArgResult → Heap → Heap
new_far entries h = record {
  fars = put h.next_far (some entries) h.fars;
  next_far = suc h.next_far;
}

module _ (entry : ℕ → Entry) (cb : ℕ → Option Callback) where
  unfoldable pub call : Work → ℕ → Heap → Outcome Heap
  call (plain k) arg h = seq_photon_workpool_call (entry k) (some arg) h
  call (with_cb k) arg h = seq_photon_workpool_call_with_cb (entry k) (some arg) (cb k) h

  unfoldable pub async_call : Work → ℕ → Heap → Outcome Heap
  async_call (plain k) arg h = seq_photon_workpool_async_call (entry k) (some arg) h
  async_call (with_cb k) arg h =
      seq_photon_workpool_async_call_with_cb (entry k) (some arg) (cb k) h

  -- The result that is left to a callback.
  abbrev pub handed_over : Work → ℕ → Heap → List (Option ℕ) → List (Option ℕ)
  handed_over (plain k) arg h handed = handed
  handed_over (with_cb k) arg h handed = (entry k (some arg) h).0 ∷ handed

  abbrev pub work_at : Option (Work × ℕ) → ℕ → Program → Outcome Program
  work_at none n s = ok s
  work_at (some task) n s = do
    t ← async_call task.0 task.1 s.heap
    ok (record {
      heap = t;
      waiting = remove_at n s.waiting;
      handed = handed_over task.0 task.1 s.heap s.handed;
    })

  unfoldable pub step : Event → Program → Outcome Program
  step (calling work entries) s = do
    t ← call work s.heap.next_far (new_far entries s.heap)
    ok (record s { heap = t })
  step (giving work entries) s =
      ok (record s { heap = new_far entries s.heap; waiting = (work, s.heap.next_far) ∷ s.waiting })
  step (working n) s = work_at (get_elem? s.waiting n) n s

  -- The first event first.
  unfoldable pub run : List Event → Program → Outcome Program
  run [] s = ok s
  run (e ∷ es) s = do t ← step e s; run es t
