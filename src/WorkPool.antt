-- ===== src/WorkPool.antt =====
-- moxt/libthread.cpp: `free_far` and the calls that give a task to a pool of worker threads. A task
-- is a function of the program, with its argument: it may do anything to the heap, on which the
-- arguments and the results stand. `none` is the null pointer.
pub mod Tasks
pub mod Freed
pub mod Run
mod Tests
use moxt_cpp.Far.{FuncArgResult, free}
use moxt_cpp.Prelude.{ℕ, suc, Option, none, some}
use moxt_cpp.Prelude.Outcome.{Outcome, ok, fault, dangling, ◌>>=◌}
use moxt_cpp.Prelude.Put.{put}

pub record Heap : Type 0 where
  pub fars : ℕ → Option FuncArgResult
  pub next_far : ℕ

abbrev pub freed : Option FuncArgResult → ℕ → Heap → Outcome Heap
freed none far h = fault dangling
freed (some entries) far h = ok (record h { fars = put far none h.fars })

-- The entries go with the object.
unfoldable pub free_far : Option ℕ → Heap → Outcome Heap
free_far none h = ok h
free_far (some far) h = freed (h.fars far) far h

-- `task_entry` and `task_callback`
abbrev pub Entry : Type 0
Entry = Option ℕ → Heap → Option ℕ × Heap

abbrev pub Callback : Type 0
Callback = Option ℕ → Heap → Heap

abbrev pub called_back : Option Callback → Option ℕ → Heap → Heap
called_back none result h = h
called_back (some cb) result h = cb result h

-- What the worker runs, for each of the four calls.
unfoldable pub seq_photon_workpool_async_call : Entry → Option ℕ → Heap → Outcome Heap
seq_photon_workpool_async_call entry arg h = do
  let r = entry arg h
  t ← free_far arg r.1
  free_far r.0 t

unfoldable pub seq_photon_workpool_async_call_with_cb :
    Entry → Option ℕ → Option Callback → Heap → Outcome Heap
seq_photon_workpool_async_call_with_cb entry arg cb h =
    let r = entry arg h in free_far arg (called_back cb r.0 r.1)

unfoldable pub seq_photon_workpool_call : Entry → Option ℕ → Heap → Outcome Heap
seq_photon_workpool_call entry arg h = do let r = entry arg h; t ← free_far arg r.1; free_far r.0 t

unfoldable pub seq_photon_workpool_call_with_cb :
    Entry → Option ℕ → Option Callback → Heap → Outcome Heap
seq_photon_workpool_call_with_cb entry arg cb h = do
  let r = entry arg h
  t ← free_far arg (called_back cb r.0 r.1)
  free_far r.0 t
