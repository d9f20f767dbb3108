-- ===== src/WorkPool/Tests.antt =====
-- moxt/libthread.cpp: tasks with and without a result, and a callback that frees one.
use native.Mathlib.Decide.{ℕ_discrete}
use moxt_cpp.Count.{live}
use moxt_cpp.WorkPool.{
  Heap, Entry, Callback, called_back, seq_photon_workpool_async_call_with_cb,
  seq_photon_workpool_call_with_cb,
}
use moxt_cpp.WorkPool.Tasks.{
  plain, with_cb, Event, calling, giving, working, Program, new_program, new_far, run,
}
use moxt_cpp.WorkPool.Freed.{got, Fresh, new_far-live, new_far-Fresh, result_gone-dangling}
use moxt_cpp.WorkPool.Run.{Held, run-Held}
use moxt_cpp.Prelude.{◌≡◌, refl, ℕ, zero, suc, ◌+◌, Option, none, some, List, [], ◌∷◌, inl, arith}
use moxt_cpp.Prelude.Outcome.{ok, fault, dangling}

abbrev tasks : ℕ → Entry
tasks zero arg h = (none, h)
tasks (suc k) arg h = (some h.next_far, new_far [] h)

abbrev callbacks : ℕ → Option Callback
callbacks k = none

abbrev tasks_live :
    (k : ℕ) (arg : Option ℕ) (h : Heap)
    → Fresh h
    → ((c : ℕ) → live ((tasks k arg h).1.fars c) ≡ live (h.fars c) + got (tasks k arg h).0 c)
      × Fresh (tasks k arg h).1
tasks_live zero arg h f = (λ c. omega arith, f)
tasks_live (suc k) arg h f = (new_far-live [] h f, new_far-Fresh [] h f)

abbrev callbacks_live :
    (k : ℕ) (result : Option ℕ) (h : Heap)
    → Fresh h
    → ((c : ℕ) → live ((called_back (callbacks k) result h).fars c) ≡ live (h.fars c))
      × Fresh (called_back (callbacks k) result h)
callbacks_live k result h f = (λ c. refl, f)

abbrev events : List Event
events =
    giving (plain 1) []
    ∷ giving (with_cb 1) []
    ∷ calling (with_cb 1) []
    ∷ working 1
    ∷ calling (plain 0) []
    ∷ working 0
    ∷ giving (plain 0) []
    ∷ []

run-Held_example :
    (s : Program) × (run tasks callbacks events new_program ≡ ok s) × Held tasks callbacks s
run-Held_example = run-Held tasks callbacks tasks_live callbacks_live events

-- A task that gives back its argument.
abbrev echo : Entry
echo arg h = (arg, h)

abbrev one_far : Heap
one_far = new_far [] (record { fars = λ far. none; next_far = 0 })

result_gone-dangling_example :
    (seq_photon_workpool_call_with_cb echo (some 0) none one_far ≡ fault dangling)
    × ((t : Heap) × (seq_photon_workpool_async_call_with_cb echo (some 0) none one_far ≡ ok t))
unfolding ℕ_discrete
result_gone-dangling_example = result_gone-dangling echo none 0 0 one_far refl refl (inl refl)
