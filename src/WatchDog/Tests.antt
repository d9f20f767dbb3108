-- ===== src/WatchDog/Tests.antt =====
-- moxt/httpx/watchdog.cpp: a watchdog that is reset in time, and one that is disabled too late.
use moxt_cpp.WatchDog.Timer.{counts}
use moxt_cpp.WatchDog.{
  WatchDog, new_watch_dog, enable, disable, reset, step, run, Event, enabling, disabling, resetting,
  elapsing, handling,
}
use moxt_cpp.WatchDog.Calls.{all_starts, due, run-due_new, calls-disable}
use moxt_cpp.Prelude.{◌≡◌, refl, ◌≤◌, true, false, List, [], ◌∷◌}
use moxt_cpp.Prelude.Int.{pos}

abbrev in_time : List Event
in_time = enabling (pos 10) ∷ resetting ∷ handling true ∷ elapsing ∷ handling false ∷ []

abbrev new : WatchDog counts
new = new_watch_dog counts

called_once : (run counts in_time new).calls ≡ 1
unfolding run step enable reset
called_once = refl

-- The time was reached before `Disable`, and the callback comes after it.
too_late :
    (run counts (enabling (pos 10) ∷ elapsing ∷ disabling ∷ handling false ∷ []) new).calls ≡ 1
unfolding run step enable disable
too_late = refl

run-due_new_example :
    (due counts (run counts in_time new) ≤ all_starts in_time)
    × (counts.waiting (run counts in_time new).timer ≤ 1)
run-due_new_example = run-due_new counts in_time

calls-disable_example :
    (run counts
      (elapsing ∷ handling false ∷ handling true ∷ [])
      (disable counts (enable counts (pos 10) new))).calls
    ≡ 0
unfolding enable
calls-disable_example =
    calls-disable counts (elapsing ∷ handling false ∷ handling true ∷ [])
      (enable counts (pos 10) new) refl refl
