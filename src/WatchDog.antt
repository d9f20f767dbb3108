-- ===== src/WatchDog.antt =====
-- moxt/httpx/watchdog.hpp and moxt/httpx/watchdog.cpp: `WatchDog`, which calls back when it was not
-- reset for some time. Its timer is boost's deadline_timer (WatchDog/Timer). A callback is counted.
pub mod Timer
pub mod Calls
mod Tests
use moxt_cpp.WatchDog.Timer.{DeadlineTimer}
use moxt_cpp.Prelude.{ℕ, suc, Bool, true, false, Option, none, some, List, [], ◌∷◌}
use moxt_cpp.Prelude.Int.{ℤ, pos}

-- A call, the time of the timer, or the handler of a wait that was aborted or is over.
pub data Event : Type 0 where
  enabling : ℤ → Event
  disabling resetting elapsing : Event
  handling : Bool → Event

module _ (d : DeadlineTimer) where
  pub record WatchDog : Type 0 where
    pub timer : d.Timer
    pub timeout : ℤ
    pub calls : ℕ

  abbrev pub new_watch_dog : WatchDog
  new_watch_dog = record { timer = d.make; timeout = pos 0; calls = 0 }

  unfoldable pub enable : ℤ → WatchDog → WatchDog
  enable timeout w = record w {
    timer = d.async_wait (d.expires_from_now timeout (d.cancel w.timer));
    timeout = timeout;
  }

  unfoldable pub disable : WatchDog → WatchDog
  disable w = record w { timer = d.cancel w.timer }

  unfoldable pub reset : WatchDog → WatchDog
  reset w = enable w.timeout w

  -- The handler of a wait, with whether its error code is `operation_aborted`.
  abbrev pub handle : Bool → WatchDog → WatchDog
  handle true w = w
  handle false w = record w { calls = suc w.calls }

  abbrev pub handle_next : Bool → Option d.Timer → WatchDog → WatchDog
  handle_next aborted none w = w
  handle_next aborted (some timer) w = handle aborted (record w { timer = timer })

  unfoldable pub step : Event → WatchDog → WatchDog
  step (enabling timeout) w = enable timeout w
  step disabling w = disable w
  step resetting w = reset w
  step elapsing w = record w { timer = d.elapse w.timer }
  step (handling true) w = handle_next true (d.take_aborted w.timer) w
  step (handling false) w = handle_next false (d.take_expired w.timer) w

  -- The first event first.
  unfoldable pub run : List Event → WatchDog → WatchDog
  run [] w = w
  run (e ∷ es) w = run es (step e w)
