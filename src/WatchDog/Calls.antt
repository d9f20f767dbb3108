-- ===== src/WatchDog/Calls.antt =====
-- moxt/httpx/watchdog.cpp: how often a watchdog calls back.
use moxt_cpp.WatchDog.Timer.{DeadlineTimer}
use moxt_cpp.WatchDog.{
  WatchDog, new_watch_dog, enable, disable, reset, Event, enabling, disabling, resetting, elapsing,
  handling, step, run,
}
use moxt_cpp.Prelude.{
  ◌≡◌, refl, ◌∙◌, ap, ℕ, suc, ◌+◌, ◌≤◌, Bool, true, false, List, [], ◌∷◌, arith, inl, inr,
  Option-cases,
}
use moxt_cpp.Prelude.Int.{ℤ}

abbrev pub starts : Event → ℕ
starts (enabling timeout) = 1
starts disabling = 0
starts resetting = 1
starts elapsing = 0
starts (handling aborted) = 0

-- The number of calls of `Enable` and `Reset`.
abbrev pub all_starts : List Event → ℕ
all_starts [] = 0
all_starts (e ∷ es) = starts e + all_starts es

module _ (d : DeadlineTimer) where
  -- The callbacks made and still to come.
  abbrev pub due : WatchDog d → ℕ
  due w = w.calls + d.waiting w.timer + d.expired w.timer

  waiting-enable : (timeout : ℤ) (w : WatchDog d) → d.waiting (enable d timeout w).timer ≡ 1
  unfolding enable
  waiting-enable timeout w =
      d.waiting-async_wait (d.expires_from_now timeout (d.cancel w.timer))
      ∙ ap suc (d.waiting-expires_from_now timeout (d.cancel w.timer))

  expired-enable :
      (timeout : ℤ) (w : WatchDog d) → d.expired (enable d timeout w).timer ≡ d.expired w.timer
  unfolding enable
  expired-enable timeout w =
      d.expired-async_wait (d.expires_from_now timeout (d.cancel w.timer))
      ∙ d.expired-expires_from_now timeout (d.cancel w.timer)
      ∙ d.expired-cancel w.timer

  calls-enable : (timeout : ℤ) (w : WatchDog d) → (enable d timeout w).calls ≡ w.calls
  unfolding enable
  calls-enable timeout w = refl

  enable-due :
      (timeout : ℤ) (w : WatchDog d)
      → (due (enable d timeout w) ≤ suc (due w)) × (d.waiting (enable d timeout w).timer ≡ 1)
  enable-due timeout w = (
    omega (arith, waiting-enable timeout w, expired-enable timeout w, calls-enable timeout w),
    waiting-enable timeout w,
  )

  -- An aborted handler does nothing, and one that is over makes a callback that was due.
  due-handle :
      (aborted : Bool) (w : WatchDog d)
      → (due (step d (handling aborted) w) ≡ due w)
        × (d.waiting (step d (handling aborted) w).timer ≡ d.waiting w.timer)
  unfolding step
  due-handle true w = elim (Option-cases (d.take_aborted w.timer)) [
    | inl e ↦ rw e (refl, refl)
    | inr (u, e) ↦
        let a = d.waiting-take_aborted w.timer u e in
        let b = d.expired-take_aborted w.timer u e in rw e (omega (arith, a, b), a)
  ]
  due-handle false w = elim (Option-cases (d.take_expired w.timer)) [
    | inl e ↦ rw e (refl, refl)
    | inr (u, e) ↦
        let a = d.waiting-take_expired w.timer u e in
        let b = d.expired-take_expired w.timer u e in rw e (omega (arith, a, b), a)
  ]

  -- A step makes a callback due only where it is a start, and a watchdog has one wait at most.
  due-step :
      (e : Event) (w : WatchDog d)
      → (due (step d e w) ≤ starts e + due w)
        × (d.waiting w.timer ≤ 1 → d.waiting (step d e w).timer ≤ 1)
  unfolding step disable reset
  due-step (enabling timeout) w =
      let (a, b) = enable-due timeout w in (omega (arith, a), λ h. omega (arith, b))
  due-step disabling w =
      let a = d.waiting-cancel w.timer in
      (omega (arith, a, d.expired-cancel w.timer), λ h. omega (arith, a))
  due-step resetting w =
      let (a, b) = enable-due w.timeout w in (omega (arith, a), λ h. omega (arith, b))
  due-step elapsing w =
      let a = d.waiting-elapse w.timer in
      (omega (arith, a, d.expired-elapse w.timer), λ h. omega (arith, a))
  due-step (handling aborted) w =
      let (a, b) = due-handle aborted w in (omega (arith, a), λ h. omega (arith, b))

  run-due :
      (es : List Event) (w : WatchDog d)
      → d.waiting w.timer ≤ 1
      → (due (run d es w) ≤ all_starts es + due w) × (d.waiting (run d es w).timer ≤ 1)
  unfolding run
  run-due [] w h = (omega arith, h)
  run-due (e ∷ es) w h =
      let (a, b) = due-step e w in
      let (g, i) = run-due es (step d e w) (b h) in (omega (arith, g, a), i)

  calls-step : (e : Event) (w : WatchDog d) → w.calls ≤ (step d e w).calls
  unfolding step disable reset enable
  calls-step (enabling timeout) w = omega arith
  calls-step disabling w = omega arith
  calls-step resetting w = omega arith
  calls-step elapsing w = omega arith
  calls-step (handling true) w = elim (Option-cases (d.take_aborted w.timer)) [
    | inl e ↦ rw e (omega arith)
    | inr (u, e) ↦ rw e (omega arith)
  ]
  calls-step (handling false) w = elim (Option-cases (d.take_expired w.timer)) [
    | inl e ↦ rw e (omega arith)
    | inr (u, e) ↦ rw e (omega arith)
  ]

  calls-run : (es : List Event) (w : WatchDog d) → w.calls ≤ (run d es w).calls
  unfolding run
  calls-run [] w = omega arith
  calls-run (e ∷ es) w = omega (arith, calls-step e w, calls-run es (step d e w))

  -- For any calls, times and handlers in any order, a new watchdog has one wait at most, and its
  -- callbacks with those still to come are no more than the calls of `Enable` and `Reset`.
  pub run-due_new :
      (es : List Event)
      → (due (run d es (new_watch_dog d)) ≤ all_starts es)
        × (d.waiting (run d es (new_watch_dog d)).timer ≤ 1)
  run-due_new es =
      let (a, b) = run-due es (new_watch_dog d) (omega (arith, d.waiting-make)) in
      (omega (arith, a, d.waiting-make, d.expired-make), b)

  -- After `Disable`, with no handler queued whose wait is over: no calls, times and handlers make a
  -- callback until `Enable` or `Reset` is called.
  pub calls-disable :
      (es : List Event) (w : WatchDog d)
      → d.expired w.timer ≡ 0
      → all_starts es ≡ 0
      → (run d es (disable d w)).calls ≡ w.calls
  unfolding disable
  calls-disable es w e n =
      let a = d.waiting-cancel w.timer in
      let (g, i) = run-due es (disable d w) (omega (arith, a)) in
      omega (arith, a, g, n, e, d.expired-cancel w.timer, calls-run es (disable d w))
