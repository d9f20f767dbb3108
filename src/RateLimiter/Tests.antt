-- ===== src/RateLimiter/Tests.antt =====
-- Witnesses and runs for moxt/utils/c_rate_limiter.hpp, over a bounded list as the ring.
use moxt_cpp.Prelude.{ℕ, ◌≡◌, refl, [], ◌∷◌, List, arith}
use moxt_cpp.RateLimiter.{new_limiter, allow_and_record_request, run}
use moxt_cpp.RateLimiter.Buffer.{bounded}
use moxt_cpp.RateLimiter.Window.{log, run-new_limiter}

-- Two requests in any 10 nanoseconds.
abbrev times : List ℕ
times = 100 ∷ 105 ∷ 108 ∷ 111 ∷ 112 ∷ 116 ∷ []

accepted : (run bounded (new_limiter bounded 2 10) times).1 ≡ 100 ∷ 105 ∷ 111 ∷ 116 ∷ []
unfolding new_limiter allow_and_record_request run
accepted = refl

run-new_limiter_example : (run bounded (new_limiter bounded 2 10) times).1 ≡ log 1 10 [] times
run-new_limiter_example = run-new_limiter bounded 1 10 times (omega arith)
