-- ===== src/LockedQueue/Tests.antt =====
-- moxt/utils/spscqueue_safe.hpp: runs of threads on a queue of numbers.
use native.Mathlib.Decide.{ℕ_discrete, dec_lt}
use moxt_cpp.Queue.{bounded}
use moxt_cpp.LockedQueue.{
  push_value, pop_value, Turn, begin, go, put, took, System, new_queue, move, step, run,
}
use moxt_cpp.LockedQueue.Exclusive.{Exclusive, new_queue-Exclusive, run-Exclusive}
use moxt_cpp.LockedQueue.Order.{Fifo, new_queue-Fifo}
use moxt_cpp.LockedQueue.Blocked.{push_blocks}
use moxt_cpp.Prelude.{◌≡◌, refl, ℕ, List, [], ◌∷◌}

-- Thread 0 pushes 5 while thread 1 waits; thread 1 pops it.
abbrev turns : List (Turn ℕ)
turns =
    begin 0 (push_value 5)
    ∷ begin 1 pop_value
    ∷ go 0
    ∷ go 1
    ∷ go 0
    ∷ go 1
    ∷ go 0
    ∷ go 1
    ∷ go 1
    ∷ go 1
    ∷ go 1
    ∷ go 1
    ∷ []

answers : (run (bounded ℕ) turns (new_queue (bounded ℕ) 1)).1 ≡ put 5 ∷ took 5 ∷ []
unfolding run step move ℕ_discrete dec_lt
answers = refl

run-Exclusive_example : Exclusive (bounded ℕ) (run (bounded ℕ) turns (new_queue (bounded ℕ) 1)).0
run-Exclusive_example =
    run-Exclusive (bounded ℕ) turns (new_queue (bounded ℕ) 1) (new_queue-Exclusive (bounded ℕ) 1)

new_queue-Fifo_example :
    let r = run (bounded ℕ) turns (new_queue (bounded ℕ) 1) in Fifo 1 [] r.1 r.0.queue.held
new_queue-Fifo_example = new_queue-Fifo (bounded ℕ) turns 1

-- A queue for one value that holds it.
abbrev filling : List (Turn ℕ)
filling = begin 0 (push_value 5) ∷ go 0 ∷ go 0 ∷ go 0 ∷ []

abbrev filled : System (bounded ℕ)
filled = (run (bounded ℕ) filling (new_queue (bounded ℕ) 1)).0

push_blocks_example :
    let r = run (bounded ℕ) (begin 1 (push_value 6) ∷ go 1 ∷ turns) filled in
    (r.1 ≡ []) × (r.0.queue ≡ filled.queue)
unfolding run step move ℕ_discrete dec_lt
push_blocks_example =
    push_blocks (bounded ℕ) 1 6 filled turns
      (run-Exclusive (bounded ℕ) filling (new_queue (bounded ℕ) 1)
        (new_queue-Exclusive (bounded ℕ) 1))
      refl refl refl
