-- ===== src/RunLoop/Tests.antt =====
-- A run loop of source/runtime/run_loop with one timer.
use cpp_concurrency.Base.{◌≡◌, refl, some, List, [], ◌∷◌, true, false, ltb, arith}
use cpp_concurrency.LeftistHeap
use cpp_concurrency.LeftistHeap.{Timer, null, node, to_list}
use cpp_concurrency.RunLoop.{
  Runtime, blocks, init, turn, set, submit, stop, run, is_due, try_nearest_deadline,
}
use cpp_concurrency.RunLoop as RunLoop
use cpp_concurrency.RunLoop.Stopped.{idle, stop-runs}
use cpp_concurrency.RunLoop.Blocked.{Call, sets, perform_all, blocked-sleeps}

abbrev alarm : Timer
alarm = record { task = 1; deadline = 5 }

abbrev sleepy : Runtime
sleepy = record init { timers = node alarm 1 null null }

at_top : LeftistHeap.top sleepy.timers ≡ some alarm
unfolding LeftistHeap.top
at_top = refl

-- A task is in the queue, and the timer is not due.
abbrev loaded : Runtime
loaded = submit 7 sleepy

stop-runs_example :
    (end : Runtime) × (run idle (3 ∷ 4 ∷ []) (stop loaded) ≡ (7 ∷ [], RunLoop.null, end))
    × (end.timers ≡ loaded.timers)
unfolding LeftistHeap.top
stop-runs_example = stop-runs (3 ∷ 4 ∷ []) loaded (refl, (refl, tt)) (omega arith)

-- Another timer is set while the thread is blocked, and the first one comes due.
abbrev meanwhile : List Call
meanwhile = sets 4 1 9 ∷ []

blocked-sleeps_example :
    ((turn 3 sleepy).0 ≡ blocks)
    × (ltb 0 (perform_all meanwhile (turn 3 sleepy).1).tasks.notified ≡ false)
    × (is_due 8 (try_nearest_deadline (perform_all meanwhile (turn 3 sleepy).1)) ≡ true)
blocked-sleeps_example =
    blocked-sleeps 3 8 sleepy alarm meanwhile at_top (omega arith) (omega arith) refl refl refl
