-- ===== src/RunLoop.antt =====
-- source/runtime/run_loop/runtime.cpp: an executor that one thread runs, with a queue of tasks and a
-- queue of timers. The timer queue of source/detail/timer_queue.hpp is its heap here: the run loop takes
-- from it only what is there, so it never waits for it. Instants are microseconds from 0 on.
pub mod Laws
pub mod Stopped
pub mod Blocked
mod Tests
use cpp_concurrency.Base.{
  ℕ, ◌+◌, Bool, true, false, Option, none, some, List, [], ◌∷◌, ltb, leb, if◌then◌else◌,
}
use cpp_concurrency.LeftistHeap
use cpp_concurrency.LeftistHeap.{Timer, Heap}
use cpp_concurrency.Blocking as Blocking
use cpp_concurrency.Blocking.{Queue, Popped, waits, nothing, popped}

-- `Runtime`. Tasks go by numbers.
pub record Runtime : Type 0 where
  pub timers : Heap
  pub tasks : Queue ℕ
  pub is_closed : Bool

-- How a turn of the loop of `GetTask` ends: it returns a timer, a task, or the null pointer, it blocks
-- in `tasks_.Pop()`, or the loop goes on.
pub data Turn : Type 0 where
  timer : (due : Timer) → Turn
  task : (front : ℕ) → Turn
  null blocks again : Turn

abbrev pub init : Runtime
init = record { timers = LeftistHeap.null; tasks = Blocking.init; is_closed = false }

-- `TryNearestDeadLine`, with the top of the heap.
abbrev pub deadline_of : Option Timer → Option ℕ
deadline_of none = none
deadline_of (some t) = some t.deadline

abbrev pub try_nearest_deadline : Runtime → Option ℕ
try_nearest_deadline s = deadline_of (LeftistHeap.top s.timers)

-- `deadline && Clock::now() >= *deadline`
abbrev pub is_due : ℕ → Option ℕ → Bool
is_due now none = false
is_due now (some deadline) = leb deadline now

-- `GetClosestTimer`, where the queue is not empty. The first case does not arise there.
abbrev pub get_closest_timer : Option (Timer × Heap) → Runtime → Turn × Runtime
get_closest_timer none s = (again, s)
get_closest_timer (some (t, rest)) s = (timer t, record s { timers = rest })

-- The end of a turn, once `tasks_.Pop()` is called.
abbrev pub after_pop : Popped ℕ → Runtime → Turn × Runtime
after_pop waits s = (blocks, s)
after_pop (popped v) s = (task v, s)
after_pop nothing s = (if s.is_closed then null else again, s)

-- A turn of the loop of `GetTask`, with what the clock shows.
abbrev pub turn : ℕ → Runtime → Turn × Runtime
turn now s =
    let (result, tasks) = Blocking.pop s.tasks in
    if is_due now (try_nearest_deadline s)
    then get_closest_timer (LeftistHeap.pop s.timers) s
    else after_pop result (record s { tasks = tasks })

-- A turn that was blocked, when `tasks_.Pop()` is notified.
abbrev pub resume : Runtime → Turn × Runtime
resume s =
    let (result, tasks) = Blocking.resume s.tasks in after_pop result (record s { tasks = tasks })

-- `Stop`. Closing the timer queue wakes whoever waits for it, which is nobody here.
abbrev pub stop : Runtime → Runtime
stop s = record s { tasks = Blocking.close s.tasks; is_closed = true }

-- `Set`
abbrev pub set : ℕ → ℕ → ℕ → Runtime → Runtime
set now delay work s = record s {
  timers = LeftistHeap.push s.timers (record { task = work; deadline = now + delay });
}

-- `Submit`
abbrev pub submit : ℕ → Runtime → Runtime
submit work s = record s { tasks = Blocking.push work s.tasks }

module _ (work : ℕ → Runtime → Runtime) (go_on : Runtime → List ℕ × Turn × Runtime) where
  -- A task runs, and the loop of `Run` goes on.
  abbrev pub ran_first : ℕ → Runtime → List ℕ × Turn × Runtime
  ran_first v s = let (ran, how, end) = go_on (work v s) in (v ∷ ran, how, end)

  -- How `Run` goes on after a turn of `GetTask`. A turn that blocks is the last one here.
  abbrev pub after_turn : Turn → Runtime → List ℕ × Turn × Runtime
  after_turn (timer due) s = ran_first due.task s
  after_turn (task front) s = ran_first front s
  after_turn null s = ([], null, s)
  after_turn blocks s = ([], blocks, s)
  after_turn again s = go_on s

module _ (work : ℕ → Runtime → Runtime) where
  -- `Run`, with what the clock shows at each turn, and with what a task does to the runtime: the tasks that
  -- it runs, and how the last turn ends.
  pub run : List ℕ → Runtime → List ℕ × Turn × Runtime
  run [] s = ([], again, s)
  run (now ∷ clock) s = after_turn work (run clock) (turn now s).0 (turn now s).1
