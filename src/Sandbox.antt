-- ===== src/Sandbox.antt =====
-- source/runtime/sandbox: a single-threaded runtime with a task queue and virtual time.
-- Instants and delays are microseconds from 0 on; sums of them do not overflow.
pub mod Ready
pub mod Clock
pub mod Tasks
mod Tests
use cpp_concurrency.Base.{
  ℕ, zero, suc, ◌+◌, ◌-◌, ◌%◌, ◌^◌, Bool, true, false, not, ◌&&◌, Option, none, some, List, [], ◌∷◌,
  ◌++◌, ltb, if◌then◌else◌,
}
use cpp_concurrency.Base as B
use cpp_concurrency.LeftistHeap
use cpp_concurrency.LeftistHeap.{Timer, Heap}

-- `Clock` and the heap of `TimerQueue`.
pub record TimerQueue : Type 0 where
  pub now : ℕ
  pub timers : Heap

-- A `TaskBase`: a task of the user, or a timer, whose `Run` runs the task that it carries.
pub data Runnable : Type 0 where
  plain : (task : ℕ) → Runnable
  timed : (timer : Timer) → Runnable

-- `Runtime`: `task_queue_` of the `ManualLoop`, front first, and the `TimerQueue`.
pub record Runtime : Type 0 where
  pub tasks : List Runnable
  pub queue : TimerQueue
  pub open queue use *

-- `Runtime()`
pub init : Runtime
init = record { tasks = []; queue = record { now = 0; timers = LeftistHeap.null } }

-- `Clock::AdvanceBy`, as `TimerQueue::AdvanceClockBy` calls it.
pub advance_by : ℕ → TimerQueue → TimerQueue
advance_by delta q = record q { now = q.now + delta }

-- `Clock::AdvanceTo`. `none` is the failed assertion.
pub advance_to : ℕ → TimerQueue → Option TimerQueue
advance_to future q = if ltb future q.now then none else some (record q { now = future })

-- `TimerQueue::Set`
pub set_timer : ℕ → ℕ → TimerQueue → TimerQueue
set_timer delay task q = record q {
  timers = LeftistHeap.push q.timers (record { task = task; deadline = delay + q.now });
}

-- `TimerQueue::NextDeadline`
pub next_deadline : TimerQueue → Option ℕ
next_deadline q = elim (LeftistHeap.top q.timers) [ none ↦ none | some t ↦ some t.deadline ]

-- `TimerQueue::AdvanceClockToNextDeadline`
pub advance_to_next : TimerQueue → Option TimerQueue
unfolding advance_to next_deadline
advance_to_next q = elim (next_deadline q) [ none ↦ some q | some d ↦ advance_to d q ]

-- The loop of `TimerQueue::PopReadyTimers`, with fuel: the ready timers, and what is left.
pub pop_ready_within : ℕ → ℕ → Heap → List Timer × Heap
pop_ready_within zero now h = ([], h)
pop_ready_within (suc f) now h = elim (LeftistHeap.pop h) [
  | none ↦ ([], h)
  | some (t, rest) ↦
      let (ready, left) = pop_ready_within f now rest in
      if ltb now t.deadline then ([], h) else (t ∷ ready, left)
]

-- `TimerQueue::PopReadyTimers`
pub pop_ready : TimerQueue → List Timer × TimerQueue
pop_ready q =
    let (ready, left) = pop_ready_within (suc (LeftistHeap.size q.timers)) q.now q.timers in
    (ready, record q { timers = left })

-- `ManualLoop::Submit`
pub submit : Runnable → Runtime → Runtime
submit t s = record s { tasks = s.tasks ++ t ∷ [] }

-- `TimerQueue::Set`, as the runtime's timer scheduler.
pub set : ℕ → ℕ → Runtime → Runtime
unfolding set_timer
set delay task s = record s { queue = set_timer delay task s.queue }

-- The loop of `Runtime::MoveReadyToQueue`
pub submit_all : ℕ → List Timer → Runtime → Runtime × ℕ
submit_all res [] s = (s, res)
submit_all res (t ∷ ready) s = submit_all (res + 1) ready (submit (timed t) s)

-- `Runtime::MoveReadyToQueue`
pub move_ready : Runtime → Runtime × ℕ
unfolding pop_ready submit_all
move_ready s =
    let (ready, left) = pop_ready s.queue in submit_all 0 ready (record s { queue = left })

-- `Runtime::AdvanceClockBy`
pub advance_clock_by : ℕ → Runtime → Runtime × ℕ
unfolding advance_by
advance_clock_by delta s = move_ready (record s { queue = advance_by delta s.queue })

-- `Runtime::AdvanceClockToNextDeadline`
pub advance_clock_to_next : Runtime → Option (Runtime × ℕ)
unfolding advance_to_next
advance_clock_to_next s = elim (advance_to_next s.queue) [
  | none ↦ none
  | some q ↦ some (move_ready (record s { queue = q }))
]

-- `Runtime::IsEmpty`
pub is_empty : Runtime → Bool
is_empty s = B.is_empty s.tasks && LeftistHeap.is_empty s.timers

-- What a task does when it is run is not the runtime's: it is a parameter. It may submit tasks and
-- set timers.
module _ (exec : ℕ → Runtime → Runtime) where
  -- `TaskBase::Run`; for a timer `TimerBase::Run`.
  pub run : Runnable → Runtime → Runtime
  run (plain task) s = exec task s
  run (timed timer) s = exec timer.task s

  -- `task_queue_.PopFrontNonEmpty()->Run()`
  pub run_front : Runtime → Runtime
  unfolding run
  run_front s = elim s.tasks [ [] ↦ s | t ∷ rest ↦ run t (record s { tasks = rest }) ]

  -- The loop of `ManualLoop::RunAtMostTasks`, with fuel. `count` is a `size_t`.
  pub run_within : ℕ → ℕ → ℕ → Runtime → ℕ × Runtime
  unfolding run_front
  run_within zero limit count s = (count, s)
  run_within (suc f) limit count s =
      let next = (count + 1) % 2 ^ 64 in
      let rest = run_within f limit next (run_front s) in
      if ltb count limit && not (B.is_empty s.tasks)
      then rest
      else ((next + 2 ^ 64 - 1) % 2 ^ 64, s)

  -- `ManualLoop::RunAtMostTasks`
  pub run_at_most : ℕ → Runtime → ℕ × Runtime
  unfolding run_within
  run_at_most limit s = run_within (suc limit) limit 0 s

  -- `ManualLoop::RunTasks`: `RunAtMostTasks(-1)`.
  pub run_tasks : Runtime → ℕ × Runtime
  unfolding run_at_most
  run_tasks s = run_at_most (2 ^ 64 - 1) s

  -- `ManualLoop::RunNextTask`
  pub run_next : Runtime → Bool × Runtime
  unfolding run_at_most
  run_next s = let (n, s') = run_at_most 1 s in (B.◌==◌ n 1, s')
