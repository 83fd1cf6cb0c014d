-- ===== src/Blocking/Timers.antt =====
-- source/detail/timer_queue.hpp: a queue of timers for threads that block while it is empty, as
-- source/detail/queue.hpp in Blocking, with a heap. Each call holds the mutex up to the point where it waits,
-- so it is one step.
use cpp_concurrency.Base.{
  ℕ, ◌+◌, ◌-◌, Bool, true, false, not, ◌&&◌, Option, none, some, ltb, if◌then◌else◌,
}
use cpp_concurrency.LeftistHeap as LeftistHeap
use cpp_concurrency.LeftistHeap.{Timer, Heap}

-- `TimerBlockingQueue`, with the threads that wait for its condition variable, and those that were woken.
pub record TimerQueue : Type 0 where
  pub buffer : Heap
  pub waiting : ℕ
  pub is_closed : Bool
  pub blocked : ℕ
  pub notified : ℕ

-- How a call goes on: it waits, it returns nothing, or it returns what it asked for.
pub data Answer (A : Type 0) : Type 0 where
  waits : Answer A
  nothing : Answer A
  found : A → Answer A

abbrev pub init : TimerQueue
init = record {
  buffer = LeftistHeap.null;
  waiting = 0;
  is_closed = false;
  blocked = 0;
  notified = 0;
}

abbrev pub notify_one : TimerQueue → TimerQueue
notify_one q =
    if ltb 0 q.blocked then record q { blocked = q.blocked - 1; notified = q.notified + 1 } else q

abbrev pub notify_all : TimerQueue → TimerQueue
notify_all q = record q { blocked = 0; notified = q.notified + q.blocked }

-- `Push`
abbrev pub push : Timer → TimerQueue → TimerQueue
push t q =
    let q' = record q { buffer = LeftistHeap.push q.buffer t } in
    if ltb 0 q.waiting then notify_one q' else q'

-- `Close`
abbrev pub close : TimerQueue → TimerQueue
close q = let q' = record q { is_closed = true } in if ltb 0 q.waiting then notify_all q' else q'

-- `!is_closed_ && buffer_.IsEmpty()`
abbrev pub must_wait : TimerQueue → Bool
must_wait q = not q.is_closed && LeftistHeap.is_empty q.buffer

abbrev pub stay : TimerQueue → TimerQueue
stay q = record q { blocked = q.blocked + 1 }

abbrev pub leave : TimerQueue → TimerQueue
leave q = record q { waiting = q.waiting - 1 }

-- The end of `GetClosestTimer`.
abbrev pub take_closest : Option (Timer × Heap) → TimerQueue → Answer Timer × TimerQueue
take_closest none q = (nothing, q)
take_closest (some (t, rest)) q = (found t, record q { buffer = rest })

-- The loop of `GetClosestTimer`, from its test on.
abbrev pub test_closest : TimerQueue → Answer Timer × TimerQueue
test_closest q =
    if must_wait q then (waits, stay q) else take_closest (LeftistHeap.pop q.buffer) (leave q)

abbrev pub get_closest_timer : TimerQueue → Answer Timer × TimerQueue
get_closest_timer q = test_closest (record q { waiting = q.waiting + 1 })

-- The end of `NearestDeadLine`, and `TryNearestDeadLine`.
abbrev pub deadline_of : Option Timer → Answer ℕ
deadline_of none = nothing
deadline_of (some t) = found t.deadline

abbrev pub try_nearest_deadline : TimerQueue → Answer ℕ
try_nearest_deadline q = deadline_of (LeftistHeap.top q.buffer)

-- The loop of `NearestDeadLine`, from its test on.
abbrev pub test_deadline : TimerQueue → Answer ℕ × TimerQueue
test_deadline q = if must_wait q then (waits, stay q) else (try_nearest_deadline q, leave q)

abbrev pub nearest_deadline : TimerQueue → Answer ℕ × TimerQueue
nearest_deadline q = test_deadline (record q { waiting = q.waiting + 1 })

-- `NearestDeadLine`, when the wait of a notified thread returns.
abbrev pub resume_deadline : TimerQueue → Answer ℕ × TimerQueue
resume_deadline q = test_deadline (record q { notified = q.notified - 1 })
