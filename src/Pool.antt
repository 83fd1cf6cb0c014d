-- ===== src/Pool.antt =====
-- source/runtime/multi_thread/v1: a pool of a fixed number of threads, with a thread for timers. Each call of
-- a blocking queue is a step up to the point where it waits; the steps of all threads interleave.
pub mod Workers
pub mod Ran
pub mod Deadlines
pub mod Safety
pub mod Lost
mod Tests
use cpp_concurrency.Base.{
  ℕ, ◌+◌, ◌-◌, ◌≤◌, ◌<◌, ◌≡◌, List, [], ◌∷◌, ◌++◌, some, get_elem?, set, length, All, replicate,
}
use cpp_concurrency.LeftistHeap.{Timer}
use cpp_concurrency.Blocking.{Queue, Popped, waits, nothing, popped, pop, resume}
use cpp_concurrency.Blocking.Laws.{Trace, Move, start, move, pushes, pops, resumes, wakes, closes}
use cpp_concurrency.Blocking.Timers as Timers
use cpp_concurrency.Blocking.Timers.{TimerQueue, Answer, found}

-- Where a worker stands: before `Pop`, asleep in it, with a task, or at the end of `Work`.
pub data Worker : Type 0 where
  ready asleep finished : Worker
  running : (task : ℕ) → Worker

-- Where the thread for timers stands in `Run`: before `NearestDeadLine`, or asleep in it; asleep until a
-- deadline; before `GetClosestTimer`, or asleep in it; with a timer to submit, or with the null
-- pointer; and at its end.
pub data TimerPc : Type 0 where
  asking waiting fetching fetching_asleep lost ended : TimerPc
  sleeping : (deadline : ℕ) → TimerPc
  submitting : Timer → TimerPc

-- How far `Runtime::Stop` is: not called; at the `join` of the workers; before `Close` of the timers; at the
-- `join` of their thread; and through.
pub data Main : Type 0 where
  serving joining closing joining_timer stopped : Main

-- `Runtime`, with `ThreadPool` and `TimerThread`. The trace is the queue of tasks with what was pushed and taken;
-- `mark` is how many tasks had been pushed when the queue was closed, and `ran` are those that have run.
pub record Pool : Type 0 where
  pub trace : Trace ℕ
  pub workers : List Worker
  pub ran : List ℕ
  pub timers : TimerQueue
  pub timer_pc : TimerPc
  pub now : ℕ
  pub main : Main
  pub mark : ℕ

-- How a worker goes on after `Pop`.
abbrev pub after_pop : Popped ℕ → Worker
after_pop waits = asleep
after_pop nothing = finished
after_pop (popped task) = running task

-- How the thread for timers goes on after `NearestDeadLine` and `GetClosestTimer`.
abbrev pub after_deadline : Answer ℕ → TimerPc
after_deadline Answer.waits = waiting
after_deadline Answer.nothing = ended
after_deadline (found deadline) = sleeping deadline

abbrev pub after_closest : Answer Timer → TimerPc
after_closest Answer.waits = fetching_asleep
after_closest Answer.nothing = lost
after_closest (found t) = submitting t

-- `Runtime::Start` of a pool with timers.
abbrev pub init : ℕ → Pool
init n = record {
  trace = start;
  workers = replicate n ready;
  ran = [];
  timers = Timers.init;
  timer_pc = asking;
  now = 0;
  main = serving;
  mark = 0;
}

module _ (s : Pool) where
  -- `ThreadPool::Work`, by the worker `j`
  pub data Work : ℕ → Pool → Type 0 where
    calls_pop :
        (j : ℕ)
        → get_elem? s.workers j ≡ some ready
        → Work j (record s {
          trace = move pops s.trace;
          workers = set s.workers j (after_pop (pop s.trace.queue).0);
        })
    returns :
        (j : ℕ)
        → get_elem? s.workers j ≡ some asleep
        → 0 < s.trace.queue.notified
        → Work j (record s {
          trace = move resumes s.trace;
          workers = set s.workers j (after_pop (resume s.trace.queue).0);
        })
    runs :
        (j task : ℕ)
        → get_elem? s.workers j ≡ some (running task)
        → Work j (record s { workers = set s.workers j ready; ran = s.ran ++ task ∷ [] })

  -- `ThreadPool::Submit`, by anyone, and a wake-up for no reason.
  pub data Submit : Pool → Type 0 where
    submits : (task : ℕ) → Submit (record s { trace = move (pushes task) s.trace })
    wakes_for_no_reason : Submit (record s { trace = move wakes s.trace })

  -- `TimerThread::Set`, by anyone.
  pub data Set : Pool → Type 0 where
    sets :
        (delay task : ℕ)
        → Set (record s {
          timers = Timers.push (record { task = task; deadline = s.now + delay }) s.timers;
        })

  -- `TimerThread::Run`
  pub data Run : Pool → Type 0 where
    asks :
        s.timer_pc ≡ asking
        → Run (record s {
          timers = (Timers.nearest_deadline s.timers).1;
          timer_pc = after_deadline (Timers.nearest_deadline s.timers).0;
        })
    asks_again :
        s.timer_pc ≡ waiting
        → 0 < s.timers.notified
        → Run (record s {
          timers = (Timers.resume_deadline s.timers).1;
          timer_pc = after_deadline (Timers.resume_deadline s.timers).0;
        })
    wakes_for_no_reason :
        0 < s.timers.blocked
        → Run (record s {
          timers = record s.timers {
            blocked = s.timers.blocked - 1;
            notified = s.timers.notified + 1;
          };
        })
    wakes_up :
        (deadline : ℕ)
        → s.timer_pc ≡ sleeping deadline
        → deadline ≤ s.now
        → Run (record s { timer_pc = fetching })
    fetches :
        s.timer_pc ≡ fetching
        → Run (record s {
          timers = (Timers.get_closest_timer s.timers).1;
          timer_pc = after_closest (Timers.get_closest_timer s.timers).0;
        })
    submits :
        (t : Timer)
        → s.timer_pc ≡ submitting t
        → Run (record s { trace = move (pushes t.task) s.trace; timer_pc = asking })

  -- `Runtime::Stop`, with `ThreadPool::Stop` and `TimerThread::Stop`.
  pub data Stop : Pool → Type 0 where
    closes_tasks :
        s.main ≡ serving
        → Stop
            (record s { trace = move closes s.trace; main = joining; mark = length s.trace.pushed })
    joins :
        s.main ≡ joining → All (λ w. w ≡ finished) s.workers → Stop (record s { main = closing })
    closes_timers :
        s.main ≡ closing → Stop (record s { timers = Timers.close s.timers; main = joining_timer })
    joins_timer : s.main ≡ joining_timer → s.timer_pc ≡ ended → Stop (record s { main = stopped })

  pub data Step : Pool → Type 0 where
    works : {j : ℕ} {s' : Pool} → Work j s' → Step s'
    is_submitted : {s' : Pool} → Submit s' → Step s'
    is_set : {s' : Pool} → Set s' → Step s'
    times : {s' : Pool} → Run s' → Step s'
    stops : {s' : Pool} → Stop s' → Step s'
    ticks : (instant : ℕ) → s.now ≤ instant → Step (record s { now = instant })

-- The states that steps lead to from `s`.
pub data Runs (s : Pool) : Pool → Type 0 where
  here : Runs s s
  later : {t u : Pool} → Runs s t → Step t u → Runs s u
