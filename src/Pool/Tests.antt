-- ===== src/Pool/Tests.antt =====
-- A pool of one worker, run to its end with a timer left over.
use cpp_concurrency.Base.{◌≤◌, ◌≡◌, refl, [], ◌∷◌, ◌++◌, length, All, SameItems, arith}
use cpp_concurrency.LeftistHeap as LeftistHeap
use cpp_concurrency.LeftistHeap.{Timer}
use cpp_concurrency.Blocking.Laws.{move, pushes, pops, closes}
use cpp_concurrency.Blocking.Timers as Timers
use cpp_concurrency.Pool.{
  Pool, ready, finished, running, submitting, joining, stopped, init, Work, Submit, Set, Run, Stop,
  works, is_submitted, is_set, times, stops, ticks, Runs, here, later,
}
use cpp_concurrency.Pool.Safety.{joined-ran, stop-progress, timers-due}
use cpp_concurrency.Pool.Lost.{with_timer, pending-lost}

-- A task is submitted, and taken.
abbrev taking : Pool
taking =
    let s = init 1 in
    let s : Pool = record s { trace = move (pushes 5) s.trace } in
    record s { trace = move pops s.trace; workers = running 5 ∷ [] }

taking_reached : Runs (init 1) taking
taking_reached =
    later (later here (is_submitted (Submit.submits 5))) (works (Work.calls_pop 0 refl))

-- It has run, and `Stop` has begun.
abbrev stopping : Pool
stopping = record taking {
  workers = ready ∷ [];
  ran = 5 ∷ [];
  trace = move closes taking.trace;
  main = joining;
  mark = 1;
}

stopping_reached : Runs (init 1) stopping
stopping_reached =
    later (later taking_reached (works (Work.runs 0 5 refl))) (stops (Stop.closes_tasks refl))

-- The worker is through.
abbrev joined : Pool
joined = record stopping { trace = move pops stopping.trace; workers = finished ∷ [] }

joined_reached : Runs (init 1) joined
joined_reached = later stopping_reached (works (Work.calls_pop 0 refl))

joined-ran_example :
    SameItems (5 ∷ []) joined.trace.taken
    × (joined.trace.taken ++ joined.trace.queue.buffer ≡ joined.trace.pushed)
    × (1 ≤ length joined.trace.taken)
joined-ran_example = joined-ran 1 joined joined_reached (refl, tt) refl

stop-progress_example : (s' : Pool) × Work stopping 0 s'
stop-progress_example = stop-progress 1 stopping 0 ready stopping_reached (λ e. cc) refl (λ e. cc)

-- A timer comes due.
abbrev alarm : Timer
alarm = record { task = 8; deadline = 3 }

abbrev ringing : Pool
unfolding LeftistHeap.push LeftistHeap.merge LeftistHeap.merge_within LeftistHeap.pop
    LeftistHeap.top LeftistHeap.is_empty LeftistHeap.size LeftistHeap.link LeftistHeap.depth
ringing =
    let set_up = Timers.push alarm Timers.init in
    let asked = (Timers.nearest_deadline set_up).1 in
    let taken = (Timers.get_closest_timer asked).1 in
    let s = init 1 in record s { timers = taken; timer_pc = submitting alarm; now = 4 }

ringing_reached : Runs (init 1) ringing
unfolding LeftistHeap.push LeftistHeap.merge LeftistHeap.merge_within LeftistHeap.pop
    LeftistHeap.top LeftistHeap.is_empty LeftistHeap.size LeftistHeap.link LeftistHeap.depth
ringing_reached =
    later
      (later
        (later (later (later here (is_set (Set.sets 3 8))) (times (Run.asks refl)))
          (ticks 4 (omega arith)))
        (times (Run.wakes_up 3 refl (omega arith))))
      (times (Run.fetches refl))

timers-due_example : 3 ≤ 4
unfolding ringing
timers-due_example = timers-due 1 ringing alarm ringing_reached refl

pending-lost_example :
    (s : Pool) × Set (init 2) (with_timer 2 3 8)
    × Runs (with_timer 2 3 8) s
    × (s.main ≡ stopped)
    × All (λ w. w ≡ finished) s.workers
    × (s.trace.pushed ≡ 8 ∷ [])
    × (s.trace.queue.buffer ≡ 8 ∷ [])
    × (s.ran ≡ [])
pending-lost_example = pending-lost 2 3 8
