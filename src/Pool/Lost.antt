-- ===== src/Pool/Lost.antt =====
-- What source/runtime/multi_thread/v1/runtime.cpp does to a timer that is pending when it is stopped.
use cpp_concurrency.Base.{
  ℕ, zero, suc, ◌+◌, ◌≡◌, refl, ap, subst, List, [], ◌∷◌, ◌++◌, append_assoc, some, get_elem?, set,
  length, All, replicate, arith,
}
use cpp_concurrency.LeftistHeap as LeftistHeap
use cpp_concurrency.LeftistHeap.{Timer}
use cpp_concurrency.Blocking.Laws.{start, move, closes}
use cpp_concurrency.Blocking.Timers as Timers
use cpp_concurrency.Pool.{
  Pool, Worker, ready, finished, joining, stopped, init, Work, Set, Run, Stop, works, times, stops,
  ticks, Runs, here, later,
}

-- A pool of `n` workers in which one timer is set.
abbrev pub with_timer : ℕ → ℕ → ℕ → Pool
with_timer n delay task = record (init n) {
  timers = Timers.push (record { task = task; deadline = 0 + delay }) Timers.init;
}

-- The same, once `Stop` has closed the queue of tasks.
abbrev closed_with : ℕ → ℕ → List Worker → Pool
closed_with delay task ws = record (with_timer 0 delay task) {
  trace = move closes start;
  workers = ws;
  main = joining;
}

module _ {ℓ} {A : Type ℓ} where
  get_elem?-middle : (xs ys : List A) (x : A) → get_elem? (xs ++ x ∷ ys) (length xs) ≡ some x
  get_elem?-middle [] ys x = refl
  get_elem?-middle (z ∷ xs) ys x = get_elem?-middle xs ys x

  set-middle : (xs ys : List A) (x y : A) → set (xs ++ x ∷ ys) (length xs) y ≡ (xs ++ y ∷ []) ++ ys
  set-middle [] ys x y = refl
  set-middle (z ∷ xs) ys x y = ap (◌∷◌ z) (set-middle xs ys x y)

-- The workers come to their ends.
workers_end :
    (s : Pool) (delay task : ℕ) (done : List Worker) (m : ℕ)
    → Runs s (closed_with delay task (done ++ replicate m ready))
    → Runs s (closed_with delay task (done ++ replicate m finished))
workers_end s delay task done zero r = r
workers_end s delay task done (suc m) r =
    let ends =
      later r
        (works (Work.calls_pop (length done) (get_elem?-middle done (replicate m ready) ready))) in
    let moved =
      subst (λ ws. Runs s (closed_with delay task ws))
        (set-middle done (replicate m ready) ready finished) ends in
    subst (λ ws. Runs s (closed_with delay task ws))
      (append_assoc done (finished ∷ []) (replicate m finished))
      (workers_end s delay task (done ++ finished ∷ []) m moved)

all_finished : (n : ℕ) → All (λ w. w ≡ finished) (replicate n finished)
all_finished zero = tt
all_finished (suc n) = (refl, all_finished n)

-- For any number of workers, any delay and any task: after a timer is set in a fresh pool, there
-- are steps through the whole of `Stop`, at whose end all workers have ended, the thread for timers
-- has submitted the task of the timer, and the task is still in the queue and has not run.
pub pending-lost :
    (n delay task : ℕ)
    → (s : Pool) × Set (init n) (with_timer n delay task)
      × Runs (with_timer n delay task) s
      × (s.main ≡ stopped)
      × All (λ w. w ≡ finished) s.workers
      × (s.trace.pushed ≡ task ∷ [])
      × (s.trace.queue.buffer ≡ task ∷ [])
      × (s.ran ≡ [])
unfolding LeftistHeap.push LeftistHeap.merge LeftistHeap.merge_within LeftistHeap.pop
    LeftistHeap.top LeftistHeap.is_empty LeftistHeap.size
pending-lost n delay task =
    let s = with_timer n delay task in
    let joined = workers_end s delay task [] n (later here (stops (Stop.closes_tasks refl))) in
    let closing_timers = later joined (stops (Stop.joins refl (all_finished n))) in
    let asleep = later closing_timers (times (Run.asks refl)) in
    let awake =
      later (later asleep (ticks (0 + delay) (omega arith)))
        (times (Run.wakes_up (0 + delay) refl (omega arith))) in
    let taken = later awake (times (Run.fetches refl)) in
    let submitted = later taken (times (Run.submits _ refl)) in
    let shut = later submitted (stops (Stop.closes_timers refl)) in
    let over = later shut (times (Run.asks refl)) in
    (
      _,
      Set.sets delay task,
      later over (stops (Stop.joins_timer refl refl)),
      refl,
      all_finished n,
      refl,
      refl,
      refl,
    )
