-- ===== src/Pool/Safety.antt =====
-- What the pool of source/runtime/multi_thread/v1 promises, also while it is stopped.
use cpp_concurrency.Base.{
  ℕ, ◌≤◌, ◌<◌, ◌≡◌, ◌≢◌, refl, ap, subst, Bool, List, [], ◌∷◌, ◌++◌, some, get_elem?, length, total,
  le-total, SameItems, All, arith,
}
use cpp_concurrency.LeftistHeap.{Timer}
use cpp_concurrency.Pool.{
  Pool, Worker, ready, asleep, finished, running, TimerPc, submitting, serving, init, Work, Runs,
  here, later,
}
use cpp_concurrency.Pool.Workers.{IsSound, Step-IsSound, init-IsSound, asleep_count}
use cpp_concurrency.Pool.Ran.{IsAccounted, in_hand, Step-IsAccounted, init-IsAccounted}
use cpp_concurrency.Pool.Deadlines.{IsTimely, IsTimelyAt, Step-IsTimely}

Runs-IsSound : (n : ℕ) {s : Pool} → Runs (init n) s → IsSound s
Runs-IsSound n here = init-IsSound n
Runs-IsSound n (later r st) = Step-IsSound (Runs-IsSound n r) st

Runs-IsAccounted : (n : ℕ) {s : Pool} → Runs (init n) s → IsAccounted s
Runs-IsAccounted n here = init-IsAccounted n
Runs-IsAccounted n (later r st) = Step-IsAccounted (Runs-IsAccounted n r) st

Runs-IsTimely : (n : ℕ) {s : Pool} → Runs (init n) s → IsTimely s
Runs-IsTimely n here = tt
Runs-IsTimely n (later r st) = Step-IsTimely (Runs-IsTimely n r) st

-- All workers are through.
abbrev pub IsJoined : Pool → Type 0
IsJoined s = All (λ w. w ≡ finished) s.workers

no_hands : (p : ℕ → Bool) (ws : List Worker) → All (λ w. w ≡ finished) ws → total (in_hand p) ws ≡ 0
no_hands p [] h = refl
no_hands p (w ∷ ws) h = omega (arith, ap (in_hand p) h.0, no_hands p ws h.1)

-- In any state of a pool of `n` workers in which all of them, and so at least one, have ended: the
-- tasks taken from the queue are those pushed first, in order; each has been run, as often as it
-- was taken; and all that was pushed before `Stop` closed the queue is among them.
pub joined-ran :
    (n : ℕ) (s : Pool)
    → Runs (init n) s
    → IsJoined s
    → get_elem? s.workers 0 ≡ some finished
    → SameItems s.ran s.trace.taken
      × (s.trace.taken ++ s.trace.queue.buffer ≡ s.trace.pushed)
      × (s.mark ≤ length s.trace.taken)
joined-ran n s r all first =
    let i = Runs-IsSound n r in
    (
      λ p. omega (arith, Runs-IsAccounted n r p, no_hands p s.workers all),
      i.fair.in_order,
      (i.drained 0 first).1,
    )

-- A worker that is not through can go on, once the queue is closed.
worker-goes :
    (s : Pool) (j : ℕ) (w : Worker)
    → IsSound s
    → s.main ≢ serving
    → get_elem? s.workers j ≡ some w
    → w ≢ finished
    → (s' : Pool) × Work s j s'
worker-goes s j ready i stopping at on = (_, Work.calls_pop j at)
worker-goes s j asleep i stopping at on =
    let among = le-total asleep_count s.workers j asleep at in
    let shut = i.shut stopping in
    let awake : 0 < s.trace.queue.notified =
      ground (arith, among, i.counted, i.fair.counted, i.fair.served) in
    (_, Work.returns j at awake)
worker-goes s j (running task) i stopping at on = (_, Work.runs j task at)
worker-goes s j finished i stopping at on = absurd (on refl)

-- Once `Stop` has closed the queue of the pool, each worker that has not ended can itself take a
-- step, in any state that can be reached.
pub stop-progress :
    (n : ℕ) (s : Pool) (j : ℕ) (w : Worker)
    → Runs (init n) s
    → s.main ≢ serving
    → get_elem? s.workers j ≡ some w
    → w ≢ finished
    → (s' : Pool) × Work s j s'
stop-progress n s j w r stopping at on = worker-goes s j w (Runs-IsSound n r) stopping at on

-- In any state that can be reached, a timer that the thread for timers submits to the pool is due,
-- also where timers with earlier deadlines were set while it slept.
pub timers-due :
    (n : ℕ) (s : Pool) (t : Timer)
    → Runs (init n) s
    → s.timer_pc ≡ submitting t
    → t.deadline ≤ s.now
timers-due n s t r e =
    subst (λ (pc : TimerPc). IsTimelyAt pc s.timers.buffer s.now) e (Runs-IsTimely n r)
