-- ===== src/Pool/Ran.antt =====
-- The tasks that the workers of source/runtime/multi_thread/v1/thread_pool.cpp have run.
use cpp_concurrency.Base.{
  ℕ, zero, suc, ◌+◌, ◌≡◌, refl, ap, Bool, true, List, [], ◌∷◌, total, total-set, tally,
  tally-append, bit, ltb, replicate, arith,
}
use cpp_concurrency.Blocking.{Popped, waits, nothing, popped, pop, resume}
use cpp_concurrency.Blocking.Laws.{Trace, move, took, with_popped, resumes}
use cpp_concurrency.Pool.{
  Pool, Worker, ready, asleep, running, after_pop, init, Work, Submit, Set, Run, Stop, Step, works,
  is_submitted, is_set, times, stops, ticks,
}

-- The tasks that a worker has in hand.
abbrev pub in_hand : (ℕ → Bool) → Worker → ℕ
in_hand p (running task) = bit (p task)
in_hand p other = 0

-- Every task that was taken has been run or is in hand, as often as it was taken.
abbrev pub IsAccounted : Pool → Type 0
IsAccounted s = (p : ℕ → Bool) → tally p s.ran + total (in_hand p) s.workers ≡ tally p s.trace.taken

with_popped-tally :
    (p : ℕ → Bool) (r : Popped ℕ) (vs : List ℕ)
    → tally p (with_popped r vs) ≡ tally p vs + in_hand p (after_pop r)
with_popped-tally p waits vs = omega arith
with_popped-tally p nothing vs = omega arith
with_popped-tally p (popped v) vs = omega (arith, tally-append p vs (v ∷ []))

pub Step-IsAccounted : {s s' : Pool} → IsAccounted s → Step s s' → IsAccounted s'
Step-IsAccounted {s} i (works (Work.calls_pop j at)) p =
    let r = (pop s.trace.queue).0 in
    omega (
      arith,
      i p,
      total-set (in_hand p) s.workers j ready (after_pop r) at,
      with_popped-tally p r s.trace.taken,
    )
Step-IsAccounted {s} i (works (Work.returns j at some_notified)) p =
    let r = (resume s.trace.queue).0 in
    let yes : ltb 0 s.trace.queue.notified ≡ true = ground arith in
    let same : move resumes s.trace ≡ took s.trace (resume s.trace.queue) = rw yes refl in
    let taken = ap (λ (t : Trace ℕ). tally p t.taken) same in
    omega (
      arith,
      i p,
      taken,
      total-set (in_hand p) s.workers j asleep (after_pop r) at,
      with_popped-tally p r s.trace.taken,
    )
Step-IsAccounted {s} i (works (Work.runs j task at)) p = omega (
  arith,
  i p,
  total-set (in_hand p) s.workers j (running task) ready at,
  tally-append p s.ran (task ∷ []),
)
Step-IsAccounted i (is_submitted (Submit.submits v)) p = i p
Step-IsAccounted i (is_submitted Submit.wakes_for_no_reason) p = i p
Step-IsAccounted i (is_set (Set.sets delay task)) p = i p
Step-IsAccounted i (times (Run.asks e)) p = i p
Step-IsAccounted i (times (Run.wakes_for_no_reason f)) p = i p
Step-IsAccounted i (times (Run.asks_again e f)) p = i p
Step-IsAccounted i (times (Run.wakes_up d e f)) p = i p
Step-IsAccounted i (times (Run.fetches e)) p = i p
Step-IsAccounted i (times (Run.submits t e)) p = i p
Step-IsAccounted i (stops (Stop.closes_tasks e)) p = i p
Step-IsAccounted i (stops (Stop.joins e all)) p = i p
Step-IsAccounted i (stops (Stop.closes_timers e)) p = i p
Step-IsAccounted i (stops (Stop.joins_timer e f)) p = i p
Step-IsAccounted i (ticks instant h) p = i p

none_in_hand : (p : ℕ → Bool) (n : ℕ) → total (in_hand p) (replicate n ready) ≡ 0
none_in_hand p zero = refl
none_in_hand p (suc n) = omega (arith, none_in_hand p n)

pub init-IsAccounted : (n : ℕ) → IsAccounted (init n)
init-IsAccounted n p = omega (arith, none_in_hand p n)
