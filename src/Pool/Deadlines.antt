-- ===== src/Pool/Deadlines.antt =====
-- The thread for timers of source/runtime/multi_thread/v1/timer_thread.cpp.
use cpp_concurrency.Base.{
  ℕ, ◌+◌, ◌-◌, ◌≤◌, ◌≡◌, refl, sym, subst, inl, inr, Bool, true, false, not, ◌&&◌, Bool-cases,
  Option-cases, arith,
}
use cpp_concurrency.LeftistHeap as LeftistHeap
use cpp_concurrency.LeftistHeap.{Timer, Heap, node}
use cpp_concurrency.LeftistHeap.Order.{RootUntil, push-RootUntil, pop-RootUntil, top-RootUntil}
use cpp_concurrency.Blocking.Timers as Queue
use cpp_concurrency.Blocking.Timers.{
  TimerQueue, Answer, waits, nothing, found, must_wait, test_deadline, test_closest, deadline_of,
  take_closest,
}
use cpp_concurrency.Pool.{
  Pool, TimerPc, asking, waiting, sleeping, fetching, fetching_asleep, lost, submitting, ended,
  after_deadline, after_closest, Work, Submit, Set, Run, Stop, Step, works, is_submitted, is_set,
  times, stops, ticks,
}

-- What the place of the thread says of the heap and the clock. It never waits for a timer that it has seen,
-- and never gets a null pointer.
abbrev pub IsTimelyAt : TimerPc → Heap → ℕ → Type 0
IsTimelyAt (sleeping d) h now = RootUntil d h
IsTimelyAt fetching h now = RootUntil now h
IsTimelyAt (submitting t) h now = t.deadline ≤ now
IsTimelyAt lost h now = ⊥
IsTimelyAt fetching_asleep h now = ⊥
IsTimelyAt other h now = Unit

abbrev pub IsTimely : Pool → Type 0
IsTimely s = IsTimelyAt s.timer_pc s.timers.buffer s.now

RootUntil-mono : (m n : ℕ) (h : Heap) → m ≤ n → RootUntil m h → RootUntil n h
RootUntil-mono m n LeftistHeap.null le r = r
RootUntil-mono m n (node x d l k) le r = omega arith

later-IsTimelyAt :
    (pc : TimerPc) (h : Heap) (m n : ℕ) → m ≤ n → IsTimelyAt pc h m → IsTimelyAt pc h n
later-IsTimelyAt asking h m n le i = tt
later-IsTimelyAt waiting h m n le i = tt
later-IsTimelyAt (sleeping d) h m n le i = i
later-IsTimelyAt fetching h m n le i = RootUntil-mono m n h le i
later-IsTimelyAt fetching_asleep h m n le i = i
later-IsTimelyAt lost h m n le i = i
later-IsTimelyAt (submitting t) h m n le i = omega arith
later-IsTimelyAt ended h m n le i = tt

push-IsTimelyAt :
    (pc : TimerPc) (h : Heap) (now : ℕ) (t : Timer)
    → IsTimelyAt pc h now
    → IsTimelyAt pc (LeftistHeap.push h t) now
push-IsTimelyAt asking h now t i = tt
push-IsTimelyAt waiting h now t i = tt
push-IsTimelyAt (sleeping d) h now t i = push-RootUntil d h t i
push-IsTimelyAt fetching h now t i = push-RootUntil now h t i
push-IsTimelyAt fetching_asleep h now t i = i
push-IsTimelyAt lost h now t i = i
push-IsTimelyAt (submitting u) h now t i = i
push-IsTimelyAt ended h now t i = tt

push-buffer : (t : Timer) (q : TimerQueue) → (Queue.push t q).buffer ≡ LeftistHeap.push q.buffer t
push-buffer t q = ground arith

close-buffer : (q : TimerQueue) → (Queue.close q).buffer ≡ q.buffer
close-buffer q = ground arith

-- What `NearestDeadLine` finds is the deadline of the root.
test_deadline-IsTimelyAt :
    (q : TimerQueue) (now : ℕ)
    → IsTimelyAt (after_deadline (test_deadline q).0) (test_deadline q).1.buffer now
test_deadline-IsTimelyAt q now = elim (Bool-cases (must_wait q)) [
  | inl stuck ↦ rw stuck tt
  | inr go ↦ rw go (elim (Option-cases (LeftistHeap.top q.buffer)) [
    | inl e ↦ rw e tt
    | inr e ↦ rw e.1 (top-RootUntil q.buffer e.0 e.1)
  ])
]

not_empty : (n : ℕ) (h : Heap) → RootUntil n h → LeftistHeap.is_empty h ≡ false
unfolding LeftistHeap.is_empty
not_empty n LeftistHeap.null r = absurd r
not_empty n (node x d l k) r = refl

-- `GetClosestTimer` of a heap whose root is due finds a timer that is due.
test_closest-IsTimelyAt :
    (q : TimerQueue) (now : ℕ)
    → RootUntil now q.buffer
    → IsTimelyAt (after_closest (test_closest q).0) (test_closest q).1.buffer now
test_closest-IsTimelyAt q now r =
    let (t, rest, popped, due) = pop-RootUntil now q.buffer r in
    let go : must_wait q ≡ false = and_false q.is_closed (not_empty now q.buffer r) in
    rw (go, popped) due
  where
    and_false : (b : Bool) {c : Bool} → c ≡ false → (not b && c) ≡ false
    and_false true e = refl
    and_false false e = e

pub Step-IsTimely : {s s' : Pool} → IsTimely s → Step s s' → IsTimely s'
Step-IsTimely i (works (Work.calls_pop j at)) = i
Step-IsTimely i (works (Work.returns j at some_notified)) = i
Step-IsTimely i (works (Work.runs j task at)) = i
Step-IsTimely i (is_submitted (Submit.submits v)) = i
Step-IsTimely i (is_submitted Submit.wakes_for_no_reason) = i
Step-IsTimely {s} i (is_set (Set.sets delay task)) =
    let t : Timer = record { task = task; deadline = s.now + delay } in
    subst (λ (h : Heap). IsTimelyAt s.timer_pc h s.now) (sym (push-buffer t s.timers))
      (push-IsTimelyAt s.timer_pc s.timers.buffer s.now t i)
Step-IsTimely {s} i (times (Run.asks e)) =
    test_deadline-IsTimelyAt (record s.timers { waiting = s.timers.waiting + 1 }) s.now
Step-IsTimely {s} i (times (Run.asks_again e f)) =
    test_deadline-IsTimelyAt (record s.timers { notified = s.timers.notified - 1 }) s.now
Step-IsTimely i (times (Run.wakes_for_no_reason f)) = i
Step-IsTimely {s} i (times (Run.wakes_up d e due)) =
    RootUntil-mono d s.now s.timers.buffer due
      (subst (λ (pc : TimerPc). IsTimelyAt pc s.timers.buffer s.now) e i)
Step-IsTimely {s} i (times (Run.fetches e)) =
    test_closest-IsTimelyAt (record s.timers { waiting = s.timers.waiting + 1 }) s.now
      (subst (λ (pc : TimerPc). IsTimelyAt pc s.timers.buffer s.now) e i)
Step-IsTimely i (times (Run.submits t e)) = tt
Step-IsTimely i (stops (Stop.closes_tasks e)) = i
Step-IsTimely i (stops (Stop.joins e all)) = i
Step-IsTimely {s} i (stops (Stop.closes_timers e)) =
    subst (λ (h : Heap). IsTimelyAt s.timer_pc h s.now) (sym (close-buffer s.timers)) i
Step-IsTimely i (stops (Stop.joins_timer e f)) = i
Step-IsTimely {s} i (ticks instant le) =
    later-IsTimelyAt s.timer_pc s.timers.buffer s.now instant le i
