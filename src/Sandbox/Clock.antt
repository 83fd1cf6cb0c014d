-- ===== src/Sandbox/Clock.antt =====
-- Virtual time in source/runtime/sandbox/runtime.cpp: what moves to the task queue, and when.
use mathlib.Core.List.{append-nil, append_assoc}
use cpp_concurrency.Base.{
  ℕ, ◌+◌, ◌≤◌, ◌<◌, ◌≡◌, refl, Bool, false, some, List, [], ◌∷◌, ◌++◌, map, arith, leb, All-imp,
  tally, tally-append, tally-le-length, tally-none, length,
}
use cpp_concurrency.LeftistHeap
use cpp_concurrency.LeftistHeap.{Timer, Heap, to_list, size, pop, node, null}
use cpp_concurrency.LeftistHeap.Order.{
  IsOrdered, RootFrom, RootFrom-top, All-RootFrom, push-IsOrdered, push-RootFrom, top-some,
}
use cpp_concurrency.LeftistHeap.Balance.{IsLeftist, push-IsLeftist}
use cpp_concurrency.Sandbox.{
  Runtime, Runnable, timed, init, submit, set, set_timer, submit_all, move_ready, advance_by,
  advance_to, next_deadline, advance_clock_by, advance_clock_to_next, pop_ready,
}
use cpp_concurrency.Sandbox.Ready.{IsSplit, pop_ready-IsSplit, pop_ready-now}

-- A heap in order, of leftist shape, with nothing in it that was due before now.
pub record IsValid (s : Runtime) : Type 0 where
  pub ordered : IsOrdered s.timers
  pub leftist : IsLeftist s.timers
  pub current : RootFrom s.now s.timers

pub init-IsValid : IsValid init
unfolding init
init-IsValid = record { ordered = tt; leftist = tt; current = tt }

pub submit-IsValid : (t : Runnable) (s : Runtime) → IsValid s → IsValid (submit t s)
unfolding submit
submit-IsValid t s v = record { ordered = v.ordered; leftist = v.leftist; current = v.current }

-- Setting a timer keeps a runtime valid.
pub set-IsValid : (delay task : ℕ) (s : Runtime) → IsValid s → IsValid (set delay task s)
unfolding set set_timer
set-IsValid delay task s v = record {
  ordered = push-IsOrdered s.timers _ v.ordered;
  leftist = push-IsLeftist s.timers _ v.leftist;
  current = push-RootFrom s.now s.timers _ v.current (omega arith);
}

submit_all_lem :
    (res : ℕ) (ready : List Timer) (s : Runtime)
    → submit_all res ready s ≡ (record s { tasks = s.tasks ++ map timed ready }, res + length ready)
unfolding submit_all submit
submit_all_lem res [] s = ground (arith, append-nil s.tasks)
submit_all_lem res (t ∷ ready) s = ground (
  arith,
  submit_all_lem (res + 1) ready (submit (timed t) s),
  append_assoc s.tasks (timed t ∷ []) (map timed ready),
)

-- How the runtime changes when the clock moves to `now`: the timers that are due then move to the
-- end of the task queue, the earliest first, and are counted; the others stay.
pub record IsMoved (now : ℕ) (s : Runtime) (r : Runtime × ℕ) : Type 0 where
  pub ready : List Timer
  pub moved : (r.0).tasks ≡ s.tasks ++ map timed ready
  pub counted : r.1 ≡ length ready
  pub split : IsSplit now 0 s.timers (ready, (r.0).timers)
  pub clock : (r.0).now ≡ now

move_ready-IsMoved :
    (s : Runtime) → IsOrdered s.timers → IsLeftist s.timers → IsMoved s.now s (move_ready s)
unfolding move_ready
move_ready-IsMoved s o l = rw (submit_all_lem 0 (pop_ready s.queue).0) (record {
  ready = (pop_ready s.queue).0;
  moved = refl;
  counted = omega arith;
  split = pop_ready-IsSplit s.queue o l;
  clock = pop_ready-now s.queue;
})

IsMoved-IsValid : {now : ℕ} {s : Runtime} {r : Runtime × ℕ} → IsMoved now s r → IsValid r.0
IsMoved-IsValid {now} {s} {r} m = record {
  ordered = m.split.ordered;
  leftist = m.split.leftist;
  current = All-RootFrom (r.0).now (r.0).timers (
      All-imp (λ t. now < t.deadline) (λ t. (r.0).now ≤ t.deadline) (to_list (r.0).timers)
        (λ t h. omega (arith, m.clock)) m.split.later);
}

-- Setting the clock beforehand changes neither the tasks nor the timers.
IsMoved-clock :
    {now : ℕ} {s : Runtime} {r : Runtime × ℕ} (n : ℕ)
    → IsMoved now (record s { queue = record s.queue { now = n } }) r
    → IsMoved now s r
IsMoved-clock n m = record {
  ready = m.ready;
  moved = m.moved;
  counted = m.counted;
  split = m.split;
  clock = m.clock;
}

move_at :
    (now : ℕ) (s : Runtime)
    → IsValid s
    → IsMoved now s (move_ready (record s { queue = record s.queue { now = now } }))
move_at now s v =
    IsMoved-clock now
      (move_ready-IsMoved (record s { queue = record s.queue { now = now } }) v.ordered v.leftist)

-- In a valid runtime, `AdvanceClockBy` moves the clock by the given time, and exactly the timers
-- due by then to the end of the task queue, the earliest first; it returns their number.
pub advance_clock_by-IsMoved :
    (delta : ℕ) (s : Runtime) → IsValid s → IsMoved (s.now + delta) s (advance_clock_by delta s)
unfolding advance_clock_by advance_by
advance_clock_by-IsMoved delta s v = move_at (s.now + delta) s v

-- Advancing the clock keeps a runtime valid: no timer that was due stays behind.
pub advance_clock_by-IsValid :
    (delta : ℕ) (s : Runtime) → IsValid s → IsValid (advance_clock_by delta s).0
advance_clock_by-IsValid delta s v = IsMoved-IsValid (advance_clock_by-IsMoved delta s v)

IsMoved-progress :
    {s : Runtime} {r : Runtime × ℕ} (d : ℕ)
    → 0 < tally (λ x. leb x.deadline d) (to_list s.timers)
    → IsMoved d s r
    → 0 < r.1
IsMoved-progress {s} {r} d some_due m = omega (
  arith,
  m.counted,
  m.split.same p,
  tally-append p m.ready rest,
  tally-le-length p m.ready,
  tally-none p rest
      (All-imp (λ t. d < t.deadline) (λ t. p t ≡ false) rest (λ t h. ground arith) m.split.later),
)
  where
    p : Timer → Bool
    p x = leb x.deadline d

    rest : List Timer
    rest = to_list (r.0).timers

advance_clock_to_next-some :
    (s : Runtime) (t : Timer)
    → LeftistHeap.top s.timers ≡ some t
    → s.now ≤ t.deadline
    → advance_clock_to_next s
      ≡ some (move_ready (record s { queue = record s.queue { now = t.deadline } }))
unfolding advance_clock_to_next next_deadline advance_to
advance_clock_to_next-some s t e le = ground arith

-- In a valid runtime with a timer set, `AdvanceClockToNextDeadline` does not fail its assertion:
-- the clock moves forward to the earliest deadline, exactly the timers due by then move to the end
-- of the task queue, the earliest first, and there is at least one of them.
pub advance_clock_to_next-IsMoved :
    (s : Runtime)
    → IsValid s
    → LeftistHeap.is_empty s.timers ≡ false
    → (t : Timer) × (r : Runtime × ℕ) × (LeftistHeap.top s.timers ≡ some t)
      × (advance_clock_to_next s ≡ some r)
      × (s.now ≤ t.deadline)
      × IsMoved t.deadline s r
      × (0 < r.1)
advance_clock_to_next-IsMoved s v e =
    let (t, root, due) = top-some s.timers e in
    let reached : s.now ≤ t.deadline = RootFrom-top s.now s.timers t root v.current in
    let moved : IsMoved t.deadline s
        (move_ready (record s { queue = record s.queue { now = t.deadline } })) =
      move_at t.deadline s v in
    (
      t,
      _,
      root,
      advance_clock_to_next-some s t root reached,
      reached,
      moved,
      IsMoved-progress t.deadline due moved,
    )
