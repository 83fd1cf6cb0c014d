-- ===== src/Pool/Workers.antt =====
-- The workers of source/runtime/multi_thread/v1/thread_pool.cpp, and the queue that they share.
use cpp_concurrency.Base.{
  ℕ, zero, suc, ◌+◌, ◌-◌, ◌≤◌, ◌<◌, ◌≡◌, ◌≢◌, refl, sym, ap, ◌∙◌, subst, inl, inr, true, false, not,
  ◌&&◌, List, [], ◌∷◌, ◌++◌, append-nil, some, get_elem?, get_elem?-set, set, length, length-append,
  total, total-set, le-total, ltb, is_empty, Bool-cases, List-cases, replicate, arith,
}
use cpp_concurrency.Blocking.{Queue, Popped, waits, nothing, popped, test, close, push, notify_one}
use cpp_concurrency.Blocking.Laws.{
  Trace, move, took, with_popped, pushes, pops, resumes, wakes, closes, IsFair, start-IsFair,
  move-IsFair, pop-nothing,
}
use cpp_concurrency.Pool.{
  Pool, Worker, ready, asleep, finished, running, serving, after_pop, init, Work, Submit, Set, Run,
  Stop, Step, works, is_submitted, is_set, times, stops, ticks,
}

abbrev pub asleep_count : Worker → ℕ
asleep_count asleep = 1
asleep_count other = 0

-- The queue is sound, the sleeping workers are those that wait for it, and it is closed once `Stop` has begun.
-- A worker ends only then, and with every task taken that was pushed before.
pub record IsSound (s : Pool) : Type 0 where
  pub fair : IsFair s.trace
  pub counted : total asleep_count s.workers ≡ s.trace.queue.waiting
  pub unshut : s.main ≡ serving → s.trace.queue.is_closed ≡ false
  pub shut : s.main ≢ serving → s.trace.queue.is_closed ≡ true
  pub marked : s.mark ≤ length s.trace.pushed
  pub drained :
      (j : ℕ)
      → get_elem? s.workers j ≡ some finished
      → (s.trace.queue.is_closed ≡ true) × (s.mark ≤ length s.trace.taken)

-- How the worker and the queue look after the test of `Pop`.
test-counted :
    (q : Queue ℕ)
    → 0 < q.waiting
    → asleep_count (after_pop (test q).0) + q.waiting ≡ (test q).1.waiting + 1
test-counted q pos = elim (Bool-cases (not q.is_closed && is_empty q.buffer)) [
  | inl stuck ↦ rw stuck (omega arith)
  | inr go ↦ rw go (elim (List-cases q.buffer) [
    | inl nil ↦ rw nil (omega arith)
    | inr s ↦ rw (s.split) (omega arith)
  ])
]

test-closed : (q : Queue ℕ) → (test q).1.is_closed ≡ q.is_closed
test-closed q = elim (Bool-cases (not q.is_closed && is_empty q.buffer)) [
  | inl stuck ↦ rw stuck refl
  | inr go ↦
      rw go (elim (List-cases q.buffer) [ inl nil ↦ rw nil refl | inr s ↦ rw (s.split) refl ])
]

finished_of : (r : Popped ℕ) → after_pop r ≡ finished → r ≡ nothing
finished_of waits e = cc
finished_of nothing e = refl
finished_of (popped v) e = cc

taken-le : (r : Popped ℕ) (vs : List ℕ) → length vs ≤ length (with_popped r vs)
taken-le waits vs = omega arith
taken-le nothing vs = omega arith
taken-le (popped v) vs = omega (arith, length-append vs (v ∷ []))

-- With an empty queue, all that was pushed has been taken.
all_taken : (t : Trace ℕ) → IsFair t → t.queue.buffer ≡ [] → length t.taken ≡ length t.pushed
all_taken t f e =
    ap length (sym (append-nil t.taken) ∙ ap (λ (vs : List ℕ). t.taken ++ vs) (sym e) ∙ f.in_order)

-- A worker calls `Pop`, or goes on with it, from the queue `q`, where it counts as one of those that wait.
module _ (s : Pool) (i : IsSound s) (j : ℕ) (before : Worker)
    (at : get_elem? s.workers j ≡ some before) (q : Queue ℕ) (t : Trace ℕ)
    (same : t ≡ took s.trace (test q)) (fair : IsFair t) where
  tests-IsSound :
      0 < q.waiting
      → q.waiting + asleep_count before ≡ s.trace.queue.waiting + 1
      → q.is_closed ≡ s.trace.queue.is_closed
      → ((test q).0 ≡ nothing → (q.is_closed ≡ true) × (s.trace.queue.buffer ≡ []))
      → IsSound (record s { trace = t; workers = set s.workers j (after_pop (test q).0) })
  tests-IsSound pos one closed ends = rw same (record {
    fair = subst IsFair same fair;
    counted = omega (
      arith,
      i.counted,
      test-counted q pos,
      total-set asleep_count s.workers j before (after_pop (test q).0) at,
    );
    unshut = λ e. test-closed q ∙ closed ∙ i.unshut e;
    shut = λ e. test-closed q ∙ closed ∙ i.shut e;
    marked = i.marked;
    drained = λ k e. elim (get_elem?-set s.workers j (after_pop (test q).0) k finished e) [
      | inl m ↦
          let over = finished_of (test q).0 (sym m.1) in
          let (shut, empty) = ends over in
          let grown = taken-le (test q).0 s.trace.taken in
          (test-closed q ∙ shut, omega (arith, all_taken s.trace i.fair empty, i.marked, grown))
      | inr m ↦
          let old = i.drained k m.1 in
          let grown = taken-le (test q).0 s.trace.taken in
          (test-closed q ∙ closed ∙ old.0, omega (arith, old.1, grown))
    ];
  })

push-waiting :
    (v : ℕ) (q : Queue ℕ) → ((push v q).waiting ≡ q.waiting) × ((push v q).is_closed ≡ q.is_closed)
push-waiting v q = (ground arith, ground arith)

notify_one-waiting :
    (q : Queue ℕ) → ((notify_one q).waiting ≡ q.waiting) × ((notify_one q).is_closed ≡ q.is_closed)
notify_one-waiting q = (ground arith, ground arith)

close-waiting : (q : Queue ℕ) → ((close q).waiting ≡ q.waiting) × ((close q).is_closed ≡ true)
close-waiting q = (ground arith, ground arith)

module _ (s : Pool) (i : IsSound s) where
  -- A step that has nothing to do with the tasks and the workers.
  frames-IsSound :
      (s' : Pool)
      → s'.trace ≡ s.trace
      → s'.workers ≡ s.workers
      → s'.mark ≡ s.mark
      → (s'.main ≡ serving → s.main ≡ serving)
      → (s'.main ≢ serving → s.main ≢ serving)
      → IsSound s'
  frames-IsSound s' e f g back forth = record {
    fair = rw e i.fair;
    counted = rw (e, f) i.counted;
    unshut = λ h. rw e (i.unshut (back h));
    shut = λ h. rw e (i.shut (forth h));
    marked = rw (e, g) i.marked;
    drained = λ k h. rw (e, g) (i.drained k (rw f at h));
  }

  -- A task comes in.
  pushes-IsSound :
      (v : ℕ) (s' : Pool)
      → s'.trace ≡ move (pushes v) s.trace
      → s'.workers ≡ s.workers
      → s'.mark ≡ s.mark
      → s'.main ≡ s.main
      → IsSound s'
  pushes-IsSound v s' e f g h =
      let same = push-waiting v s.trace.queue in
      let longer = length-append s.trace.pushed (v ∷ []) in
      record {
        fair = rw e (move-IsFair (pushes v) s.trace i.fair);
        counted = rw (e, f) (i.counted ∙ sym same.0);
        unshut = λ x. rw e (same.1 ∙ i.unshut (sym h ∙ x));
        shut = λ x. rw e (same.1 ∙ i.shut (λ y. x (h ∙ y)));
        marked = rw (e, g) (omega (arith, i.marked, longer));
        drained = λ k x.
            let old =
              i.drained k (subst (λ (l : List Worker). get_elem? l k ≡ some finished) f x) in
            rw (e, g) (same.1 ∙ old.0, old.1);
      }

  pub Work-IsSound : {j : ℕ} {s' : Pool} → Work s j s' → IsSound s'
  Work-IsSound (Work.calls_pop j at) =
      let q : Queue ℕ = record s.trace.queue { waiting = s.trace.queue.waiting + 1 } in
      tests-IsSound s i j ready at q (move pops s.trace) refl (move-IsFair pops s.trace i.fair)
        (omega arith) (omega arith) refl (pop-nothing s.trace.queue).0
  Work-IsSound (Work.returns j at some_notified) =
      let q : Queue ℕ = record s.trace.queue { notified = s.trace.queue.notified - 1 } in
      let yes : ltb 0 s.trace.queue.notified ≡ true = ground arith in
      let same : move resumes s.trace ≡ took s.trace (test q) = rw yes refl in
      let among = le-total asleep_count s.workers j asleep at in
      tests-IsSound s i j asleep at q (move resumes s.trace) same
        (move-IsFair resumes s.trace i.fair) (omega (arith, among, i.counted)) refl refl
        (pop-nothing s.trace.queue).1
  Work-IsSound (Work.runs j task at) = record {
    fair = i.fair;
    counted = omega (arith, i.counted, total-set asleep_count s.workers j (running task) ready at);
    unshut = i.unshut;
    shut = i.shut;
    marked = i.marked;
    drained = λ k e. elim (get_elem?-set s.workers j ready k finished e) [
      | inl m ↦ cc
      | inr m ↦ i.drained k m.1
    ];
  }

  pub Submit-IsSound : {s' : Pool} → Submit s s' → IsSound s'
  Submit-IsSound (Submit.submits v) = pushes-IsSound v _ refl refl refl refl
  Submit-IsSound Submit.wakes_for_no_reason =
      let same = notify_one-waiting s.trace.queue in
      record {
        fair = move-IsFair wakes s.trace i.fair;
        counted = i.counted ∙ sym same.0;
        unshut = λ e. same.1 ∙ i.unshut e;
        shut = λ e. same.1 ∙ i.shut e;
        marked = i.marked;
        drained = λ k e. (same.1 ∙ (i.drained k e).0, (i.drained k e).1);
      }

  pub Set-IsSound : {s' : Pool} → Set s s' → IsSound s'
  Set-IsSound (Set.sets delay task) = frames-IsSound _ refl refl refl (λ h. h) (λ h. h)

  pub Run-IsSound : {s' : Pool} → Run s s' → IsSound s'
  Run-IsSound (Run.asks e) = frames-IsSound _ refl refl refl (λ h. h) (λ h. h)
  Run-IsSound (Run.wakes_for_no_reason f) = frames-IsSound _ refl refl refl (λ h. h) (λ h. h)
  Run-IsSound (Run.asks_again e f) = frames-IsSound _ refl refl refl (λ h. h) (λ h. h)
  Run-IsSound (Run.wakes_up d e f) = frames-IsSound _ refl refl refl (λ h. h) (λ h. h)
  Run-IsSound (Run.fetches e) = frames-IsSound _ refl refl refl (λ h. h) (λ h. h)
  Run-IsSound (Run.submits t e) = pushes-IsSound t.task _ refl refl refl refl

  pub Stop-IsSound : {s' : Pool} → Stop s s' → IsSound s'
  Stop-IsSound (Stop.closes_tasks e) =
      let same = close-waiting s.trace.queue in
      record {
        fair = move-IsFair closes s.trace i.fair;
        counted = i.counted ∙ sym same.0;
        unshut = λ h. cc;
        shut = λ h. same.1;
        marked = omega arith;
        drained = λ k h. absurd (cc ((i.drained k h).0, i.unshut e));
      }
  Stop-IsSound (Stop.joins e all) = frames-IsSound _ refl refl refl (λ h. cc) (λ h f. cc)
  Stop-IsSound (Stop.closes_timers e) = frames-IsSound _ refl refl refl (λ h. cc) (λ h f. cc)
  Stop-IsSound (Stop.joins_timer e f) = frames-IsSound _ refl refl refl (λ h. cc) (λ h f. cc)

pub Step-IsSound : {s s' : Pool} → IsSound s → Step s s' → IsSound s'
Step-IsSound {s} i (works m) = Work-IsSound s i m
Step-IsSound {s} i (is_submitted m) = Submit-IsSound s i m
Step-IsSound {s} i (is_set m) = Set-IsSound s i m
Step-IsSound {s} i (times m) = Run-IsSound s i m
Step-IsSound {s} i (stops m) = Stop-IsSound s i m
Step-IsSound {s} i (ticks instant h) = frames-IsSound s i _ refl refl refl (λ h. h) (λ h. h)

none_asleep : (n : ℕ) → total asleep_count (replicate n ready) ≡ 0
none_asleep zero = refl
none_asleep (suc n) = omega (arith, none_asleep n)

none_finished : (n j : ℕ) → get_elem? (replicate n ready) j ≢ some finished
none_finished zero j e = cc
none_finished (suc n) zero e = cc
none_finished (suc n) (suc j) e = none_finished n j e

pub init-IsSound : (n : ℕ) → IsSound (init n)
init-IsSound n = record {
  fair = start-IsFair;
  counted = none_asleep n;
  unshut = λ h. refl;
  shut = λ h. absurd (h refl);
  marked = omega arith;
  drained = λ j e. absurd (none_finished n j e);
}
