-- ===== src/RunLoop/Blocked.antt =====
-- What wakes a thread that source/runtime/run_loop/runtime.cpp has blocked in `GetTask`.
use cpp_concurrency.Base.{
  ℕ, ◌+◌, ◌≤◌, ◌<◌, ◌≡◌, refl, ap, ◌∙◌, Bool, true, false, some, List, [], ◌∷◌, ltb, leb, arith,
}
use cpp_concurrency.LeftistHeap
use cpp_concurrency.LeftistHeap.{Timer, Heap, node}
use cpp_concurrency.LeftistHeap.Order.{RootUntil, push-RootUntil, top-RootUntil}
use cpp_concurrency.RunLoop.{
  Runtime, blocks, turn, set, submit, stop, is_due, deadline_of, try_nearest_deadline,
}

-- What other threads do to the runtime meanwhile. `now` is what the clock shows to `Set`.
pub data Call : Type 0 where
  sets : (now delay work : ℕ) → Call
  submits : (work : ℕ) → Call
  stops : Call

abbrev pub perform : Call → Runtime → Runtime
perform (sets now delay work) s = set now delay work s
perform (submits work) s = submit work s
perform stops s = stop s

abbrev pub perform_all : List Call → Runtime → Runtime
perform_all [] s = s
perform_all (c ∷ cs) s = perform_all cs (perform c s)

-- Whether there is a call of `Submit` or `Stop`.
abbrev pub has_wake : List Call → Bool
has_wake [] = false
has_wake (sets now delay work ∷ cs) = has_wake cs
has_wake (c ∷ cs) = true

perform-notified :
    (c : Call) (s : Runtime) → 0 < s.tasks.notified → 0 < (perform c s).tasks.notified
perform-notified (sets now delay work) s pos = pos
perform-notified (submits work) s pos = ground arith
perform-notified stops s pos = ground arith

stays_notified :
    (cs : List Call) (s : Runtime)
    → 0 < s.tasks.notified
    → ltb 0 (perform_all cs s).tasks.notified ≡ true
stays_notified [] s pos = ground arith
stays_notified (c ∷ cs) s pos = stays_notified cs (perform c s) (perform-notified c s pos)

notified_by :
    (cs : List Call) (s : Runtime)
    → 0 < s.tasks.waiting
    → 0 < s.tasks.blocked
    → s.tasks.notified ≡ 0
    → ltb 0 (perform_all cs s).tasks.notified ≡ has_wake cs
notified_by [] s w b n = ground arith
notified_by (sets now delay work ∷ cs) s w b n = notified_by cs (set now delay work s) w b n
notified_by (submits work ∷ cs) s w b n = stays_notified cs (submit work s) (ground arith)
notified_by (stops ∷ cs) s w b n = stays_notified cs (stop s) (ground arith)

perform_all-RootUntil :
    (d : ℕ) (cs : List Call) (s : Runtime)
    → RootUntil d s.timers
    → RootUntil d (perform_all cs s).timers
perform_all-RootUntil d [] s r = r
perform_all-RootUntil d (sets now delay work ∷ cs) s r =
    perform_all-RootUntil d cs (set now delay work s) (push-RootUntil d s.timers _ r)
perform_all-RootUntil d (submits work ∷ cs) s r = perform_all-RootUntil d cs (submit work s) r
perform_all-RootUntil d (stops ∷ cs) s r = perform_all-RootUntil d cs (stop s) r

RootUntil-is_due :
    (d later : ℕ) (h : Heap)
    → RootUntil d h
    → d ≤ later
    → is_due later (deadline_of (LeftistHeap.top h)) ≡ true
unfolding LeftistHeap.top
RootUntil-is_due d later LeftistHeap.null r le = absurd r
RootUntil-is_due d later (node x k l m) r le = ground arith

-- When the top timer is not due, no task is there, the task queue is open and no thread in it is
-- notified, `GetTask` of the run loop blocks. After any calls that others then make, without wake-
-- ups for no reason, a thread in the queue is notified exactly if `Submit` or `Stop` is among them,
-- although from the deadline on a timer is due, which `GetTask` tests for first.
pub blocked-sleeps :
    (now later : ℕ) (s : Runtime) (t : Timer) (cs : List Call)
    → LeftistHeap.top s.timers ≡ some t
    → now < t.deadline
    → t.deadline ≤ later
    → s.tasks.buffer ≡ []
    → s.tasks.is_closed ≡ false
    → s.tasks.notified ≡ 0
    → ((turn now s).0 ≡ blocks)
      × (ltb 0 (perform_all cs (turn now s).1).tasks.notified ≡ has_wake cs)
      × (is_due later (try_nearest_deadline (perform_all cs (turn now s).1)) ≡ true)
blocked-sleeps now later s t cs root ahead due empty opened idle =
    let late : leb t.deadline now ≡ false = ground arith in
    let after : Runtime = record s {
      tasks = record s.tasks { waiting = s.tasks.waiting + 1; blocked = s.tasks.blocked + 1 };
    } in
    let run : turn now s ≡ (blocks, after) = rw (root, late, empty, opened) refl in
    let awake = notified_by cs after (omega arith) (omega arith) idle in
    let ripe =
      RootUntil-is_due t.deadline later (perform_all cs after).timers
        (perform_all-RootUntil t.deadline cs after (top-RootUntil s.timers t root)) due in
    (
      ap (λ r. r.0) run,
      ap (λ r. ltb 0 (perform_all cs r.1).tasks.notified) run ∙ awake,
      ap (λ r. is_due later (try_nearest_deadline (perform_all cs r.1))) run ∙ ripe,
    )
