-- ===== src/RunLoop/Laws.antt =====
-- What `GetTask` of source/runtime/run_loop/runtime.cpp picks when a timer is due.
use cpp_concurrency.Base.{ℕ, ◌≤◌, ◌≡◌, refl, sym, ap, true, some, arith, leb, All, subst}
use cpp_concurrency.LeftistHeap
use cpp_concurrency.LeftistHeap.{Timer, Heap, to_list}
use cpp_concurrency.LeftistHeap.Order.{IsOrdered, pop-earliest, pop-IsOrdered, top-pop}
use cpp_concurrency.RunLoop.{Runtime, Turn, timer, turn}

-- When the top timer of an ordered heap is due, `GetTask` of the run loop returns it; no timer is
-- due earlier, what is left is ordered, and the tasks are not touched.
pub turn-due :
    (now : ℕ) (s : Runtime) (t : Timer)
    → IsOrdered s.timers
    → LeftistHeap.top s.timers ≡ some t
    → t.deadline ≤ now
    → ((turn now s).0 ≡ timer t)
      × All (λ u. t.deadline ≤ u.deadline) (to_list s.timers)
      × IsOrdered (turn now s).1.timers
      × ((turn now s).1.tasks ≡ s.tasks)
turn-due now s t o root due =
    let (rest, e) = top-pop s.timers t root in
    let early : leb t.deadline now ≡ true = ground arith in
    let run : turn now s ≡ (timer t, record s { timers = rest }) = rw (root, early, e) refl in
    (
      ap (λ r. r.0) run,
      pop-earliest s.timers t rest e o,
      subst (λ (r : Turn × Runtime). IsOrdered r.1.timers) (sym run)
          (pop-IsOrdered s.timers t rest e o).0,
      ap (λ r. r.1.tasks) run,
    )
