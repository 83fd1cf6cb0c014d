-- ===== src/Ws/Tests.antt =====
-- Small runs of source/runtime/multi_thread/v2/ws.
use cpp_concurrency.Base.{
  ℕ, ◌+◌, ◌%◌, ◌^◌, ◌≤◌, ◌≡◌, ◌≢◌, ◌++◌, refl, true, false, Option, none, some, List, [], ◌∷◌,
  arith, length, SameItems,
}
use cpp_concurrency.Ws.StealingQueue.{
  update, System, owner_moves, taker_moves, Reach, start, later, load_tail, load_head, store,
  publish, pop_start, pop_tail, pop_load, pop_win, resting, pop_head, pop_both, pop_read, free,
}
use cpp_concurrency.Ws.StealingQueue.Safety.{waiting, Reach-prefix}
use cpp_concurrency.Ws.Coordinator
use cpp_concurrency.Ws.Coordinator.Laws.{
  Call, adds, unlinks, calls, call, notify_on_submit-wakes, rounds, rounds-drift,
}
use cpp_concurrency.Ws.Worker.{next, Worker, Pool, parked, submit, pick_task}
use cpp_concurrency.Ws.Worker.Counting.{tasks, task_of}
use cpp_concurrency.Ws.Worker.Tasks.{submit-SameItems, pick_task-SameItems}
use cpp_concurrency.Ws.Worker.Picking.{IsParked, pick_task-parked}

-- The state when the task 7 has been pushed to a queue of capacity 2, and popped by the thread 0.
abbrev pushed_and_popped : System ℕ
pushed_and_popped = record {
  queue = record {
    buffer = update (λ _. 0) 0 7;
    head = 1;
    tail = 1;
    pushed = 7 ∷ [];
    taken = 7 ∷ [];
  };
  owner = free;
  takers =
      update
        (update (update (update (λ _. resting) 0 (pop_head 0)) 0 (pop_both 0 1)) 0 (pop_read 0 7)) 0
        resting;
}

reached : Reach 2 0 8 pushed_and_popped
reached =
    later
      (later
        (later
          (later
            (later
              (later (later (later start (owner_moves (load_tail 7))) (owner_moves load_head))
                (owner_moves (store (omega arith))))
              (owner_moves publish))
            (taker_moves 0 pop_start))
          (taker_moves 0 pop_tail))
        (taker_moves 0 (pop_load (omega arith))))
      (taker_moves 0 (pop_win refl))

Reach-prefix_example :
    (pushed_and_popped.queue.pushed
      ≡ pushed_and_popped.queue.taken ++ waiting pushed_and_popped.queue)
    × (length (waiting pushed_and_popped.queue) ≤ 2)
Reach-prefix_example = Reach-prefix 2 0 8 (omega arith) (omega arith) reached

-- Six calls on a coordinator, after which the workers 2 and 3 are in the list.
abbrev six_calls : List Call
six_calls = adds 1 ∷ adds 2 ∷ adds 1 ∷ unlinks 1 ∷ adds 3 ∷ unlinks 4 ∷ []

two_stopped : (calls six_calls Coordinator.init).stopped ≡ 2 ∷ 3 ∷ []
unfolding calls call Coordinator.add_stopped Coordinator.unlink Coordinator.is_linked
    Coordinator.without
two_stopped = refl

notify_on_submit-wakes_example :
    ((Coordinator.notify_on_submit (calls six_calls Coordinator.init)).stopped ≡ 3 ∷ [])
    × ((Coordinator.notify_on_submit (calls six_calls Coordinator.init)).wakeups 2
        ≡ ((calls six_calls Coordinator.init).wakeups 2 + 1) % 2 ^ 32)
    × ((v : ℕ)
        → v ≢ 2
        → (Coordinator.notify_on_submit (calls six_calls Coordinator.init)).wakeups v
          ≡ (calls six_calls Coordinator.init).wakeups v)
notify_on_submit-wakes_example =
    notify_on_submit-wakes six_calls 2 (3 ∷ []) (omega arith) two_stopped

rounds-drift_example :
    calls (rounds 3 5) Coordinator.init ≡ record Coordinator.init { approximate_size = 5 }
rounds-drift_example = rounds-drift 3 5 (omega arith)

-- A worker with the given tasks in its queue and its slot.
abbrev worker : ℕ → List ℕ → Option ℕ → ℕ → Worker ℕ
worker index tasks slot chain = record {
  index = index;
  local_queue = tasks;
  lifo_slot = slot;
  filo_chain = chain;
  iter = 60;
  has_stopped = false;
}

abbrev busy : Pool ℕ
busy = record {
  global_queue = 10 ∷ 11 ∷ [];
  coordinator = Coordinator.init;
  before = worker 0 (12 ∷ []) none 0 ∷ [];
  self = worker 1 (13 ∷ 14 ∷ []) (some 15) 16;
  after = [];
}

abbrev quiet : Pool ℕ
quiet = record {
  global_queue = [];
  coordinator = Coordinator.init;
  before = worker 0 [] (some 12) 0 ∷ [];
  self = worker 1 [] none 3;
  after = worker 2 [] none 0 ∷ [];
}

quiet_parks : (pick_task 7 quiet).0 ≡ parked 0
unfolding pick_task
quiet_parks = refl

submit-SameItems_example : SameItems (tasks (submit 2 true next 20 busy)) (20 ∷ tasks busy)
submit-SameItems_example = submit-SameItems 2 true next 20 busy

pick_task-SameItems_example :
    SameItems (task_of (pick_task 7 busy).0 ++ tasks (pick_task 7 busy).1) (tasks busy)
pick_task-SameItems_example = pick_task-SameItems 7 busy

pick_task-parked_example : IsParked (pick_task 7 quiet).1
pick_task-parked_example = pick_task-parked 7 0 quiet quiet_parks
