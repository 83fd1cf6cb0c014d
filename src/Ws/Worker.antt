-- ===== src/Ws/Worker.antt =====
-- source/runtime/multi_thread/v2/ws/worker.cpp and thread_pool.cpp: how a worker takes in tasks and
-- picks the next one. A call is modelled as if no other worker ran meanwhile, and the local queue as
-- the bounded list that `StealingQueue` implements.
pub mod Counting
pub mod Tasks
pub mod Idle
pub mod Picking
use cpp_concurrency.Base.{
  ℕ, zero, suc, ◌+◌, ◌/◌, ◌-◌, ◌%◌, ◌^◌, Bool, true, false, Option, none, some, List, [], ◌∷◌, ◌++◌,
  ltb, leb, ◌==◌, if◌then◌else◌, length,
}
use cpp_concurrency.Ws.GlobalQueue.{push_one, push_many, try_pop_one, grab}
use cpp_concurrency.Ws.Coordinator.{
  Coordinator, add_stopped, add_spinning, remove_spinning, unlink, notify_on_submit, wake,
}

-- `SchedulingHint`
pub data SchedulingHint : Type 0 where
  up_to_you next yield : SchedulingHint

-- The part of a `Worker` that holds tasks, and its counters.
pub record Worker {ℓ} (A : Type ℓ) : Type ℓ where
  pub index : ℕ
  pub local_queue : List A
  pub lifo_slot : Option A
  pub filo_chain : ℕ
  pub iter : ℕ
  pub has_stopped : Bool

-- A `ThreadPool`, seen from one of its workers: `workers_` is `before`, that worker, and `after`.
pub record Pool {ℓ} (A : Type ℓ) : Type ℓ where
  pub global_queue : List A
  pub coordinator : Coordinator
  pub before : List (Worker A)
  pub self : Worker A
  pub after : List (Worker A)

-- How a round of the loop of `PickTask` ends: with a task, at the null pointer of a worker that has
-- been stopped, or at the futex, where the worker waits for `wakeups_` to differ from `expected`.
pub data Picked {ℓ} (A : Type ℓ) : Type ℓ where
  picked : (task : A) → Picked A
  stopped : Picked A
  parked : (expected : ℕ) → Picked A

-- `kGrabAmount`, and `kFILOMaxChain`.
abbrev pub grab_amount : ℕ → ℕ
grab_amount capacity = if ltb 1 (capacity / 2) then capacity / 2 else 1

abbrev pub filo_max_chain : ℕ
filo_max_chain = 16

module _ {ℓ} {A : Type ℓ} (capacity : ℕ) where
  -- `host_.global_queue_.PushMany`, then `NotifyOnSubmit`.
  abbrev pub submit_many : List A → Pool A → Pool A
  submit_many tasks p = record p {
    global_queue = push_many tasks p.global_queue;
    coordinator = notify_on_submit p.coordinator;
  }

  -- `OffloadTasksToGlobalQueue`
  pub offload : A → Pool A → Pool A
  offload overflow p =
      let (got, left) = grab (grab_amount capacity - 1) p.self.local_queue in
      submit_many (got ++ overflow ∷ []) (record p { self = record p.self { local_queue = left } })

  -- `PushToLocalQueue`
  pub push_to_local : A → Pool A → Pool A
  unfolding offload
  push_to_local task p =
      if leb capacity (length p.self.local_queue)
      then offload task p
      else record p { self = record p.self { local_queue = p.self.local_queue ++ task ∷ [] } }

  -- `PushToLifoSlot`
  pub push_to_lifo : A → Pool A → Pool A
  unfolding push_to_local
  push_to_lifo task p = elim p.self.lifo_slot [
    | none ↦ record p { self = record p.self { lifo_slot = some task } }
    | some old ↦ push_to_local old (record p { self = record p.self { lifo_slot = some task } })
  ]

  -- The `switch` of `Push`.
  pub push_by : SchedulingHint → A → Pool A → Pool A
  unfolding push_to_local push_to_lifo
  push_by up_to_you task p = push_to_local task p
  push_by next task p = push_to_lifo task p
  push_by yield task p = record p { global_queue = push_one task p.global_queue }

  -- `Push`
  pub push : SchedulingHint → A → Pool A → Pool A
  unfolding push_by
  push hint task p =
      let p' = push_by hint task p in record p' { coordinator = notify_on_submit p'.coordinator }

  -- `ThreadPool::Submit`, from a worker of the pool, or from another thread.
  pub submit : Bool → SchedulingHint → A → Pool A → Pool A
  unfolding push
  submit true hint task p = push hint task p
  submit false hint task p = record p {
    global_queue = push_one task p.global_queue;
    coordinator = notify_on_submit p.coordinator;
  }

  -- The loop of `GetFromBuffer`.
  pub push_all : List A → Pool A → Pool A
  unfolding push_to_local
  push_all [] p = p
  push_all (task ∷ tasks) p = push_all tasks (push_to_local task p)

  -- `GetFromBuffer`
  pub get_from_buffer : List A → Pool A → Option A × Pool A
  unfolding push_all
  get_from_buffer [] p = (none, p)
  get_from_buffer (task ∷ tasks) p = (some task, push_all tasks p)

  -- `TryGrabTasksFromGlobalQueue`
  pub try_grab_global : Pool A → Option A × Pool A
  unfolding get_from_buffer
  try_grab_global p =
      let (got, left) = grab (grab_amount capacity) p.global_queue in
      get_from_buffer got (record p { global_queue = left })

  -- One turn of the loop of `TryStealTasks`: `got` was grabbed from `w`, and `rest` is what the turns
  -- behind it would do.
  steal_from :
      List A → Worker A → List (Worker A) → List A × List (Worker A) → List A × List (Worker A)
  steal_from [] w ws rest = (rest.0, w ∷ rest.1)
  steal_from (task ∷ tasks) w ws rest = (task ∷ tasks, w ∷ ws)

  -- The loop of `TryStealTasks`: `StealTasks` of one worker after the other, until one gives a task.
  pub steal : List (Worker A) → List A × List (Worker A)
  unfolding steal_from
  steal [] = ([], [])
  steal (w ∷ ws) =
      let (got, left) = grab (grab_amount capacity) w.local_queue in
      steal_from got (record w { local_queue = left }) ws (steal ws)

  -- `TryStealTasks`, with what the loop got from the workers before this one.
  steal_behind : List A → Pool A → Option A × Pool A
  unfolding steal get_from_buffer
  steal_behind [] p =
      let (got, after) = steal p.after in get_from_buffer got (record p { after = after })
  steal_behind (task ∷ tasks) p = get_from_buffer (task ∷ tasks) p

  -- `TryStealTasks`
  pub try_steal : Pool A → Option A × Pool A
  unfolding steal_behind
  try_steal p =
      let (got, before) = steal p.before in steal_behind got (record p { before = before })

  -- A test whether there is a task, that returns it, before what comes next.
  pub first_of : Option A → Pool A → (Pool A → Option A × Pool A) → Option A × Pool A
  first_of (some task) p rest = (some task, p)
  first_of none p rest = rest p

  -- `TryGetWork` from the global queue on.
  pub try_others : Pool A → Option A × Pool A
  unfolding try_grab_global try_steal first_of
  try_others p = let (task, p') = try_grab_global p in first_of task p' try_steal

  -- `TryGetWork` from the local queue on, which holds the given tasks.
  pop_local : List A → Pool A → Option A × Pool A
  unfolding try_others
  pop_local [] p = try_others p
  pop_local (task ∷ tasks) p =
      (some task, record p { self = record p.self { local_queue = tasks } })

  -- `filo_chain_ = 0`
  abbrev pub end_chain : Pool A → Pool A
  end_chain p = record p { self = record p.self { filo_chain = 0 } }

  pub try_queues : Pool A → Option A × Pool A
  unfolding pop_local
  try_queues p = pop_local p.self.local_queue (end_chain p)

  -- `TryGetWork` where the LIFO slot, with the given content, is looked at.
  take_lifo : Option A → Pool A → Option A × Pool A
  unfolding try_queues
  take_lifo none p = try_queues p
  take_lifo (some task) p = (
    some task,
    record p { self = record p.self { lifo_slot = none; filo_chain = p.self.filo_chain + 1 } },
  )

  -- `TryGetWork`
  pub try_get_work : Pool A → Option A × Pool A
  unfolding take_lifo
  try_get_work p =
      if ltb p.self.filo_chain filo_max_chain then take_lifo p.self.lifo_slot p else try_queues p

  -- A call that changes the coordinator.
  abbrev pub with_coordinator : (Coordinator → Coordinator) → Pool A → Pool A
  with_coordinator f p = record p { coordinator = f p.coordinator }

  -- `Unlink`, and then `RemoveSpinning`.
  abbrev pub leave : Pool A → Pool A
  leave p = with_coordinator (λ c. remove_spinning (unlink p.self.index c)) p

  -- `AddSpinning`, and then `AddStoppedWorker`.
  abbrev pub join_stopped : Pool A → Pool A
  join_stopped p = with_coordinator (λ c. add_stopped p.self.index (add_spinning c)) p

  -- The loop of `PickTask`, once the second `TryGetWork` has returned.
  pick_last : ℕ → Option A → Pool A → Picked A × Pool A
  pick_last expected (some task) p = (picked task, leave p)
  pick_last expected none p =
      if p.self.has_stopped
      then (stopped, leave p)
      else (parked expected, with_coordinator remove_spinning p)

  -- The loop of `PickTask`, once the first `TryGetWork` has returned.
  pick_then : Option A → Pool A → Picked A × Pool A
  unfolding try_get_work pick_last
  pick_then (some task) p = (picked task, p)
  pick_then none p =
      let expected = p.coordinator.wakeups p.self.index in
      let (task, p') = try_get_work (join_stopped p) in pick_last expected task p'

  -- A round of the loop of `PickTask`, up to `Wait`.
  pub pick_round : Pool A → Picked A × Pool A
  unfolding try_get_work pick_then
  pick_round p = let (task, p') = try_get_work p in pick_then task p'

  -- `PickTask` behind the call that looks at the global queue first.
  pick_global : Option A → Pool A → Picked A × Pool A
  unfolding pick_round
  pick_global (some task) p = (picked task, p)
  pick_global none p = pick_round p

  -- `++iter_`
  abbrev pub counted : Pool A → Pool A
  counted p = record p { self = record p.self { iter = (p.self.iter + 1) % 2 ^ 64 } }

  -- `PickTask`, up to `Wait`.
  unfoldable pub pick_task : Pool A → Picked A × Pool A
  unfolding try_grab_global pick_global
  pick_task p =
      let (task, p') = try_grab_global (counted p) in
      if (counted p).self.iter % 61 == 0 then pick_global task p' else pick_round (counted p)

  -- `PickTask`, when `Wait` returns, up to the next `Wait`.
  pub resume : Pool A → Picked A × Pool A
  unfolding pick_round
  resume p = pick_round (with_coordinator (unlink p.self.index) p)

  -- `Worker::Stop`
  pub stop : Pool A → Pool A
  stop p = record p {
    self = record p.self { has_stopped = true };
    coordinator = record p.coordinator { wakeups = wake p.self.index p.coordinator.wakeups };
  }
