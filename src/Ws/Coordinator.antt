-- ===== src/Ws/Coordinator.antt =====
-- source/runtime/multi_thread/v2/ws/coordinator.cpp: the workers that are about to park, and who wakes
-- them. Workers go by their index. Each call holds the spin lock, so it is one step.
pub mod Laws
use cpp_concurrency.Base.{
  ℕ, ◌+◌, ◌-◌, ◌%◌, ◌^◌, Bool, true, false, List, [], ◌∷◌, ◌++◌, ltb, ◌==◌, if◌then◌else◌,
}

-- `Coordinator`, and the counters `wakeups_` of the workers.
pub record Coordinator : Type 0 where
  pub stopped : List ℕ
  pub approximate_size : ℕ
  pub spinning : ℕ
  pub wakeups : ℕ → ℕ

abbrev pub init : Coordinator
init = record { stopped = []; approximate_size = 0; spinning = 0; wakeups = λ _. 0 }

-- `IsLinked`
unfoldable pub is_linked : ℕ → List ℕ → Bool
is_linked w [] = false
is_linked w (v ∷ vs) = if w == v then true else is_linked w vs

-- `IntrusiveListNode::Unlink`
unfoldable pub without : ℕ → List ℕ → List ℕ
without w [] = []
without w (v ∷ vs) = let rest = without w vs in if w == v then vs else v ∷ rest

-- `ShouldWakeWorker`
abbrev pub should_wake : Coordinator → Bool
should_wake c = ltb 0 c.approximate_size

-- `AddStoppedWorker`
unfoldable pub add_stopped : ℕ → Coordinator → Coordinator
add_stopped w c = if is_linked w c.stopped then c else record c {
  approximate_size = (c.approximate_size + 1) % 2 ^ 64;
  stopped = c.stopped ++ w ∷ [];
}

-- `AddSpinning`
abbrev pub add_spinning : Coordinator → Coordinator
add_spinning c = record c { spinning = (c.spinning + 1) % 2 ^ 64 }

-- `RemoveSpinning`
abbrev pub remove_spinning : Coordinator → Coordinator
remove_spinning c = record c { spinning = (c.spinning + 2 ^ 64 - 1) % 2 ^ 64 }

-- `Worker::Wake`, of the worker `w`.
abbrev pub wake : ℕ → (ℕ → ℕ) → ℕ → ℕ
wake w wakeups v = if v == w then (wakeups v + 1) % 2 ^ 32 else wakeups v

-- `WakeWorker`
pub wake_worker : Coordinator → Coordinator
wake_worker c = elim c.stopped [
  | [] ↦ c
  | w ∷ rest ↦ record c {
    stopped = rest;
    wakeups = wake w c.wakeups;
    approximate_size = (c.approximate_size + 2 ^ 64 - 1) % 2 ^ 64;
  }
]

-- `Unlink`
unfoldable pub unlink : ℕ → Coordinator → Coordinator
unlink w c = if is_linked w c.stopped then record c { stopped = without w c.stopped } else c

-- `NotifyOnSubmit`, with no other call between the load of the counter and `WakeWorker`.
pub notify_on_submit : Coordinator → Coordinator
unfolding wake_worker
notify_on_submit c = if should_wake c then wake_worker c else c
