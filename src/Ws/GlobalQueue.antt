-- ===== src/Ws/GlobalQueue.antt =====
-- source/runtime/multi_thread/v2/ws/global_queue.hpp: the task queue that all workers share. Each call
-- holds the spin lock, so it is one step.
use cpp_concurrency.Base.{
  ℕ, zero, suc, ◌≡◌, refl, ap, Option, none, some, List, [], ◌∷◌, ◌++◌, take, drop, append-nil,
  append_assoc, ◌∙◌, sym,
}

module _ {ℓ} {A : Type ℓ} where
  -- `PushOne`
  abbrev pub push_one : A → List A → List A
  push_one task tasks = tasks ++ task ∷ []

  -- `PushMany`
  abbrev pub push_many : List A → List A → List A
  push_many [] tasks = tasks
  push_many (task ∷ buffer) tasks = push_many buffer (push_one task tasks)

  -- `TryPopOne`
  abbrev pub try_pop_one : List A → Option A × List A
  try_pop_one [] = (none, [])
  try_pop_one (task ∷ tasks) = (some task, tasks)

  -- `Grab`, with room for `room` tasks: what it writes to its buffer, and what is left.
  abbrev pub grab : ℕ → List A → List A × List A
  grab zero tasks = ([], tasks)
  grab (suc room) [] = ([], [])
  grab (suc room) (task ∷ tasks) = let (got, left) = grab room tasks in (task ∷ got, left)

  pub push_many-append : (buffer tasks : List A) → push_many buffer tasks ≡ tasks ++ buffer
  push_many-append [] tasks = sym (append-nil tasks)
  push_many-append (task ∷ buffer) tasks =
      push_many-append buffer (tasks ++ task ∷ []) ∙ append_assoc tasks (task ∷ []) buffer

  pub grab-take : (room : ℕ) (tasks : List A) → grab room tasks ≡ (take room tasks, drop room tasks)
  grab-take zero tasks = refl
  grab-take (suc room) [] = refl
  grab-take (suc room) (task ∷ tasks) =
      ap (λ (r : List A × List A). (task ∷ r.0, r.1)) (grab-take room tasks)
