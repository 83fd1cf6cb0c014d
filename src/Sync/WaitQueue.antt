-- ===== src/Sync/WaitQueue.antt =====
-- source/fiber/sync/wait_queue.hpp and wait_queue.cpp: the fibers that wait, the oldest first.
use cpp_concurrency.Base.{ℕ, ◌≡◌, refl, ap, Option, none, some, List, [], ◌∷◌, ◌++◌}

-- `Park`, up to the suspension of the fiber.
abbrev pub park : ℕ → List ℕ → List ℕ
park fiber fibers = fibers ++ fiber ∷ []

-- `WakeOne`: the fiber that it schedules, and the others.
abbrev pub wake_one : List ℕ → Option ℕ × List ℕ
wake_one [] = (none, [])
wake_one (fiber ∷ fibers) = (some fiber, fibers)

-- `WakeAll`: the fibers that it schedules, in order.
abbrev pub wake_all : List ℕ → List ℕ × List ℕ
wake_all [] = ([], [])
wake_all (fiber ∷ fibers) = let (woken, left) = wake_all fibers in (fiber ∷ woken, left)

pub wake_all_lem : (fibers : List ℕ) → wake_all fibers ≡ (fibers, [])
wake_all_lem [] = refl
wake_all_lem (fiber ∷ fibers) =
    ap (λ (r : List ℕ × List ℕ). (fiber ∷ r.0, r.1)) (wake_all_lem fibers)
