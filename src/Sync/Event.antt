-- ===== src/Sync/Event.antt =====
-- source/fiber/sync/event.hpp: a one-shot event, which is a group of one.
use cpp_concurrency.Base.{
  ℕ, ◌≡◌, sym, ap, ◌∙◌, append-nil, append_assoc, Bool, true, List, [], ◌∷◌, ◌++◌,
}
use cpp_concurrency.Sync.WaitQueue.{wake_all_lem}
use cpp_concurrency.Sync.WaitGroup.{WaitGroup, init, add, done, wait}

-- `Event()`
abbrev pub make : WaitGroup
make = add 1 init

-- `Wait`, by a fiber: whether it returns at once.
abbrev pub wait_event : ℕ → WaitGroup → Bool × WaitGroup
wait_event fiber e = wait fiber e

-- `Fire`, with the fibers that it schedules, in order.
abbrev pub fire : WaitGroup → List ℕ × WaitGroup
fire e = done e

-- Some fibers that wait, one after the other.
abbrev pub wait_each : List ℕ → WaitGroup → WaitGroup
wait_each [] e = e
wait_each (f ∷ fs) e = wait_each fs (wait_event f e).1

wait_each_lem :
    (fs ws : List ℕ)
    → wait_each fs (record { count = 1; fibers = ws }) ≡ record { count = 1; fibers = ws ++ fs }
wait_each_lem [] ws = ap (λ k. record { count = 1; fibers = k }) (sym (append-nil ws))
wait_each_lem (f ∷ fs) ws =
    wait_each_lem fs (ws ++ f ∷ [])
    ∙ ap (λ k. record { count = 1; fibers = k }) (append_assoc ws (f ∷ []) fs)

-- `Fire` wakes the fibers that wait, in their order, and whoever waits later returns at once.
pub fire-wakes :
    (fs : List ℕ) (f : ℕ)
    → ((fire (wait_each fs make)).0 ≡ fs) × ((wait_event f (fire (wait_each fs make)).1).0 ≡ true)
fire-wakes fs f =
    let all : fire (wait_each fs make) ≡ (fs, record { count = 0; fibers = [] }) =
      ap fire (wait_each_lem fs [])
      ∙ ap (λ (r : List ℕ × List ℕ). (r.0, record { count = 0; fibers = r.1 })) (wake_all_lem fs) in
    (ap (λ r. r.0) all, ap (λ r. (wait_event f r.1).0) all)
