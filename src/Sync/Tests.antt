-- ===== src/Sync/Tests.antt =====
-- Short runs of what source/fiber/sync holds.
use cpp_concurrency.Base.{ℕ, ◌⊎◌, refl, true, List, [], ◌∷◌, arith, set_at}
use cpp_concurrency.Sync.Mutex.{
  System, outside, trying, parked, inside, enters, attempts, Reach, start, later,
}
use cpp_concurrency.Sync.Mutex.Invariant.{Someone}
use cpp_concurrency.Sync.Mutex.Safety.{Reach-awake}
use cpp_concurrency.Sync.WaitGroup as WaitGroup
use cpp_concurrency.Sync.WaitGroup.Laws.{
  Call, adds, dones, waits, Trace, calls, ends, added, finished, asked, IsTracked, calls-IsTracked,
}

-- The fiber 1 has the mutex, and the fiber 2 is suspended.
abbrev one_waits : System
one_waits = record {
  mutex = record { is_locked = true; fibers = 2 ∷ [] };
  pcs = set_at (set_at (set_at (set_at (λ _. outside) 1 trying) 1 inside) 2 trying) 2 parked;
}

reached : Reach one_waits
reached =
    later (later (later (later start (enters 1 refl)) (attempts 1 refl)) (enters 2 refl))
      (attempts 2 refl)

abbrev owner : ℕ
owner = 1

Reach-awake_example : Someone one_waits inside ⊎ Someone one_waits trying
Reach-awake_example = Reach-awake one_waits 2 reached refl

abbrev history : List Call
history = adds 2 ∷ waits 7 ∷ dones ∷ waits 8 ∷ dones ∷ waits 9 ∷ []

abbrev before : Trace
before = record { group = WaitGroup.init; woken = []; waited = [] }

before-IsTracked : IsTracked 0 before
before-IsTracked = record { counted = refl; in_order = refl; released = λ e. refl }

calls-IsTracked_example : IsTracked 0 (calls history before)
calls-IsTracked_example =
    calls-IsTracked history 0 0 before
      (added (omega arith)
        (asked (finished (omega arith) (asked (finished (omega arith) (asked ends))))))
      before-IsTracked
