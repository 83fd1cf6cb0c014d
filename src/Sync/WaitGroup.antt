-- ===== src/Sync/WaitGroup.antt =====
-- source/fiber/sync/wait_group.hpp: fibers that wait for a count to reach 0.
pub mod Laws
use cpp_concurrency.Base.{ℕ, ◌+◌, ◌-◌, ◌%◌, ◌^◌, Bool, true, false, List, [], ◌==◌, if◌then◌else◌}
use cpp_concurrency.Sync.WaitQueue.{park, wake_all}

-- `WaitGroup`. `count` is a `size_t`.
pub record WaitGroup : Type 0 where
  pub count : ℕ
  pub fibers : List ℕ

abbrev pub init : WaitGroup
init = record { count = 0; fibers = [] }

-- `Add`
abbrev pub add : ℕ → WaitGroup → WaitGroup
add n w = record w { count = (w.count + n) % 2 ^ 64 }

-- `Done`, with the fibers that it schedules, in order.
abbrev pub done : WaitGroup → List ℕ × WaitGroup
done w =
    let count = (w.count + 2 ^ 64 - 1) % 2 ^ 64 in
    let (woken, left) = wake_all w.fibers in
    if count == 0
    then (woken, record { count = count; fibers = left })
    else ([], record w { count = count })

-- `Wait`, by a fiber: whether it returns at once. If not, the fiber is parked.
abbrev pub wait : ℕ → WaitGroup → Bool × WaitGroup
wait fiber w =
    if w.count == 0 then (true, w) else (false, record w { fibers = park fiber w.fibers })
