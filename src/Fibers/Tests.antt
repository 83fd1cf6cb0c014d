-- ===== src/Fibers/Tests.antt =====
-- One fiber on one thread.
use cpp_concurrency.Base.{ℕ, ◌+◌, ◌≤◌, ◌≡◌, ◌⊎◌, refl, false, [], Option, some, none, get_elem?}
use cpp_concurrency.Fibers.{
  Body, returns, yields, sleeps, Fiber, idle, resuming, inside, thread, World, init, new_fiber,
  spawn, schedule, Loads, resumes, takes, enters, Step, Reach, here, later, asked, is_spawned,
  start, next, moved,
}
use cpp_concurrency.Fibers.Count.{holders, live_in}
use cpp_concurrency.Fibers.Safety.{held-once, inside_self, thread-steps}
use cpp_concurrency.Fibers.Cost.{weight, runs_end}
use cpp_concurrency.Fibers.Rest.{fibers-finish}

-- It gives way once.
abbrev polite : Body
polite = yields (sleeps returns)

abbrev spawned : World
unfolding spawn schedule
spawned = spawn polite (init 1)

abbrev taken : World
unfolding spawned
taken = record (moved spawned 0 (resuming 0) none) { tasks = [] }

abbrev entered : World
unfolding taken
entered = moved taken 0 (inside 0) (some 0)

spawned_reached : Reach (init 1) spawned
unfolding spawned
spawned_reached = asked here (is_spawned polite)

taken_reached : Reach (init 1) taken
unfolding taken spawn schedule
taken_reached = later spawned_reached (resumes (takes 0 0 none [] [] refl refl))

entered_reached : Reach (init 1) entered
unfolding entered spawn schedule
entered_reached = later taken_reached (resumes (enters 0 0 none (new_fiber polite) refl refl))

held-once_example : holders 0 taken ≡ 1
unfolding taken spawn schedule
held-once_example = held-once 1 taken 0 taken_reached

inside_self_example :
    (◌≡◌ {A = Option ℕ} (some 0) (some 0))
    × ((fb : Fiber) × Loads entered 0 fb × (fb.is_done ≡ false))
unfolding entered spawn schedule
inside_self_example = inside_self 1 entered 0 0 (some 0) entered_reached refl

thread-steps_example : (s' : World) × Step taken s'
unfolding taken spawn schedule
thread-steps_example = thread-steps 1 taken 0 (resuming 0) none taken_reached refl (λ e. cc)

fibers-finish_example :
    ((s' : World) × Step spawned s') ⊎ ((a : ℕ) → live_in (get_elem? spawned.fibers a) ≡ 0)
unfolding spawned spawn schedule
fibers-finish_example = fibers-finish 1 spawned (thread idle none) spawned_reached refl refl

runs_end_example : 2 + weight entered ≤ weight spawned
unfolding entered spawn schedule
runs_end_example = runs_end spawned entered 2 (
    next (next start (resumes (takes 0 0 none [] [] refl refl)))
      (resumes (enters 0 0 none (new_fiber polite) refl refl)))
