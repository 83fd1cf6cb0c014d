-- ===== src/Fibers/Cost.antt =====
-- How many steps the fibers of source/fiber/core have left.
use cpp_concurrency.Base.{
  ℕ, ◌+◌, ◌*◌, ◌≤◌, ◌<◌, ◌≡◌, ap, Bool, true, false, List, [], ◌∷◌, ◌++◌, Option, none, some,
  length, length-append, total, total-set, total-append, arith,
}
use cpp_concurrency.Fibers.{
  Callback, schedules, sets_timer, keeps, Body, returns, goes, suspends, Fiber, idle, resuming,
  inside, back, returned, suspending, calling, Thread, thread, World, new_fiber, schedule,
  set_timer, spawn, invoke, moved, stored, Resume, takes, enters, comes_back, deletes, calls_back,
  hands_over, Act, calls_go, calls_suspend, sets_callback, ends, fires, Step, resumes, acts, times,
  Runs, start, next,
}

-- The calls that a routine makes, and those of the fibers that it starts, each with its end.
abbrev pub calls : Body → ℕ
calls returns = 1
calls (goes child rest) = 1 + calls child + calls rest
calls (suspends cb rest) = 1 + calls rest

abbrev left_of : Bool → Body → ℕ
left_of true b = 0
left_of false b = 8 * calls b

abbrev pub left : Option Fiber → ℕ
left (some fb) = left_of fb.is_done fb.routine
left none = 0

abbrev pub place : Thread → ℕ
place (thread idle p) = 0
place (thread (resuming f) p) = 4
place (thread (inside f) p) = 3
place (thread (back f) p) = 9
place (thread (returned f) p) = 8
place (thread (suspending f self cb) p) = 10
place (thread (calling f cb) p) = 7

-- A bound on the steps until only kept handles are left.
abbrev pub weight : World → ℕ
weight s = total place s.threads + 5 * length s.tasks + 6 * length s.timers + total left s.fibers

length-without :
    (f : ℕ) (xs before after : List ℕ)
    → xs ≡ before ++ f ∷ after
    → length xs ≡ length (before ++ after) + 1
length-without f xs before after e =
    omega (arith, ap length e, length-append before (f ∷ after), length-append before after)

invoke-weight : (cb : Callback) (f : ℕ) (s : World) → weight (invoke cb f s) ≤ weight s + 6
unfolding invoke schedule set_timer
invoke-weight schedules f s = omega (arith, length-append s.tasks (f ∷ []))
invoke-weight sets_timer f s = omega (arith, length-append s.timers (f ∷ []))
invoke-weight keeps f s = omega arith

spawn-weight : (func : Body) (s : World) → weight (spawn func s) ≡ weight s + 8 * calls func + 5
unfolding spawn schedule
spawn-weight func s = omega (
  arith,
  length-append s.tasks (length s.fibers ∷ []),
  total-append left s.fibers (some (new_fiber func) ∷ []),
)

running_left : (fb : Fiber) → fb.is_done ≡ false → left (some fb) ≡ 8 * calls fb.routine
running_left fb un = ap (λ d. left_of d fb.routine) un

Resume-weight : {s s' : World} → Resume s s' → weight s' < weight s
Resume-weight {s} (takes j f p before after at e) = omega (
  arith,
  length-without f s.tasks before after e,
  total-set place s.threads j _ (thread (resuming f) p) at,
)
Resume-weight {s} (enters j f p fb at e) =
    omega (arith, total-set place s.threads j _ (thread (inside f) (some f)) at)
Resume-weight {s} (comes_back j f p at) =
    omega (arith, total-set place s.threads j _ (thread (returned f) none) at)
Resume-weight {s} (deletes j f p fb at e over) = omega (
  arith,
  total-set place s.threads j _ (thread idle p) at,
  total-set left s.fibers f (some fb) none e,
)
Resume-weight {s} (calls_back j f p fb cb at e un c) =
    omega (arith, total-set place s.threads j _ (thread (calling f cb) p) at)
Resume-weight {s} (hands_over j f p fb cb at e) =
    omega (
      arith,
      invoke-weight cb f (moved s j idle p),
      total-set place s.threads j _ (thread idle p) at,
    )

Act-weight : {s s' : World} → Act s s' → weight s' < weight s
Act-weight {s} (calls_go j f self fb me child rest at lself lf un e) =
    let after : Fiber = record fb { routine = rest } in
    omega (
      arith,
      spawn-weight child (stored s f (some after)),
      total-set left s.fibers f (some fb) (some after) lf,
      running_left fb un,
      running_left after un,
      ap calls e,
    )
Act-weight {s} (calls_suspend j f self fb cb rest at lf un e) =
    let after : Fiber = record fb { routine = rest } in
    omega (
      arith,
      total-set place s.threads j _ (thread (suspending f self cb) (some self)) at,
      total-set left s.fibers f (some fb) (some after) lf,
      running_left fb un,
      running_left after un,
      ap calls e,
    )
Act-weight {s} (sets_callback j f self p me cb at lself) = omega (
  arith,
  total-set place s.threads j _ (thread (back f) p) at,
  total-set left s.fibers self (some me) (some (record me { callback = some cb })) lself,
)
Act-weight {s} (ends j f p fb at lf un e) = omega (
  arith,
  total-set place s.threads j _ (thread (back f) p) at,
  total-set left s.fibers f (some fb) (some (record fb { is_done = true })) lf,
  running_left fb un,
  ap calls e,
)

Step-weight : {s s' : World} → Step s s' → weight s' < weight s
unfolding schedule
Step-weight (resumes m) = Resume-weight m
Step-weight (acts m) = Act-weight m
Step-weight {s} (times (fires f before after e)) =
    omega (arith, length-without f s.timers before after e, length-append s.tasks (f ∷ []))

-- In a run of any number of threads without calls from outside, the steps taken and the weight of
-- the state at the end are at most the weight at the start: fibers of bounded bodies stop after
-- boundedly many steps.
pub runs_end : (s s' : World) (n : ℕ) → Runs s n s' → n + weight s' ≤ weight s
runs_end s s' n start = omega arith
runs_end s s' n (next {n = m} {t} r st) = omega (arith, runs_end s t m r, Step-weight st)
