-- ===== src/Fibers.antt =====
-- source/fiber/core and source/fiber/sched: fibers that threads of a runtime resume. The runtime is not
-- part of this model: it runs any task that was submitted, on any thread, and fires any timer.
pub mod Count
pub mod Keeps
pub mod Cost
pub mod Safety
pub mod Rest
mod Tests
use cpp_concurrency.Base.{
  ℕ, zero, suc, ◌≡◌, Bool, true, false, List, [], ◌∷◌, ◌++◌, Option, none, some, get_elem?, set,
  length, replicate,
}

-- What a suspended fiber's callback does with the handle: `Yield` schedules it, `SleepFor` sets a timer, and
-- the primitives that wait keep it. How long a timer takes is left out.
pub data Callback : Type 0 where
  schedules sets_timer keeps : Callback

-- The routine of a fiber, as the calls of `Go` and `Suspend` that it makes.
pub data Body : Type 0 where
  returns : Body
  goes : (child rest : Body) → Body
  suspends : (cb : Callback) (rest : Body) → Body

-- `Fiber`, with its `Coroutine`: where the routine goes on, and whether it has come to its end. The empty
-- callback is `none`.
pub record Fiber : Type 0 where
  pub callback : Option Callback
  pub routine : Body
  pub is_done : Bool

-- Where a thread stands: between two tasks, before `this_ptr = this`, in the routine of a fiber, in
-- `Suspend` of the fiber `self`, behind `coroutine_.Resume()`, behind `this_ptr = nullptr`, or in a callback.
pub data Pc : Type 0 where
  idle : Pc
  resuming inside back returned : (f : ℕ) → Pc
  suspending : (f self : ℕ) (cb : Callback) → Pc
  calling : (f : ℕ) (cb : Callback) → Pc

-- A thread, with its `this_ptr`.
pub data Thread : Type 0 where
  thread : (pc : Pc) (this_ptr : Option ℕ) → Thread

-- The fibers by address, `none` where one was deleted; the threads; and where pointers to fibers are kept: the
-- tasks and the timers of the runtime, and the handles that waiting code keeps.
pub record World : Type 0 where
  pub fibers : List (Option Fiber)
  pub threads : List Thread
  pub tasks : List ℕ
  pub timers : List ℕ
  pub handles : List ℕ

abbrev pub init : ℕ → World
init n = record {
  fibers = [];
  threads = replicate n (thread idle none);
  tasks = [];
  timers = [];
  handles = [];
}

-- `Fiber(runtime, func)`
abbrev pub new_fiber : Body → Fiber
new_fiber func = record { callback = none; routine = func; is_done = false }

-- `Routine::Resume` and `Routine::Suspend`: the routine was switched to, and is back at `rest`.
abbrev pub at_rest : Body → Fiber → Fiber
at_rest rest fb = record fb { routine = rest }

-- `Routine::Run` behind the routine.
abbrev pub ended : Fiber → Fiber
ended fb = record fb { is_done = true }

-- `Fiber::Suspend`, up to `coroutine_.Suspend()`.
abbrev pub with_callback : Callback → Fiber → Fiber
with_callback cb fb = record fb { callback = some cb }

-- `Yield`, and `SleepFor`.
abbrev pub yields : Body → Body
yields rest = suspends schedules rest

abbrev pub sleeps : Body → Body
sleeps rest = suspends sets_timer rest

-- `FiberHandle::Schedule`: the fiber becomes a task.
pub schedule : ℕ → World → World
schedule f s = record s { tasks = s.tasks ++ f ∷ [] }

-- `FiberHandle::Schedule` with a delay: the fiber is the task of a timer.
pub set_timer : ℕ → World → World
set_timer f s = record s { timers = s.timers ++ f ∷ [] }

-- `Fiber::Spawn`: a new fiber, which is scheduled.
pub spawn : Body → World → World
unfolding schedule
spawn func s =
    schedule (length s.fibers) (record s { fibers = s.fibers ++ some (new_fiber func) ∷ [] })

-- `operator()` of the callback.
pub invoke : Callback → ℕ → World → World
unfolding schedule set_timer
invoke schedules f s = schedule f s
invoke sets_timer f s = set_timer f s
invoke keeps f s = record s { handles = s.handles ++ f ∷ [] }

module _ (s : World) where
  -- The thread `j` goes on at `pc`.
  abbrev pub moved : ℕ → Pc → Option ℕ → World
  moved j pc p = record s { threads = set s.threads j (thread pc p) }

  -- The fiber at `f` is overwritten.
  abbrev pub stored : ℕ → Option Fiber → World
  stored f v = record s { fibers = set s.fibers f v }

  -- The thread `j` stands at `pc`.
  abbrev pub Stands : ℕ → Pc → Option ℕ → Type 0
  Stands j pc p = get_elem? s.threads j ≡ some (thread pc p)

  -- A pointer to a fiber is followed.
  abbrev pub Loads : ℕ → Fiber → Type 0
  Loads f fb = get_elem? s.fibers f ≡ some (some fb)

-- `Fiber::Resume`, of the thread `j`.
pub data Resume (s : World) : World → Type 0 where
  takes :
      (j f : ℕ) (p : Option ℕ) (before after : List ℕ)
      → Stands s j idle p
      → s.tasks ≡ before ++ f ∷ after
      → Resume s (record (moved s j (resuming f) p) { tasks = before ++ after })
  enters :
      (j f : ℕ) (p : Option ℕ) (fb : Fiber)
      → Stands s j (resuming f) p
      → Loads s f fb
      → Resume s (moved s j (inside f) (some f))
  comes_back :
      (j f : ℕ) (p : Option ℕ) → Stands s j (back f) p → Resume s (moved s j (returned f) none)
  deletes :
      (j f : ℕ) (p : Option ℕ) (fb : Fiber)
      → Stands s j (returned f) p
      → Loads s f fb
      → fb.is_done ≡ true
      → Resume s (stored (moved s j idle p) f none)
  calls_back :
      (j f : ℕ) (p : Option ℕ) (fb : Fiber) (cb : Callback)
      → Stands s j (returned f) p
      → Loads s f fb
      → fb.is_done ≡ false
      → fb.callback ≡ some cb
      → Resume s (moved s j (calling f cb) p)
  hands_over :
      (j f : ℕ) (p : Option ℕ) (fb : Fiber) (cb : Callback)
      → Stands s j (calling f cb) p
      → Loads s f fb
      → Resume s (invoke cb f (moved s j idle p))

-- What the routine of a fiber does, through `Fiber::Self()`.
pub data Act (s : World) : World → Type 0 where
  calls_go :
      (j f self : ℕ) (fb me : Fiber) (child rest : Body)
      → Stands s j (inside f) (some self)
      → Loads s self me
      → Loads s f fb
      → fb.is_done ≡ false
      → fb.routine ≡ goes child rest
      → Act s (spawn child (stored s f (some (at_rest rest fb))))
  calls_suspend :
      (j f self : ℕ) (fb : Fiber) (cb : Callback) (rest : Body)
      → Stands s j (inside f) (some self)
      → Loads s f fb
      → fb.is_done ≡ false
      → fb.routine ≡ suspends cb rest
      → Act s (stored (moved s j (suspending f self cb) (some self)) f (some (at_rest rest fb)))
  sets_callback :
      (j f self : ℕ) (p : Option ℕ) (me : Fiber) (cb : Callback)
      → Stands s j (suspending f self cb) p
      → Loads s self me
      → Act s (stored (moved s j (back f) p) self (some (with_callback cb me)))
  ends :
      (j f : ℕ) (p : Option ℕ) (fb : Fiber)
      → Stands s j (inside f) p
      → Loads s f fb
      → fb.is_done ≡ false
      → fb.routine ≡ returns
      → Act s (stored (moved s j (back f) p) f (some (ended fb)))

-- A timer fires.
pub data Fire (s : World) : World → Type 0 where
  fires :
      (f : ℕ) (before after : List ℕ)
      → s.timers ≡ before ++ f ∷ after
      → Fire s (schedule f (record s { timers = before ++ after }))

pub data Step (s s' : World) : Type 0 where
  resumes : Resume s s' → Step s s'
  acts : Act s s' → Step s s'
  times : Fire s s' → Step s s'

-- What comes from outside: `Go(runtime, func)`, and a handle that is scheduled by the code that kept it.
pub data Ask (s : World) : World → Type 0 where
  is_spawned : (func : Body) → Ask s (spawn func s)
  is_woken :
      (f : ℕ) (before after : List ℕ)
      → s.handles ≡ before ++ f ∷ after
      → Ask s (schedule f (record s { handles = before ++ after }))

pub data Reach (s : World) : World → Type 0 where
  here : Reach s s
  later : {t u : World} → Reach s t → Step t u → Reach s u
  asked : {t u : World} → Reach s t → Ask t u → Reach s u

-- A run of `n` steps in which nothing is asked from outside.
pub data Runs (s : World) : ℕ → World → Type 0 where
  start : Runs s 0 s
  next : {n : ℕ} {t u : World} → Runs s n t → Step t u → Runs s (suc n) u
