-- ===== src/Sync/Mutex.antt =====
-- source/fiber/sync/mutex.cpp: a mutex for fibers, and the fibers that use it.
pub mod Invariant
pub mod Safety
use cpp_concurrency.Base.{
  ℕ, suc, ◌≡◌, Bool, true, false, not, Option, none, some, List, [], if◌then◌else◌, set_at,
}
use cpp_concurrency.Sync.WaitQueue.{park, wake_one}

-- `Mutex`
pub record Mutex : Type 0 where
  pub is_locked : Bool
  pub fibers : List ℕ

-- A turn of the loop of `Lock`, by a fiber: whether it has the mutex then. If not, it is parked.
abbrev pub attempt : ℕ → Mutex → Bool × Mutex
attempt fiber m =
    if m.is_locked
    then (false, record m { fibers = park fiber m.fibers })
    else (true, record m { is_locked = true })

-- `TryLock`
abbrev pub try_lock : Mutex → Bool × Mutex
try_lock m = (not m.is_locked, record m { is_locked = true })

-- `Unlock`, with the fiber that it schedules.
abbrev pub unlock : Mutex → Option ℕ × Mutex
unlock m =
    let (woken, left) = wake_one m.fibers in (woken, record { is_locked = false; fibers = left })

-- Where a fiber stands: outside, in the loop of `Lock` and able to run, suspended in it, or the owner
-- of the mutex.
pub data Pc : Type 0 where
  outside trying parked inside : Pc

pub record System : Type 0 where
  pub mutex : Mutex
  pub pcs : ℕ → Pc

-- `Schedule`: the fiber can run again.
abbrev pub schedule : Option ℕ → (ℕ → Pc) → ℕ → Pc
schedule none pcs = pcs
schedule (some fiber) pcs = set_at pcs fiber trying

-- A step of the fiber `j`. Only the owner unlocks.
pub data Step (s : System) : System → Type 0 where
  enters : (j : ℕ) → s.pcs j ≡ outside → Step s (record s { pcs = set_at s.pcs j trying })
  attempts :
      (j : ℕ)
      → s.pcs j ≡ trying
      → Step s (record {
        mutex = (attempt j s.mutex).1;
        pcs = set_at s.pcs j (if (attempt j s.mutex).0 then inside else parked);
      })
  tries :
      (j : ℕ)
      → s.pcs j ≡ outside
      → Step s (record {
        mutex = (try_lock s.mutex).1;
        pcs = set_at s.pcs j (if (try_lock s.mutex).0 then inside else outside);
      })
  unlocks :
      (j : ℕ)
      → s.pcs j ≡ inside
      → Step s (record {
        mutex = (unlock s.mutex).1;
        pcs = schedule (unlock s.mutex).0 (set_at s.pcs j outside);
      })

abbrev pub init : System
init = record { mutex = record { is_locked = false; fibers = [] }; pcs = λ _. outside }

pub data Reach : System → Type 0 where
  start : Reach init
  later : {s t : System} → Reach s → Step s t → Reach t
