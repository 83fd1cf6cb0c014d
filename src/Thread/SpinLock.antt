-- ===== src/Thread/SpinLock.antt =====
-- source/thread/spinlock.hpp: the lock under which the other parts do their steps.
-- Each access to the atomic is a step of a thread; the steps of all threads interleave in a total order.
pub mod Safety
use cpp_concurrency.Base.{ℕ, ◌≡◌, ◌==◌, if◌then◌else◌, set_at}

-- Where a thread stands: outside, in `Lock` before the exchange or in the inner loop, or the owner.
pub data Pc : Type 0 where
  outside exchanging loading inside : Pc

-- `SpinLock`: `locked_`; and the threads.
pub record System : Type 0 where
  pub locked : ℕ
  pub pcs : ℕ → Pc

-- A step of the thread `j`. Only the owner unlocks.
pub data Step (s : System) : System → Type 0 where
  enters : (j : ℕ) → s.pcs j ≡ outside → Step s (record s { pcs = set_at s.pcs j exchanging })
  -- `while (locked_.exchange(1) == 1)`
  exchanges :
      (j : ℕ)
      → s.pcs j ≡ exchanging
      → Step s
          (record { locked = 1; pcs = set_at s.pcs j (if s.locked == 1 then loading else inside) })
  -- `while (locked_.load() == 1)`
  loads :
      (j : ℕ)
      → s.pcs j ≡ loading
      → Step s (record s { pcs = set_at s.pcs j (if s.locked == 1 then loading else exchanging) })
  -- `TryLock`
  tries :
      (j : ℕ)
      → s.pcs j ≡ outside
      → Step s
          (record { locked = 1; pcs = set_at s.pcs j (if s.locked == 0 then inside else outside) })
  -- `Unlock`
  unlocks :
      (j : ℕ) → s.pcs j ≡ inside → Step s (record { locked = 0; pcs = set_at s.pcs j outside })

abbrev pub init : System
init = record { locked = 0; pcs = λ _. outside }

pub data Reach : System → Type 0 where
  start : Reach init
  later : {s t : System} → Reach s → Step s t → Reach t
