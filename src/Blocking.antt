-- ===== src/Blocking.antt =====
-- source/detail/queue.hpp: a queue of tasks for threads that block while it is empty. Each call holds
-- the mutex up to the point where it waits, so it is one step. Threads that wait for the condition
-- variable have no names: they are counted.
pub mod Laws
pub mod Timers
mod Tests
use cpp_concurrency.Base.{
  ℕ, zero, suc, ◌+◌, ◌-◌, Bool, true, false, not, ◌&&◌, Option, none, some, List, [], ◌∷◌, ◌++◌,
  ltb, is_empty, if◌then◌else◌,
}

-- `UnboundedBlockingQueue`. Of the threads inside `Pop`, `blocked` wait for the condition variable, and
-- `notified` have been woken, by a notification or for no reason, and are to test the condition again.
pub record Queue {ℓ} (A : Type ℓ) : Type ℓ where
  pub buffer : List A
  pub waiting : ℕ
  pub is_closed : Bool
  pub blocked : ℕ
  pub notified : ℕ

-- How a call of `Pop` goes on: it waits, it returns nothing, or it returns a value.
pub data Popped {ℓ} (A : Type ℓ) : Type ℓ where
  waits : Popped A
  nothing : Popped A
  popped : (value : A) → Popped A

module _ {ℓ} {A : Type ℓ} where
  abbrev pub init : Queue A
  init = record { buffer = []; waiting = 0; is_closed = false; blocked = 0; notified = 0 }

  -- `notify_one` and `notify_all` of the condition variable.
  abbrev pub notify_one : Queue A → Queue A
  notify_one q =
      if ltb 0 q.blocked then record q { blocked = q.blocked - 1; notified = q.notified + 1 } else q

  abbrev pub notify_all : Queue A → Queue A
  notify_all q = record q { blocked = 0; notified = q.notified + q.blocked }

  -- `Push`
  abbrev pub push : A → Queue A → Queue A
  push value q =
      let q' = record q { buffer = q.buffer ++ value ∷ [] } in
      if ltb 0 q.waiting then notify_one q' else q'

  -- `TryPop`, and the end of `Pop`: the front of a buffer.
  abbrev pub take_front : List A → Queue A → Popped A × Queue A
  take_front [] q = (nothing, q)
  take_front (value ∷ values) q = (popped value, record q { buffer = values })

  abbrev pub try_pop : Queue A → Popped A × Queue A
  try_pop q = take_front q.buffer q

  -- The loop of `Pop`, from its test on, by a thread that is counted in `waiting_`.
  abbrev pub test : Queue A → Popped A × Queue A
  test q =
      if not q.is_closed && is_empty q.buffer
      then (waits, record q { blocked = q.blocked + 1 })
      else take_front q.buffer (record q { waiting = q.waiting - 1 })

  -- `Pop`
  abbrev pub pop : Queue A → Popped A × Queue A
  pop q = test (record q { waiting = q.waiting + 1 })

  -- `Pop`, when the wait of a notified thread returns.
  abbrev pub resume : Queue A → Popped A × Queue A
  resume q = test (record q { notified = q.notified - 1 })

  -- `Close`
  abbrev pub close : Queue A → Queue A
  close q = let q' = record q { is_closed = true } in if ltb 0 q.waiting then notify_all q' else q'
