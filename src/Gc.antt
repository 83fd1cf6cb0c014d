-- ===== src/Gc.antt =====
-- source/gc: shared pointers with a counter of references (atomic_shared_ptr.hpp), reclaimed by hazard pointers
-- (hazard/). The state of the memory and of the threads; its children have the operations. Each access
-- to an atomic is a step, and the steps of all threads interleave in a total order.
pub mod Hazard
pub mod Shared
pub mod Atomic
pub mod Steps
pub mod References
pub mod Invariant
pub mod HazardKeeps
pub mod SharedKeeps
pub mod AtomicKeeps
pub mod Safety
pub mod Shutdown
mod Tests
use cpp_concurrency.Base.{ℕ, ◌-◌, ◌+◌, ◌<◌, ◌≡◌, ◌⊎◌, Bool, List, ◌==◌, if◌then◌else◌, set, set_at}

-- An address of a `SharedState`; 0 is the null pointer. An address that has been freed can come back.
abbrev pub Ptr : Type 0
Ptr = ℕ

abbrev pub null : Ptr
null = 0

-- Why a thread reads the cell: for `Load`, or for `CompareExchangeWeak` of an expected and a desired
-- pointer.
pub data Job : Type 0 where
  loading : Job
  exchanging : (expected desired : Ptr) → Job

-- What is left to do at the end of an operation: destructors of shared pointers, the guard that resets the
-- hazard pointer, a shared pointer that the caller gets, and one more turn of the loop.
pub data Todo : Type 0 where
  drop : Ptr → Todo
  clear : Todo
  give : Ptr → Todo
  again : Job → Todo

-- Where a thread stands.
pub data Pc : Type 0 where
  -- In `Store`, before `AddRef` and before the exchange.
  storing swapping : Ptr → Pc
  -- In `CompareExchangeWeak`, before `AddRef`.
  announcing : (expected desired : Ptr) → Pc
  -- In `Protect`, before the load, the store into the hazard pointer, and the second load.
  reading : Job → Pc
  setting checking : Job → Ptr → Pc
  -- With the pointer protected; in `TryAddRef`, before the load and before the compare-exchange.
  protected trying : Job → Ptr → Pc
  adding : Job → Ptr → (old : ℕ) → Pc
  -- At the end of an operation. Outside of any, nothing is left to do.
  ending : List Todo → Pc
  -- In `Retire`, before the list gets the object; in `Gc`, with the objects that are kept; and in
  -- `IsProtected` for an object, with the number of mutators when it began and of those not yet read.
  retiring : Ptr → List Todo → Pc
  sweeping : (kept : List Ptr) → List Todo → Pc
  scanning : Ptr → (kept : List Ptr) → (top left : ℕ) → List Todo → Pc

-- A thread with its `Mutator`. Of the hazard pointers that a mutator has, the shared pointers use the first,
-- and the others stay null.
pub record Thread : Type 0 where
  pub pc : Pc
  pub hazard : Ptr
  pub retired : List Ptr

-- An `AtomicSharedPtr` is `cell`. For each address the counter, whether an object is there, and how many
-- shared pointers outside of the operations point to it. The mutators are in the order in which they
-- were added, the head of the list of the collector last.
pub record System : Type 0 where
  pub cell : Ptr
  pub counter : Ptr → ℕ
  pub alive : Ptr → Bool
  pub held : Ptr → ℕ
  pub threads : List Thread

-- The thread `j` goes on as `t`.
abbrev pub go : System → ℕ → Thread → System
go s j t = record s { threads = set s.threads j t }

abbrev pub at : Thread → Pc → Thread
at t pc = record t { pc = pc }

-- A shared pointer that is not null goes from the caller into an operation, or back.
abbrev pub taken : (Ptr → ℕ) → Ptr → Ptr → ℕ
taken held a = if a == null then held else set_at held a (held a - 1)

abbrev pub given : (Ptr → ℕ) → Ptr → Ptr → ℕ
given held a = if a == null then held else set_at held a (held a + 1)

-- The caller has a shared pointer to `a`.
abbrev pub Has : (Ptr → ℕ) → Ptr → Type 0
Has held a = (a ≡ null) ⊎ (0 < held a)
