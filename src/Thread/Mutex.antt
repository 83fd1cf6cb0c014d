-- ===== src/Thread/Mutex.antt =====
-- source/thread/mutex.hpp: a mutex on a futex, and the threads that use it. Each access to the atomic is
-- a step, and each call of the futex, which compares and goes to sleep at once; the steps of all threads
-- interleave in a total order.
pub mod Invariant
pub mod Safety
use cpp_concurrency.Base.{ℕ, ◌≡◌, ◌≢◌, Bool, true, false, ◌==◌, if◌then◌else◌, set_at}

-- Where a thread stands: outside; in the loop of `Lock`, before its exchange, or before it calls the
-- futex, or asleep in it; the owner; or in `Unlock`, about to wake a thread.
pub data Pc : Type 0 where
  outside swapping checking sleeping inside waking : Pc

-- `Mutex`: `is_vacant_`, which is `Unlocked` (0), `Locked` (1) or `Waiting` (2); and the threads.
pub record System : Type 0 where
  pub is_vacant : ℕ
  pub pcs : ℕ → Pc

abbrev pub go : System → ℕ → ℕ → Pc → System
go s is_vacant j pc = record { is_vacant = is_vacant; pcs = set_at s.pcs j pc }

-- A step of the thread `j`. Only the owner unlocks.
pub data Step (s : System) : System → Type 0 where
  -- The compare-exchange of `Lock`.
  locks : (j : ℕ) → s.pcs j ≡ outside → s.is_vacant ≡ 0 → Step s (go s 1 j inside)
  misses : (j : ℕ) → s.pcs j ≡ outside → s.is_vacant ≢ 0 → Step s (go s s.is_vacant j swapping)
  -- The exchange of the loop.
  swaps : (j : ℕ) → s.pcs j ≡ swapping → s.is_vacant ≡ 0 → Step s (go s 2 j inside)
  swaps_in_vain : (j : ℕ) → s.pcs j ≡ swapping → s.is_vacant ≢ 0 → Step s (go s 2 j checking)
  -- `futex::Wait`
  sleeps : (j : ℕ) → s.pcs j ≡ checking → s.is_vacant ≡ 2 → Step s (go s s.is_vacant j sleeping)
  returns : (j : ℕ) → s.pcs j ≡ checking → s.is_vacant ≢ 2 → Step s (go s s.is_vacant j swapping)
  wakes_up : (j : ℕ) → s.pcs j ≡ sleeping → Step s (go s s.is_vacant j swapping)
  -- The exchange of `Unlock`.
  unlocks :
      (j : ℕ) → s.pcs j ≡ inside → Step s (go s 0 j (if s.is_vacant == 2 then waking else outside))
  -- `futex::WakeOne`, where the thread `k` sleeps, and where none does.
  wakes :
      (j k : ℕ)
      → s.pcs j ≡ waking
      → s.pcs k ≡ sleeping
      → Step s (go (go s s.is_vacant k swapping) s.is_vacant j outside)
  wakes_none :
      (j : ℕ)
      → s.pcs j ≡ waking
      → ((k : ℕ) → s.pcs k ≢ sleeping)
      → Step s (go s s.is_vacant j outside)

abbrev pub init : System
init = record { is_vacant = 0; pcs = λ _. outside }

pub data Reach : System → Type 0 where
  start : Reach init
  later : {s t : System} → Reach s → Step s t → Reach t
