-- ===== src/Gc/Steps.antt =====
-- The steps of all threads that use an `AtomicSharedPtr` of source/gc/atomic_shared_ptr.hpp.
use cpp_concurrency.Base.{ℕ, ◌≡◌, false, [], some, get_elem?}
use cpp_concurrency.Gc.{System, Thread, null}
use cpp_concurrency.Gc.Hazard.{Protect, ScopedReset, Retire, Gc, IsProtected, GetMutator}
use cpp_concurrency.Gc.Shared.{
  Reset, TryAddRef, MakeShared, Copy, Destroy, CopyAssign, MoveAssign, Return,
}
use cpp_concurrency.Gc.Atomic.{taker, Store, Load, CompareExchangeWeak}

-- A step of the thread `j`, which is `t`.
pub data Act (s : System) (j : ℕ) (t : Thread) (s' : System) : Type 0 where
  protects : Protect s j t s' → Act s j t s'
  unprotects : ScopedReset s j t s' → Act s j t s'
  retires : Retire s j t s' → Act s j t s'
  collects : Gc s j t s' → Act s j t s'
  scans : IsProtected s j t s' → Act s j t s'
  resets : Reset s j t s' → Act s j t s'
  tries : TryAddRef s j t taker s' → Act s j t s'
  makes : MakeShared s j t s' → Act s j t s'
  copies : Copy s j t s' → Act s j t s'
  destroys : Destroy s j t s' → Act s j t s'
  copy_assigns : CopyAssign s j t s' → Act s j t s'
  move_assigns : MoveAssign s j t s' → Act s j t s'
  returns : Return s j t s' → Act s j t s'
  stores : Store s j t s' → Act s j t s'
  loads : Load s j t s' → Act s j t s'
  exchanges : CompareExchangeWeak s j t s' → Act s j t s'

pub data Step (s s' : System) : Type 0 where
  acts : (j : ℕ) (t : Thread) → get_elem? s.threads j ≡ some t → Act s j t s' → Step s s'
  enters : GetMutator s s' → Step s s'

abbrev pub init : System
init = record { cell = null; counter = λ _. 0; alive = λ _. false; held = λ _. 0; threads = [] }

pub data Reach : System → Type 0 where
  start : Reach init
  later : {s t : System} → Reach s → Step s t → Reach t
