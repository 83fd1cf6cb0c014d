-- ===== src/Gc/Shared.antt =====
-- source/gc/atomic_shared_ptr.hpp: `SharedState` and `SharedPtr`.
use cpp_concurrency.Base.{ℕ, ◌+◌, ◌-◌, ◌<◌, ◌≡◌, ◌≢◌, true, false, List, [], ◌∷◌, set_at}
use cpp_concurrency.Gc.{
  System, Thread, Ptr, null, Job, Todo, drop, give, again, trying, adding, reading, clear, ending,
  retiring, go, at, taken, given, Has,
}

-- `AddRef`
abbrev pub add_ref : System → Ptr → System
add_ref s a = record s { counter = set_at s.counter a (s.counter a + 1) }

-- The subtraction of `Unlink`.
abbrev pub sub_ref : System → Ptr → System
sub_ref s a = record s { counter = set_at s.counter a (s.counter a - 1) }

module _ (s : System) (j : ℕ) (t : Thread) where
  -- `SharedPtr::Reset`, which its destructor calls, with `Unlink`.
  pub data Reset : System → Type 0 where
    skips :
        (rest : List Todo) → t.pc ≡ ending (drop null ∷ rest) → Reset (go s j (at t (ending rest)))
    unlinks :
        (a : Ptr) (rest : List Todo)
        → t.pc ≡ ending (drop a ∷ rest)
        → a ≢ null
        → s.counter a ≢ 1
        → Reset (go (sub_ref s a) j (at t (ending rest)))
    unlinks_last :
        (a : Ptr) (rest : List Todo)
        → t.pc ≡ ending (drop a ∷ rest)
        → a ≢ null
        → s.counter a ≡ 1
        → Reset (go (sub_ref s a) j (at t (retiring a rest)))

  -- `TryAddRef`, in the loops of `Load` and of `CompareExchangeWeak`. The weak compare-exchange can fail for
  -- no reason. `taker` says how an operation goes on with the reference.
  pub data TryAddRef (taker : Job → Ptr → List Todo) : System → Type 0 where
    reads :
        (job : Job) (p : Ptr)
        → t.pc ≡ trying job p
        → TryAddRef taker (go s j (at t (adding job p (s.counter p))))
    gives_up :
        (job : Job) (p : Ptr)
        → t.pc ≡ adding job p 0
        → TryAddRef taker (go s j (at t (ending (clear ∷ again job ∷ []))))
    adds :
        (job : Job) (p : Ptr) (old : ℕ)
        → t.pc ≡ adding job p old
        → old ≢ 0
        → s.counter p ≡ old
        → TryAddRef taker (go (add_ref s p) j (at t (ending (taker job p))))
    fails :
        (job : Job) (p : Ptr) (old : ℕ)
        → t.pc ≡ adding job p old
        → old ≢ 0
        → TryAddRef taker (go s j (at t (adding job p (s.counter p))))

  -- `MakeShared`, at an address where nothing is.
  pub data MakeShared : System → Type 0 where
    makes :
        (a : Ptr)
        → t.pc ≡ ending []
        → a ≢ null
        → s.alive a ≡ false
        → MakeShared (record s {
          alive = set_at s.alive a true;
          counter = set_at s.counter a 1;
          held = given s.held a;
        })

  -- The copy constructor, with `Init`. A copy of a null pointer is one, and so is not a step.
  pub data Copy : System → Type 0 where
    copies :
        (a : Ptr)
        → t.pc ≡ ending []
        → a ≢ null
        → 0 < s.held a
        → Copy (record (add_ref s a) { held = given s.held a })

  -- The end of a shared pointer, by its destructor or by `Reset`.
  pub data Destroy : System → Type 0 where
    resets :
        (a : Ptr)
        → t.pc ≡ ending []
        → Has s.held a
        → Destroy (go (record s { held = taken s.held a }) j (at t (ending (drop a ∷ []))))

  -- Copy assignment of a pointer to `b` over one to `a`: a temporary copy, a swap, and the end of the
  -- temporary.
  pub data CopyAssign : System → Type 0 where
    takes_null :
        (a : Ptr)
        → t.pc ≡ ending []
        → Has s.held a
        → CopyAssign (go (record s { held = taken s.held a }) j (at t (ending (drop a ∷ []))))
    assigns :
        (a b : Ptr)
        → t.pc ≡ ending []
        → Has s.held a
        → b ≢ null
        → 0 < s.held b
        → CopyAssign (
            go
              (record (add_ref s b) { held = given (taken s.held a) b })
              j
              (at t (ending (drop a ∷ []))))

  -- Move assignment over a pointer to `a`. The pointer that moves is one pointer before and after.
  pub data MoveAssign : System → Type 0 where
    moves :
        (a : Ptr)
        → t.pc ≡ ending []
        → Has s.held a
        → MoveAssign (go (record s { held = taken s.held a }) j (at t (ending (drop a ∷ []))))

  -- An operation hands a shared pointer to its caller, or begins its loop again.
  pub data Return : System → Type 0 where
    gives :
        (a : Ptr) (rest : List Todo)
        → t.pc ≡ ending (give a ∷ rest)
        → Return (go (record s { held = given s.held a }) j (at t (ending rest)))
    repeats : (job : Job) → t.pc ≡ ending (again job ∷ []) → Return (go s j (at t (reading job)))
