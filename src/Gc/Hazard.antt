-- ===== src/Gc/Hazard.antt =====
-- source/gc/hazard: the hazard pointers of owner.hpp, `Retire` and `Gc` of mutator.cpp, `IsProtected` of
-- collector.hpp, and `GetMutator` of hazard.cpp.
use cpp_concurrency.Base.{
  ℕ, suc, ◌≡◌, ◌≢◌, false, List, [], ◌∷◌, ◌++◌, some, get_elem?, length, set_at,
}
use cpp_concurrency.Gc.{
  System, Thread, Pc, Ptr, null, Job, Todo, clear, reading, setting, checking, protected, ending,
  retiring, sweeping, scanning, go, at,
}

-- `IsProtected` begins at the head of the list of mutators.
abbrev pub look_for : System → Ptr → List Ptr → List Todo → Pc
look_for s a kept rest = scanning a kept (length s.threads) (length s.threads) rest

module _ (s : System) (j : ℕ) (t : Thread) where
  -- `PtrOwner::Protect`, a loop of a load, a store into the hazard pointer, and a second load.
  pub data Protect : System → Type 0 where
    loads : (job : Job) → t.pc ≡ reading job → Protect (go s j (at t (setting job s.cell)))
    sets :
        (job : Job) (p : Ptr)
        → t.pc ≡ setting job p
        → Protect (go s j (record t { pc = checking job p; hazard = p }))
    succeeds :
        (job : Job) (p : Ptr)
        → t.pc ≡ checking job p
        → s.cell ≡ p
        → Protect (go s j (at t (protected job p)))
    repeats :
        (job : Job) (p : Ptr)
        → t.pc ≡ checking job p
        → s.cell ≢ p
        → Protect (go s j (at t (reading job)))

  -- `~PtrResetGuard`
  pub data ScopedReset : System → Type 0 where
    resets :
        (rest : List Todo)
        → t.pc ≡ ending (clear ∷ rest)
        → ScopedReset (go s j (record t { pc = ending rest; hazard = null }))

  -- `Mutator::Retire`, up to the call of `Gc`.
  pub data Retire : System → Type 0 where
    retires :
        (a : Ptr) (rest : List Todo)
        → t.pc ≡ retiring a rest
        → Retire (go s j (record t { pc = sweeping [] rest; retired = t.retired ++ a ∷ [] }))

  -- The loop of `Mutator::Gc`, without `IsProtected`.
  pub data Gc : System → Type 0 where
    pops :
        (kept : List Ptr) (rest : List Todo) (a : Ptr) (others : List Ptr)
        → t.pc ≡ sweeping kept rest
        → t.retired ≡ a ∷ others
        → Gc (go s j (record t { pc = look_for s a kept rest; retired = others }))
    appends :
        (kept : List Ptr) (rest : List Todo)
        → t.pc ≡ sweeping kept rest
        → t.retired ≡ []
        → Gc (go s j (record t { pc = ending rest; retired = kept }))

  -- `Collector::IsProtected`, from the head of the list of mutators to its end, and what `Gc` does with the
  -- answer.
  pub data IsProtected : System → Type 0 where
    finds :
        (a : Ptr) (kept : List Ptr) (top k : ℕ) (rest : List Todo) (u : Thread)
        → t.pc ≡ scanning a kept top (suc k) rest
        → get_elem? s.threads k ≡ some u
        → u.hazard ≡ a
        → IsProtected (go s j (at t (sweeping (kept ++ a ∷ []) rest)))
    passes :
        (a : Ptr) (kept : List Ptr) (top k : ℕ) (rest : List Todo) (u : Thread)
        → t.pc ≡ scanning a kept top (suc k) rest
        → get_elem? s.threads k ≡ some u
        → u.hazard ≢ a
        → IsProtected (go s j (at t (scanning a kept top k rest)))
    restarts :
        (a : Ptr) (kept : List Ptr) (top : ℕ) (rest : List Todo)
        → t.pc ≡ scanning a kept top 0 rest
        → length s.threads ≢ top
        → IsProtected (go s j (at t (look_for s a kept rest)))
    destroys :
        (a : Ptr) (kept : List Ptr) (top : ℕ) (rest : List Todo)
        → t.pc ≡ scanning a kept top 0 rest
        → length s.threads ≡ top
        → IsProtected
            (go (record s { alive = set_at s.alive a false }) j (at t (sweeping kept rest)))

-- `Mutator`, as it is made.
abbrev pub mutator : Thread
mutator = record { pc = ending []; hazard = null; retired = [] }

-- `Collector::GetMutator` of a thread that has none: the mutator becomes the head of the list.
pub data GetMutator (s : System) : System → Type 0 where
  pushes : GetMutator s (record s { threads = s.threads ++ mutator ∷ [] })
