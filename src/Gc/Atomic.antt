-- ===== src/Gc/Atomic.antt =====
-- source/gc/atomic_shared_ptr.hpp: `AtomicSharedPtr`. What `TryAddRef` does is in Shared, what `Protect` does
-- in Hazard.
use cpp_concurrency.Base.{ℕ, ◌≡◌, ◌≢◌, List, [], ◌∷◌}
use cpp_concurrency.Gc.{
  System, Thread, Ptr, null, Job, loading, exchanging, Todo, drop, clear, give, again, storing,
  swapping, announcing, reading, protected, trying, ending, go, at, taken, Has,
}
use cpp_concurrency.Gc.Shared.{add_ref}

-- What is left once `TryAddRef` has taken a reference: `Load` returns it; `CompareExchangeWeak` gives up the
-- reference that it took for the cell, and `expected` becomes the new one.
abbrev pub taker : Job → Ptr → List Todo
taker loading p = clear ∷ give p ∷ []
taker (exchanging e d) p = drop d ∷ drop e ∷ clear ∷ drop d ∷ give p ∷ []

module _ (s : System) (j : ℕ) (t : Thread) where
  -- `Store`, which the destructor calls with a null pointer. `target` is a parameter, destroyed at the end.
  pub data Store : System → Type 0 where
    begins :
        (a : Ptr)
        → t.pc ≡ ending []
        → Has s.held a
        → Store (go (record s { held = taken s.held a }) j (at t (storing a)))
    skips_null : t.pc ≡ storing null → Store (go s j (at t (swapping null)))
    adds : (a : Ptr) → t.pc ≡ storing a → a ≢ null → Store (go (add_ref s a) j (at t (swapping a)))
    exchanges :
        (a : Ptr)
        → t.pc ≡ swapping a
        → Store (go (record s { cell = a }) j (at t (ending (drop s.cell ∷ drop a ∷ []))))

  -- `Load`, around the loop of `Protect`.
  pub data Load : System → Type 0 where
    begins : t.pc ≡ ending [] → Load (go s j (at t (reading loading)))
    finds_null : t.pc ≡ protected loading null → Load (go s j (at t (ending (clear ∷ []))))
    tries :
        (p : Ptr) → t.pc ≡ protected loading p → p ≢ null → Load (go s j (at t (trying loading p)))

  -- `CompareExchangeWeak`, around the loop of `Protect`. `expected` is the caller's, and `desired` a parameter.
  pub data CompareExchangeWeak : System → Type 0 where
    begins :
        (e d : Ptr)
        → t.pc ≡ ending []
        → Has s.held e
        → Has (taken s.held e) d
        → CompareExchangeWeak
            (go (record s { held = taken (taken s.held e) d }) j (at t (announcing e d)))
    skips_null :
        (e : Ptr)
        → t.pc ≡ announcing e null
        → CompareExchangeWeak (go s j (at t (reading (exchanging e null))))
    adds :
        (e d : Ptr)
        → t.pc ≡ announcing e d
        → d ≢ null
        → CompareExchangeWeak (go (add_ref s d) j (at t (reading (exchanging e d))))
    -- The pointers are equal, and so is the cell at the compare-exchange.
    exchanges :
        (e d : Ptr)
        → t.pc ≡ protected (exchanging e d) e
        → s.cell ≡ e
        → CompareExchangeWeak
            (go (record s { cell = d }) j (at t (ending (drop e ∷ clear ∷ drop d ∷ give e ∷ []))))
    -- The compare-exchange fails, for a reason or for none.
    fails :
        (e d : Ptr)
        → t.pc ≡ protected (exchanging e d) e
        → CompareExchangeWeak (go s j (at t (ending (clear ∷ again (exchanging e d) ∷ []))))
    finds_null :
        (e d : Ptr)
        → t.pc ≡ protected (exchanging e d) null
        → e ≢ null
        → CompareExchangeWeak (go s j (at t (ending (drop d ∷ drop e ∷ clear ∷ drop d ∷ []))))
    tries :
        (e d p : Ptr)
        → t.pc ≡ protected (exchanging e d) p
        → e ≢ p
        → p ≢ null
        → CompareExchangeWeak (go s j (at t (trying (exchanging e d) p)))
