-- ===== src/Gc/Tests.antt =====
-- The theorems on source/gc at small inputs.
use cpp_concurrency.Base.{◌+◌, ◌≡◌, refl, inr, true, false, List, [], ◌∷◌, bit, ltb, arith, set_at}
use cpp_concurrency.Gc.{
  System, Thread, Pc, drop, loading, reading, setting, checking, protected, trying, ending,
  swapping, storing, given, taken, go, at,
}
use cpp_concurrency.Gc.References.{references, doomed_by}
use cpp_concurrency.Gc.Hazard.{Protect, GetMutator, mutator}
use cpp_concurrency.Gc.Shared.{Reset, MakeShared, add_ref}
use cpp_concurrency.Gc.Atomic.{Store, Load}
use cpp_concurrency.Gc.Steps.{Act, acts, enters, Reach, start, later}
use cpp_concurrency.Gc.Safety.{Reach-alive, Reach-counted}

-- Two threads. The first makes an object.
abbrev made : System
made = record {
  cell = 0;
  counter = set_at (λ _. 0) 7 1;
  alive = set_at (λ _. false) 7 true;
  held = given (λ _. 0) 7;
  threads = mutator ∷ mutator ∷ [];
}

-- It puts the object into the cell, and is about to give up its own pointer.
abbrev stored : System
stored =
    go (record (add_ref made 7) { cell = 7; held = taken made.held 7 }) 0
      (at mutator (ending (drop 7 ∷ [])))

-- The second has the object protected, and is about to read its counter.
abbrev loaded : System
loaded = go stored 1 (record { pc = trying loading 7; hazard = 7; retired = [] })

made_reached : Reach made
made_reached =
    later (later (later start (enters GetMutator.pushes)) (enters GetMutator.pushes))
      (acts 0 mutator refl (Act.makes (MakeShared.makes 7 refl (omega arith) refl)))

stored_reached : Reach stored
stored_reached =
    later
      (later
        (later
          (later made_reached
            (acts 0 mutator refl (Act.stores (Store.begins 7 refl (inr (omega arith))))))
          (acts 0 (at mutator (storing 7)) refl (Act.stores (Store.adds 7 refl (omega arith)))))
        (acts 0 (at mutator (swapping 7)) refl (Act.stores (Store.exchanges 7 refl))))
      (acts 0 (at mutator (ending (drop 0 ∷ drop 7 ∷ []))) refl
        (Act.resets (Reset.skips (drop 7 ∷ []) refl)))

abbrev aiming : Pc → Thread
aiming pc = record { pc = pc; hazard = 7; retired = [] }

loaded_reached : Reach loaded
loaded_reached =
    later
      (later
        (later
          (later (later stored_reached (acts 1 mutator refl (Act.loads (Load.begins refl)))) (
            acts 1 (at mutator (reading loading)) refl (Act.protects (Protect.loads loading refl))))
          (acts 1 (at mutator (setting loading 7)) refl
            (Act.protects (Protect.sets loading 7 refl))))
        (acts 1 (aiming (checking loading 7)) refl
          (Act.protects (Protect.succeeds loading 7 refl refl))))
      (acts 1 (aiming (protected loading 7)) refl (Act.loads (Load.tries 7 refl (omega arith))))

Reach-alive_example : loaded.alive 7 ≡ true
Reach-alive_example = Reach-alive 1 (aiming (trying loading 7)) loaded_reached refl (omega arith)

Reach-counted_example :
    (loaded.counter 7 ≡ references loaded 7)
    × (doomed_by loaded 7 + bit (ltb 0 (references loaded 7)) ≡ bit (loaded.alive 7))
Reach-counted_example = Reach-counted 7 loaded_reached (omega arith)

-- Two mutators that have retired objects.
abbrev retirees : List Thread
retirees =
    record { pc = ending []; hazard = 0; retired = 4 ∷ 9 ∷ [] }
    ∷ record { pc = ending []; hazard = 0; retired = 3 ∷ [] }
    ∷ []
