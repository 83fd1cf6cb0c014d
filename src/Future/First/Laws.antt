-- ===== src/Future/First/Laws.antt =====
-- `First` of source/future/combine/concur/first.hpp sets its promise once, to the value that came first.
use cpp_concurrency.Base.{◌≤◌, ◌≡◌, refl, ◌⊎◌, inl, inr, Bool, true, false, some, List, [], ◌∷◌}
use cpp_concurrency.Future.Interleave.{Side, left, right, pc_of, turns, run}
use cpp_concurrency.Future.Race.{Phase, start, won, pc, next, race-run, race-over}
use cpp_concurrency.Future.Promise.{Promise, fresh}
use cpp_concurrency.Future.First.{World, step, init}

module _ {ℓ} {T : Type ℓ} (a b : T) where
  abbrev satisfied : Phase → Bool
  satisfied start = false
  satisfied _ = true

  abbrev promised : Phase → Promise T
  promised (won s true m) = record { holds_state = false; produced = pc_of s a b ∷ [] }
  promised _ = fresh

  abbrev world : Phase → World T
  world ph = record {
    is_satisfied = satisfied ph;
    promise = promised ph;
    first = pc left ph;
    second = pc right ph;
  }

  follows : (s : Side) (ph : Phase) → step a b s (world ph) ≡ some (world (next s ph))
  unfolding step
  follows left start = refl
  follows right start = refl
  follows left (won left false m) = refl
  follows left (won left true m) = refl
  follows right (won left false false) = refl
  follows right (won left true false) = refl
  follows right (won left false true) = refl
  follows right (won left true true) = refl
  follows left (won right false false) = refl
  follows left (won right true false) = refl
  follows left (won right false true) = refl
  follows left (won right true true) = refl
  follows right (won right false m) = refl
  follows right (won right true m) = refl

  init-world : init ≡ world start
  unfolding init
  init-world = refl

  -- No schedule of the two calls of the callback of `First` that starts with a side `s` faults, and
  -- the promise is set to the value of `s` or not yet.
  pub first_safe :
      (s : Side) (ss : List Side)
      → (w : World T) × (run (step a b) (s ∷ ss) init ≡ some w)
        × (((w.promise).produced ≡ []) ⊎ ((w.promise).produced ≡ pc_of s a b ∷ []))
  first_safe s ss =
      let (f, m, e) = race-run (step a b) world follows s ss in
      (world (won s f m), rw init-world e, set_once f m)
    where
      set_once :
          (f m : Bool)
          → ((promised (won s f m)).produced ≡ [])
            ⊎ ((promised (won s f m)).produced ≡ pc_of s a b ∷ [])
      set_once true m = inr refl
      set_once false m = inl refl

  -- `First`, on a schedule that starts with the side `s` and has two turns for each callback: no
  -- step faults, and the promise is set once, to the value of `s`.
  pub first_complete :
      (s : Side) (ss : List Side)
      → 2 ≤ turns left (s ∷ ss)
      → 2 ≤ turns right (s ∷ ss)
      → (w : World T) × (run (step a b) (s ∷ ss) init ≡ some w)
        × (w.promise ≡ record { holds_state = false; produced = pc_of s a b ∷ [] })
  first_complete s ss l r =
      (world (won s true true), rw init-world (race-over (step a b) world follows s ss l r), refl)
