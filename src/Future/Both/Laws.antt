-- ===== src/Future/Both/Laws.antt =====
-- `Both` of source/future/combine/concur/all.hpp sets its promise once, to both values.
use cpp_concurrency.Base.{◌≤◌, ◌≡◌, refl, ◌⊎◌, inl, inr, true, false, some, List, [], ◌∷◌}
use cpp_concurrency.Future.Interleave.{Side, left, right, written, turns, run}
use cpp_concurrency.Future.Meet.{
  Phase, before, left_ended, right_ended, left_chosen, right_chosen, over, pc, announced, next,
  meet-run, meet-over,
}
use cpp_concurrency.Future.Promise.{Promise}
use cpp_concurrency.Future.Both.{World, step, init}

module _ {ℓ} {A B : Type ℓ} (a : A) (b : B) where
  abbrev promised : Phase → Promise (A × B)
  promised over = record { holds_state = false; produced = (a, b) ∷ [] }
  promised _ = record { holds_state = true; produced = [] }

  abbrev world : Phase → World A B
  world ph = record {
    v1 = written a (pc left ph);
    v2 = written b (pc right ph);
    promise = promised ph;
    state = announced ph;
    first = pc left ph;
    second = pc right ph;
  }

  follows : (s : Side) (ph : Phase) → step a b s (world ph) ≡ some (world (next s ph))
  unfolding step
  follows left (before false r) = refl
  follows left (before true r) = refl
  follows left (left_ended r) = refl
  follows left (right_ended false) = refl
  follows left (right_ended true) = refl
  follows left left_chosen = refl
  follows left right_chosen = refl
  follows left over = refl
  follows right (before l false) = refl
  follows right (before l true) = refl
  follows right (right_ended l) = refl
  follows right (left_ended false) = refl
  follows right (left_ended true) = refl
  follows right left_chosen = refl
  follows right right_chosen = refl
  follows right over = refl

  init-world : init ≡ world (before false false)
  unfolding init
  init-world = refl

  -- No schedule of the two callbacks of `Both` reads a value before it is there or sets the promise
  -- twice, and the promise is set to the pair of the values or not yet.
  pub both_safe :
      (ss : List Side)
      → (w : World A B) × (run (step a b) ss init ≡ some w)
        × (((w.promise).produced ≡ []) ⊎ ((w.promise).produced ≡ (a, b) ∷ []))
  both_safe ss =
      let (ph, e) = meet-run (step a b) world follows ss in (world ph, rw init-world e, set_once ph)
    where
      set_once :
          (ph : Phase) → ((promised ph).produced ≡ []) ⊎ ((promised ph).produced ≡ (a, b) ∷ [])
      set_once over = inr refl
      set_once (before l r) = inl refl
      set_once (left_ended r) = inl refl
      set_once (right_ended l) = inl refl
      set_once left_chosen = inl refl
      set_once right_chosen = inl refl

  -- After three turns of each callback of `Both`, on any schedule, no step has faulted and the
  -- promise has been set once, to the pair of the values.
  pub both_complete :
      (ss : List Side)
      → 3 ≤ turns left ss
      → 3 ≤ turns right ss
      → (w : World A B) × (run (step a b) ss init ≡ some w)
        × (w.promise ≡ record { holds_state = false; produced = (a, b) ∷ [] })
  both_complete ss l r =
      (world over, rw init-world (meet-over (step a b) world follows ss l r), refl)
