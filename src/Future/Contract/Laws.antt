-- ===== src/Future/Contract/Laws.antt =====
-- The contract of source/future/detail/contract_state.hpp: the callback is called once, with the value.
use cpp_concurrency.Base.{◌≤◌, ◌≡◌, refl, ◌⊎◌, inl, inr, Bool, true, false, some, List, [], ◌∷◌}
use cpp_concurrency.Future.Interleave.{Side, left, right, written, turns, run}
use cpp_concurrency.Future.Meet.{
  Phase, before, left_ended, right_ended, left_chosen, right_chosen, over, pc, announced, next,
  meet-run, meet-over,
}
use cpp_concurrency.Future.Contract.{World, step, init}

module _ {ℓ} {K T : Type ℓ} (k : K) (v : T) where
  abbrev is_over : Phase → Bool
  is_over over = true
  is_over _ = false

  abbrev called : Phase → List (K × T)
  called over = (k, v) ∷ []
  called _ = []

  -- The contract in each phase.
  abbrev world : Phase → World K T
  world ph = record {
    contract = record {
      state = announced ph;
      callback = written k (pc right ph);
      result = written v (pc left ph);
      calls = called ph;
      deleted = is_over ph;
    };
    producer = pc left ph;
    consumer = pc right ph;
  }

  follows : (s : Side) (ph : Phase) → step k v s (world ph) ≡ some (world (next s ph))
  unfolding step
  follows left (before false r) = refl
  follows left (before true r) = refl
  follows left (left_ended r) = refl
  follows left (right_ended false) = refl
  follows left (right_ended true) = refl
  follows left left_chosen = refl
  follows left right_chosen = refl
  follows left over = refl
  follows right (before l false) = refl
  follows right (before l true) = refl
  follows right (right_ended l) = refl
  follows right (left_ended false) = refl
  follows right (left_ended true) = refl
  follows right left_chosen = refl
  follows right right_chosen = refl
  follows right over = refl

  init-world : init ≡ world (before false false)
  unfolding init
  init-world = refl

  -- Whatever the schedule of a producer and a consumer, no storage is read before its `Emplace` and
  -- the contract is not touched after `delete this`; the callback has been called at most once, and
  -- then with the value.
  pub contract_safe :
      (ss : List Side)
      → (w : World K T) × (run (step k v) ss init ≡ some w)
        × (((w.contract).calls ≡ []) ⊎ ((w.contract).calls ≡ (k, v) ∷ []))
  contract_safe ss =
      let (ph, e) = meet-run (step k v) world follows ss in
      (world ph, rw init-world e, called_once ph)
    where
      called_once : (ph : Phase) → (called ph ≡ []) ⊎ (called ph ≡ (k, v) ∷ [])
      called_once over = inr refl
      called_once (before l r) = inl refl
      called_once (left_ended r) = inl refl
      called_once (right_ended l) = inl refl
      called_once left_chosen = inl refl
      called_once right_chosen = inl refl

  -- Once a producer and a consumer of a contract have had three turns each, on any schedule, no
  -- step has faulted, the callback has been called once, with the value, and the contract is
  -- deleted.
  pub contract_complete :
      (ss : List Side)
      → 3 ≤ turns left ss
      → 3 ≤ turns right ss
      → (w : World K T) × (run (step k v) ss init ≡ some w)
        × ((w.contract).calls ≡ (k, v) ∷ [])
        × ((w.contract).deleted ≡ true)
  contract_complete ss l r =
      (world over, rw init-world (meet-over (step k v) world follows ss l r), refl, refl)
