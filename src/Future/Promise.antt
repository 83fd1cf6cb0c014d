-- ===== src/Future/Promise.antt =====
-- `Promise` and `Future` of source/future/make/contract.hpp and source/future/type/future.hpp: the two
-- handles of a contract.
use cpp_concurrency.Base.{Bool, true, false, not, Option, none, some, List, [], ◌∷◌, ◌++◌}

-- A `Promise`: whether `cs_` still points to the state, and what `Produce` of that state was called
-- with, in order.
pub record Promise {ℓ} (A : Type ℓ) : Type ℓ where
  pub holds_state : Bool
  pub produced : List A

module _ {ℓ} {A : Type ℓ} where
  -- The promise of a new `Contract`.
  abbrev pub fresh : Promise A
  fresh = record { holds_state = true; produced = [] }

  -- `Set`. `ReleaseState` gives a null pointer the second time, and `Produce` is then called through
  -- it: `none`.
  abbrev pub set : A → Promise A → Option (Promise A)
  set v p = elim p.holds_state [
    | true ↦ some (record { holds_state = false; produced = p.produced ++ v ∷ [] })
    | false ↦ none
  ]

  -- `IsSatisfied`
  abbrev pub is_satisfied : Promise A → Bool
  is_satisfied p = not p.holds_state
