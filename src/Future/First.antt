-- ===== src/Future/First.antt =====
-- `First` of source/future/combine/concur/first.hpp: the value of the future that is ready first.
pub mod Laws
use cpp_concurrency.Base.{Bool, true, false, Option, none, some, if◌then◌else◌}
use cpp_concurrency.Future.Interleave.{Side, left, right, Pc, ready, stored, chosen, ended, pc_of}
use cpp_concurrency.Future.Promise.{Promise, fresh, set}

-- `ProtectedPromise`, and where the two calls of the callback stand. The call by `f1` is the left one.
pub record World {ℓ} (T : Type ℓ) : Type ℓ where
  pub is_satisfied : Bool
  pub promise : Promise T
  pub first : Pc
  pub second : Pc

module _ {ℓ} {T : Type ℓ} where
  -- A side that moves on.
  abbrev pub at_pc : Side → Pc → World T → World T
  at_pc left pc w = record w { first = pc }
  at_pc right pc w = record w { second = pc }

  -- The callback, called with `v` by the future of a side. A second `Set` is `none`. The exchange is
  -- its first access.
  callback : Side → T → World T → Pc → Option (World T)
  callback s v w ready =
      some (at_pc s (if w.is_satisfied then ended else chosen) (record w { is_satisfied = true }))
  callback s v w stored = some w
  callback s v w chosen = elim (set v w.promise) [
    | none ↦ none
    | some p ↦ some (at_pc s ended (record w { promise = p }))
  ]
  callback s v w ended = some w

  pub step : T → T → Side → World T → Option (World T)
  unfolding callback
  step a b left w = callback left a w w.first
  step a b right w = callback right b w w.second

  pub init : World T
  init = record { is_satisfied = false; promise = fresh; first = ready; second = ready }
