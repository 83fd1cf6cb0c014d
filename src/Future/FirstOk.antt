-- ===== src/Future/FirstOk.antt =====
-- `FirstOk` of source/future/combine/concur/result/first.hpp: the first success, or the last error.
pub mod Laws
use cpp_concurrency.Base.{ℕ, Option, none, some, ◌==◌, if◌then◌else◌}
use cpp_concurrency.Future.Interleave.{Side, left, right, Pc, ready, stored, chosen, ended}
use cpp_concurrency.Future.Promise.{Promise, fresh, set}
use cpp_concurrency.Result.{Result, ok, err}

-- `ProtectedPromise`, and where the two calls of the callback stand. `state` is `ReturnValue` (0),
-- `Satisfied` (1) or `ReportError` (2). The call by `f1` is the left one.
pub record World {ℓ} (T E : Type ℓ) : Type ℓ where
  pub state : ℕ
  pub promise : Promise (Result T E)
  pub first : Pc
  pub second : Pc

module _ {ℓ} {T E : Type ℓ} where
  abbrev pub at_pc : Side → Pc → World T E → World T E
  at_pc left pc w = record w { first = pc }
  at_pc right pc w = record w { second = pc }

  -- The callback, called with a result by the future of a side. Its first access is the exchange of
  -- one of the two conditions. A second `Set` is `none`.
  callback : Side → Result T E → World T E → Pc → Option (World T E)
  callback s (ok v) w ready =
      some (at_pc s (if w.state == 1 then ended else chosen) (record w { state = 1 }))
  callback s (err e) w ready =
      some (at_pc s (if w.state == 2 then chosen else ended) (record w { state = 2 }))
  callback s x w stored = some w
  callback s x w chosen = elim (set x w.promise) [
    | none ↦ none
    | some p ↦ some (at_pc s ended (record w { promise = p }))
  ]
  callback s x w ended = some w

  pub step : Result T E → Result T E → Side → World T E → Option (World T E)
  unfolding callback
  step x y left w = callback left x w w.first
  step x y right w = callback right y w w.second

  pub init : World T E
  init = record { state = 0; promise = fresh; first = ready; second = ready }
