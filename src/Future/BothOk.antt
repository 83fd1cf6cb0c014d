-- ===== src/Future/BothOk.antt =====
-- `BothOk` of source/future/combine/concur/result/all.hpp: fallible futures, joined.
pub mod Laws
use Prim.Native.Nat.{bit_or}
use cpp_concurrency.Base.{ℕ, Bool, ◌&&◌, Option, none, some, is_some, ◌==◌, if◌then◌else◌}
use cpp_concurrency.Future.Interleave.{Side, left, right, Pc, ready, stored, chosen, ended}
use cpp_concurrency.Future.Promise.{Promise, fresh, set}
use cpp_concurrency.Result.{Result, ok, err}

-- `ProtectedPromise`, which the two callbacks share, and where they stand. The callback of `f1` is
-- the left side.
pub record World {ℓ} (A B E : Type ℓ) : Type ℓ where
  pub v1 : Option A
  pub v2 : Option B
  pub promise : Promise (Result (A × B) E)
  pub state : ℕ
  pub first : Pc
  pub second : Pc

module _ {ℓ} {A B E : Type ℓ} where
  -- `Set(std::make_tuple(*state->v1, *state->v2))`. `none` is a read of a storage before its
  -- `Emplace`, or a second `Set`.
  pub finish :
      Option A → Option B → Promise (Result (A × B) E) → Option (Promise (Result (A × B) E))
  finish none b p = none
  finish (some a) none p = none
  finish (some a) (some b) p = set (ok (a, b)) p

  -- The callback of `f1`, called with a result, an access at a time. On an error it sets the promise
  -- and then the bit `Fail`; on a value it writes the value, and then the bit `First`.
  first_step : Result A E → World A B E → Pc → Option (World A B E)
  first_step (err e) w ready = elim (set (err e) w.promise) [
    | none ↦ none
    | some p ↦ some (record w { promise = p; first = stored })
  ]
  first_step (err e) w stored = some (record w { state = bit_or w.state 4; first = ended })
  first_step (err e) w chosen = some w
  first_step (err e) w ended = some w
  first_step (ok a) w ready = some (record w { v1 = some a; first = stored })
  first_step (ok a) w stored =
      some (record w { state = bit_or w.state 1; first = if w.state == 2 then chosen else ended })
  first_step (ok a) w chosen = elim (finish w.v1 w.v2 w.promise) [
    | none ↦ none
    | some p ↦ some (record w { promise = p; first = ended })
  ]
  first_step (ok a) w ended = some w

  -- The callback of `f2`.
  second_step : Result B E → World A B E → Pc → Option (World A B E)
  second_step (err e) w ready = elim (set (err e) w.promise) [
    | none ↦ none
    | some p ↦ some (record w { promise = p; second = stored })
  ]
  second_step (err e) w stored = some (record w { state = bit_or w.state 4; second = ended })
  second_step (err e) w chosen = some w
  second_step (err e) w ended = some w
  second_step (ok b) w ready = some (record w { v2 = some b; second = stored })
  second_step (ok b) w stored =
      some (record w { state = bit_or w.state 2; second = if w.state == 1 then chosen else ended })
  second_step (ok b) w chosen = elim (finish w.v1 w.v2 w.promise) [
    | none ↦ none
    | some p ↦ some (record w { promise = p; second = ended })
  ]
  second_step (ok b) w ended = some w

  -- `~ProtectedPromise`: whether each `~ManualStorage` finds an object to destroy.
  abbrev pub releases : World A B E → Bool
  releases w = is_some w.v1 && is_some w.v2

  pub step : Result A E → Result B E → Side → World A B E → Option (World A B E)
  unfolding first_step second_step finish
  step a b left w = first_step a w w.first
  step a b right w = second_step b w w.second

  pub init : World A B E
  init = record { v1 = none; v2 = none; promise = fresh; state = 0; first = ready; second = ready }
