-- ===== src/Future/Both.antt =====
-- `Both` of source/future/combine/concur/all.hpp: the futures of a pair, joined.
pub mod Laws
use Prim.Native.Nat.{bit_or}
use cpp_concurrency.Base.{ℕ, Option, none, some, ◌==◌, if◌then◌else◌}
use cpp_concurrency.Future.Interleave.{Side, left, right, Pc, ready, stored, chosen, ended}
use cpp_concurrency.Future.Promise.{Promise, fresh, set}

-- `ProtectedPromise`, which the two callbacks share, and where they stand. The callback of `f1` is
-- the left side.
pub record World {ℓ} (A B : Type ℓ) : Type ℓ where
  pub v1 : Option A
  pub v2 : Option B
  pub promise : Promise (A × B)
  pub state : ℕ
  pub first : Pc
  pub second : Pc

module _ {ℓ} {A B : Type ℓ} where
  -- `std::make_tuple(*state->v1, *state->v2)` for `Set`. `none` is a read of a storage before its
  -- `Emplace`, or a second `Set`.
  pub finish : Option A → Option B → Promise (A × B) → Option (Promise (A × B))
  finish none b p = none
  finish (some a) none p = none
  finish (some a) (some b) p = set (a, b) p

  -- The callback of `f1`, called with `a`, an access at a time.
  first_step : A → World A B → Pc → Option (World A B)
  first_step a w ready = some (record w { v1 = some a; first = stored })
  first_step a w stored =
      some (record w { state = bit_or w.state 1; first = if w.state == 2 then chosen else ended })
  first_step a w chosen = elim (finish w.v1 w.v2 w.promise) [
    | none ↦ none
    | some p ↦ some (record w { promise = p; first = ended })
  ]
  first_step a w ended = some w

  -- The callback of `f2`, called with `b`.
  second_step : B → World A B → Pc → Option (World A B)
  second_step b w ready = some (record w { v2 = some b; second = stored })
  second_step b w stored =
      some (record w { state = bit_or w.state 2; second = if w.state == 1 then chosen else ended })
  second_step b w chosen = elim (finish w.v1 w.v2 w.promise) [
    | none ↦ none
    | some p ↦ some (record w { promise = p; second = ended })
  ]
  second_step b w ended = some w

  pub step : A → B → Side → World A B → Option (World A B)
  unfolding first_step second_step finish
  step a b left w = first_step a w w.first
  step a b right w = second_step b w w.second

  pub init : World A B
  init = record { v1 = none; v2 = none; promise = fresh; state = 0; first = ready; second = ready }
