-- ===== src/Result.antt =====
-- source/result: values and errors. `Result` is `std::expected`, and `Try` a synonym of it.
pub mod Laws
use cpp_concurrency.Base.{Bool, true, false}

-- `Result`
pub data Result {ℓ} (T E : Type ℓ) : Type ℓ where
  ok : T → Result T E
  err : E → Result T E

module _ {ℓ} {T E : Type ℓ} where
  -- `has_value`, by which an `expected` is tested.
  abbrev pub has_value : Result T E → Bool
  has_value (ok v) = true
  has_value (err e) = false

  -- `pipe::OrElse::Pipe`, by `expected::or_else`
  unfoldable pub or_else : (E → Result T E) → Result T E → Result T E
  or_else user (ok v) = ok v
  or_else user (err e) = user e

  module _ {U : Type ℓ} where
    -- `pipe::Map::Pipe`, by `expected::transform`
    unfoldable pub transform : (T → U) → Result T E → Result U E
    transform user (ok v) = ok (user v)
    transform user (err e) = err e

    -- `pipe::AndThen::Pipe`, by `expected::and_then`
    unfoldable pub and_then : (T → Result U E) → Result T E → Result U E
    and_then user (ok v) = user v
    and_then user (err e) = err e
