-- ===== src/Result/Laws.antt =====
-- The combinators of source/result/combine: a functor, a monad, and a handler.
use cpp_concurrency.Base.{◌≡◌, refl}
use cpp_concurrency.Result.{Result, ok, err, or_else, transform, and_then}

module _ {ℓ} {T U V E : Type ℓ} where
  -- A pipeline of two `AndThen` is one, `AndThen(Ok)` does nothing, `Map` is an `AndThen`, and an
  -- `OrElse` before an `AndThen` runs its handler on an error only.
  pub result_laws :
      (r : Result T E) (f : T → Result U E) (g : U → Result V E) (h : T → U) (k : E → Result T E)
      → (and_then g (and_then f r) ≡ and_then (λ v. and_then g (f v)) r)
        × (and_then ok r ≡ r)
        × (transform h r ≡ and_then (λ v. ok (h v)) r)
        × (and_then f (or_else k r) ≡ (elim r [ ok v ↦ f v | err e ↦ and_then f (k e) ]))
  unfolding or_else transform and_then
  result_laws (ok v) f g h k = (refl, refl, refl, refl)
  result_laws (err e) f g h k = (refl, refl, refl, refl)
