-- ===== src/Base/Update.antt =====
-- Functions from native numbers, changed at one place.
use Prim.Native.Nat.{ℕ}
use mathlib.Core.Path.{◌≡◌, ap}
use mathlib.Core.Logic.{◌≢◌, ◌⊎◌, inl, inr}
use cpp_concurrency.Base.Tests.{◌==◌, if◌then◌else◌, ==-cases}

module _ {ℓ} {A : Type ℓ} where
  abbrev pub set_at : (ℕ → A) → ℕ → A → ℕ → A
  set_at f i a j = if j == i then a else f j

  pub set_at-cases :
      (f : ℕ → A) (i : ℕ) (a : A) (j : ℕ)
      → ((j ≡ i) × (set_at f i a j ≡ a)) ⊎ ((j ≢ i) × (set_at f i a j ≡ f j))
  set_at-cases f i a j = elim (==-cases j i) [
    | inl e ↦ inl (e.0, ap (λ b. if b then a else f j) e.1)
    | inr e ↦ inr (e.0, ap (λ b. if b then a else f j) e.1)
  ]
