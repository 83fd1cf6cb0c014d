-- ===== src/Base/Sums.antt =====
-- Numbers added up along a list, and a list changed at one place.
use Prim.Native.Nat.{ℕ, zero, suc, ◌+◌, ◌≤◌, ◌<◌}
use mathlib.Core.Path.{◌≡◌, refl, ap}
use mathlib.Core.Logic.{◌≢◌, ◌⊎◌, inl, inr}
use mathlib.Core.Option.{some}
use mathlib.Core.List.{List, [], ◌∷◌, ◌++◌}
use cpp_concurrency.Base.Lists.{length, get_elem?, set}
use cpp_concurrency.Base.Tests.{Bool-cases, ltb}
use native.Mathlib.Omega.{arith}

module _ {ℓ} {A : Type ℓ} where
  abbrev pub total : (A → ℕ) → List A → ℕ
  total f [] = 0
  total f (x ∷ xs) = f x + total f xs

  pub total-set :
      (f : A → ℕ) (xs : List A) (i : ℕ) (x y : A)
      → get_elem? xs i ≡ some x
      → total f (set xs i y) + f x ≡ total f xs + f y
  total-set f [] i x y e = cc
  total-set f (z ∷ xs) zero x y e = let same : z ≡ x = cc in omega (arith, ap f same)
  total-set f (z ∷ xs) (suc i) x y e = omega (arith, total-set f xs i x y e)

  pub set_self : (xs : List A) (i : ℕ) (x : A) → get_elem? xs i ≡ some x → xs ≡ set xs i x
  set_self [] i x e = refl
  set_self (z ∷ xs) zero x e = let same : z ≡ x = cc in ap (λ y. y ∷ xs) same
  set_self (z ∷ xs) (suc i) x e = ap (◌∷◌ z) (set_self xs i x e)

  pub le-total :
      (f : A → ℕ) (xs : List A) (i : ℕ) (x : A) → get_elem? xs i ≡ some x → f x ≤ total f xs
  le-total f [] i x e = cc
  le-total f (z ∷ xs) zero x e = let same : z ≡ x = cc in omega (arith, ap f same)
  le-total f (z ∷ xs) (suc i) x e = omega (arith, le-total f xs i x e)

  -- A sum above 0 has a part above 0.
  pub some_of_total :
      (f : A → ℕ) (xs : List A)
      → 0 < total f xs
      → (i : ℕ) × (x : A) × (get_elem? xs i ≡ some x) × (0 < f x)
  some_of_total f [] h = absurd (omega arith)
  some_of_total f (x ∷ xs) h = elim (Bool-cases (ltb 0 (f x))) [
    | inl e ↦ (0, x, refl, ground arith)
    | inr e ↦ let (i, y, at, pos) = some_of_total f xs (ground arith) in (suc i, y, at, pos)
  ]

  pub total-append : (f : A → ℕ) (xs ys : List A) → total f (xs ++ ys) ≡ total f xs + total f ys
  total-append f [] ys = omega arith
  total-append f (x ∷ xs) ys = omega (arith, total-append f xs ys)

  pub length-set : (xs : List A) (i : ℕ) (y : A) → length (set xs i y) ≡ length xs
  length-set [] i y = refl
  length-set (x ∷ xs) zero y = refl
  length-set (x ∷ xs) (suc i) y = ap suc (length-set xs i y)

  pub get_elem?-lt : (xs : List A) (i : ℕ) (x : A) → get_elem? xs i ≡ some x → i < length xs
  get_elem?-lt [] i x e = cc
  get_elem?-lt (z ∷ xs) zero x e = omega arith
  get_elem?-lt (z ∷ xs) (suc i) x e = omega (arith, get_elem?-lt xs i x e)

  -- What is found after a write was written, or stands at another place.
  pub get_elem?-set :
      (xs : List A) (i : ℕ) (y : A) (k : ℕ) (z : A)
      → get_elem? (set xs i y) k ≡ some z
      → ((k ≡ i) × (z ≡ y)) ⊎ ((k ≢ i) × (get_elem? xs k ≡ some z))
  get_elem?-set [] i y k z e = cc
  get_elem?-set (x ∷ xs) zero y zero z e = inl (refl, cc)
  get_elem?-set (x ∷ xs) zero y (suc k) z e = inr (omega arith, e)
  get_elem?-set (x ∷ xs) (suc i) y zero z e = inr (omega arith, e)
  get_elem?-set (x ∷ xs) (suc i) y (suc k) z e = elim (get_elem?-set xs i y k z e) [
    | inl a ↦ inl (ap suc a.0, a.1)
    | inr a ↦ inr (omega (arith, a.0), a.1)
  ]

  -- The item found behind the end of a list is the one that was put there.
  pub get_elem?-append_cases :
      (xs : List A) (y : A) (k : ℕ) (z : A)
      → get_elem? (xs ++ y ∷ []) k ≡ some z
      → ((k ≡ length xs) × (z ≡ y)) ⊎ (get_elem? xs k ≡ some z)
  get_elem?-append_cases [] y zero z e = inl (refl, cc)
  get_elem?-append_cases [] y (suc k) z e = cc
  get_elem?-append_cases (x ∷ xs) y zero z e = inr e
  get_elem?-append_cases (x ∷ xs) y (suc k) z e = elim (get_elem?-append_cases xs y k z e) [
    | inl a ↦ inl (ap suc a.0, a.1)
    | inr a ↦ inr a
  ]
