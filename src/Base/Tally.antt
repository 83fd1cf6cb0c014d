-- ===== src/Base/Tally.antt =====
-- How often a test holds along a list. Two lists with the same tallies hold the same items, as often.
use Prim.Native.Nat.{ℕ, zero, suc, ◌+◌, ◌≤◌}
use mathlib.Core.Path.{◌≡◌, refl, subst}
use mathlib.Core.Bool.{Bool, true, false}
use mathlib.Core.Option.{some}
use mathlib.Core.List.{List, [], ◌∷◌, ◌++◌}
use cpp_concurrency.Base.Lists.{length, get_elem?, set}
use cpp_concurrency.Base.Sums.{total}
use native.Mathlib.Omega.{arith}

abbrev pub bit : Bool → ℕ
bit true = 1
bit false = 0

module _ {ℓ} {A : Type ℓ} where
  abbrev pub tally : (A → Bool) → List A → ℕ
  tally p [] = 0
  tally p (x ∷ xs) = bit (p x) + tally p xs

  -- The same items, each as often, in any order.
  abbrev pub SameItems : List A → List A → Type ℓ
  SameItems xs ys = (p : A → Bool) → tally p xs ≡ tally p ys

  pub tally-append : (p : A → Bool) (xs ys : List A) → tally p (xs ++ ys) ≡ tally p xs + tally p ys
  tally-append p [] ys = omega arith
  tally-append p (x ∷ xs) ys = omega (arith, tally-append p xs ys)

  -- Of how many items there are.
  tally-true : (xs : List A) → tally (λ _. true) xs ≡ length xs
  tally-true [] = refl
  tally-true (x ∷ xs) = omega (arith, tally-true xs)

  pub length-SameItems : (xs ys : List A) → SameItems xs ys → length xs ≡ length ys
  length-SameItems xs ys h = omega (arith, tally-true xs, tally-true ys, h (λ _. true))

module _ {ℓ κ} {A : Type ℓ} (P : A → Type κ) where
  -- `P` holds of every item.
  abbrev pub All : List A → Type κ
  All [] = Unit
  All (x ∷ xs) = P x × All xs

  pub All-append : (xs ys : List A) → All xs → All ys → All (xs ++ ys)
  All-append [] ys hx hy = hy
  All-append (x ∷ xs) ys hx hy = (hx.0, All-append xs ys hx.1 hy)

module _ {ℓ κ} {A : Type ℓ} (P : A → Type κ) where
  pub All-get : (xs : List A) (i : ℕ) (x : A) → get_elem? xs i ≡ some x → All P xs → P x
  All-get [] i x e a = cc
  All-get (y ∷ xs) zero x e a = let same : y ≡ x = cc in subst P same a.0
  All-get (y ∷ xs) (suc i) x e a = All-get xs i x e a.1

  pub All-set : (xs : List A) (i : ℕ) (y : A) → P y → All P xs → All P (set xs i y)
  All-set [] i y p a = tt
  All-set (x ∷ xs) zero y p a = (p, a.1)
  All-set (x ∷ xs) (suc i) y p a = (a.0, All-set xs i y p a.1)

-- Sums of numbers that agree.
pub total-congr {ℓ} :
    {A : Type ℓ} (f g : A → ℕ) (xs : List A) → All (λ x. f x ≡ g x) xs → total f xs ≡ total g xs
total-congr f g [] a = refl
total-congr f g (x ∷ xs) a = omega (arith, a.0, total-congr f g xs a.1)

pub All-imp {ℓ κ} :
    {A : Type ℓ} (P Q : A → Type κ) (xs : List A) → ((a : A) → P a → Q a) → All P xs → All Q xs
All-imp P Q [] h a = tt
All-imp P Q (x ∷ xs) h a = (h x a.0, All-imp P Q xs h a.1)

module _ {ℓ} {A : Type ℓ} where
  pub tally-le-length : (p : A → Bool) (xs : List A) → tally p xs ≤ length xs
  tally-le-length p [] = omega arith
  tally-le-length p (x ∷ xs) = ground (arith, tally-le-length p xs)

  pub tally-none : (p : A → Bool) (xs : List A) → All (λ x. p x ≡ false) xs → tally p xs ≡ 0
  tally-none p [] a = refl
  tally-none p (x ∷ xs) a = ground (arith, tally-none p xs a.1)
