-- ===== src/Fibers/Count.antt =====
-- Who has a pointer to a fiber, by address, and which fibers there are.
use cpp_concurrency.Base.{
  ℕ, zero, suc, ◌+◌, ◌≡◌, refl, ap, Bool, not, List, [], ◌∷◌, ◌++◌, Option, none, some, get_elem?,
  set, length, total, total-append, bit, ◌==◌, if◌then◌else◌, arith,
}
use cpp_concurrency.Fibers.{
  Callback, Fiber, resuming, inside, back, returned, suspending, calling, Thread, thread, World,
}

-- A thread that has a fiber in hand whose routine is not at an end; and one behind `coroutine_.Resume()`.
abbrev pub early : ℕ → Thread → ℕ
early a (thread (resuming f) p) = bit (f == a)
early a (thread (inside f) p) = bit (f == a)
early a (thread (suspending f self cb) p) = bit (f == a)
early a (thread (calling f cb) p) = bit (f == a)
early a other = 0

abbrev pub late : ℕ → Thread → ℕ
late a (thread (back f) p) = bit (f == a)
late a (thread (returned f) p) = bit (f == a)
late a other = 0

abbrev pub points : ℕ → ℕ → ℕ
points a f = bit (f == a)

-- The places that a fiber waits in.
abbrev pub waits : ℕ → World → ℕ
waits a s = total (points a) s.tasks + total (points a) s.timers + total (points a) s.handles

-- All pointers through which a fiber can be resumed, suspended or deleted.
abbrev pub holders : ℕ → World → ℕ
holders a s = total (early a) s.threads + total (late a) s.threads + waits a s

abbrev pub live_in : Option (Option Fiber) → ℕ
live_in (some (some fb)) = 1
live_in other = 0

abbrev pub done_in : Option (Option Fiber) → ℕ
done_in (some (some fb)) = bit fb.is_done
done_in other = 0

abbrev pub bare_of : Option Callback → Bool → ℕ
bare_of none is_done = bit (not is_done)
bare_of (some cb) is_done = 0

-- Without a callback, and not at the end.
abbrev pub bare_in : Option (Option Fiber) → ℕ
bare_in (some (some fb)) = bare_of fb.callback fb.is_done
bare_in other = 0

module _ {ℓ} {A : Type ℓ} where
  -- What a list holds after a write.
  pub get_elem?-set_if :
      (xs : List A) (i : ℕ) (x y : A) (k : ℕ)
      → get_elem? xs i ≡ some x
      → get_elem? (set xs i y) k ≡ (if i == k then some y else get_elem? xs k)
  get_elem?-set_if [] i x y k e = cc
  get_elem?-set_if (z ∷ xs) zero x y zero e = refl
  get_elem?-set_if (z ∷ xs) zero x y (suc k) e = ground arith
  get_elem?-set_if (z ∷ xs) (suc i) x y zero e = ground arith
  get_elem?-set_if (z ∷ xs) (suc i) x y (suc k) e = ground (arith, get_elem?-set_if xs i x y k e)

  pub get_elem?-append_if :
      (xs : List A) (y : A) (k : ℕ)
      → get_elem? (xs ++ y ∷ []) k ≡ (if length xs == k then some y else get_elem? xs k)
  get_elem?-append_if [] y zero = refl
  get_elem?-append_if [] y (suc k) = ground arith
  get_elem?-append_if (x ∷ xs) y zero = ground arith
  get_elem?-append_if (x ∷ xs) y (suc k) = ground (arith, get_elem?-append_if xs y k)

  pub length-get : (xs : List A) → get_elem? xs (length xs) ≡ none
  length-get [] = refl
  length-get (x ∷ xs) = length-get xs

-- A pointer taken out of a list, or put behind it.
pub total-without :
    (a f : ℕ) (xs before after : List ℕ)
    → xs ≡ before ++ f ∷ after
    → total (points a) xs ≡ total (points a) (before ++ after) + points a f
total-without a f xs before after e = omega (
  arith,
  ap (total (points a)) e,
  total-append (points a) before (f ∷ after),
  total-append (points a) before after,
)

pub total-behind :
    (a f : ℕ) (xs : List ℕ) → total (points a) (xs ++ f ∷ []) ≡ total (points a) xs + points a f
total-behind a f xs = omega (arith, total-append (points a) xs (f ∷ []))
