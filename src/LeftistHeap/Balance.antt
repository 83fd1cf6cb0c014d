-- ===== src/LeftistHeap/Balance.antt =====
-- The leftist shape of source/detail/intrusive_leftist_heap.hpp, and what it bounds.
use cpp_concurrency.Base.{
  ℕ, zero, suc, ◌+◌, ◌^◌, ◌≤◌, ◌<◌, ◌≡◌, refl, inl, inr, some, arith, ◌∙◌, Bool-cases, ltb, ltb→lt,
}
use native.Mathlib.Nat.{pow-suc}
use cpp_concurrency.LeftistHeap.{
  Timer, Heap, null, node, depth, size, link, merge_within, merge, push, pop,
}
use cpp_concurrency.LeftistHeap.Merge.{merge_within-enough}

-- `depth` is one more than that of `next`, whose depth is at most that of `prev`.
abbrev pub IsLeftist : Heap → Type 0
IsLeftist null = Unit
IsLeftist (node x d l r) = (d ≡ depth r + 1) × (depth r ≤ depth l) × IsLeftist l × IsLeftist r

link-IsLeftist : (x : Timer) (a b : Heap) → IsLeftist a → IsLeftist b → IsLeftist (link x a b)
unfolding link
link-IsLeftist x a b la lb = elim (Bool-cases (ltb (depth a) (depth b))) [
  | inl less ↦ rw less (refl, omega (arith, ltb→lt (depth a) (depth b)), lb, la)
  | inr more ↦ rw more (refl, ground arith, la, lb)
]

merge_within-IsLeftist :
    (f : ℕ) (a b : Heap) → IsLeftist a → IsLeftist b → IsLeftist (merge_within f a b)
unfolding merge_within
merge_within-IsLeftist zero a b la lb = la
merge_within-IsLeftist (suc f) null b la lb = lb
merge_within-IsLeftist (suc f) (node x d l r) null la lb = la
merge_within-IsLeftist (suc f) (node x d l r) (node y e l' r') la lb = ground (
  arith,
  link-IsLeftist y l' (merge_within f r' (node x d l r)),
  link-IsLeftist x l (merge_within f r (node y e l' r')),
  merge_within-IsLeftist f r' (node x d l r) lb.3 la,
  merge_within-IsLeftist f r (node y e l' r') la.3 lb,
)

-- The merge of two leftist heaps is leftist, with each depth up to date.
pub merge-IsLeftist : (a b : Heap) → IsLeftist a → IsLeftist b → IsLeftist (merge a b)
unfolding merge
merge-IsLeftist a b la lb = merge_within-IsLeftist _ a b la lb

pub push-IsLeftist : (h : Heap) (x : Timer) → IsLeftist h → IsLeftist (push h x)
unfolding push depth
push-IsLeftist h x l = merge-IsLeftist h (node x 1 null null) l (refl, omega arith, tt, tt)

pub pop-IsLeftist :
    (h : Heap) (x : Timer) (rest : Heap) → pop h ≡ some (x, rest) → IsLeftist h → IsLeftist rest
unfolding pop
pop-IsLeftist null x rest e l = cc
pop-IsLeftist (node y d l r) x rest e h = ground (arith, merge-IsLeftist l r h.2 h.3)

two_pow-le : (k : ℕ) (h : Heap) → IsLeftist h → k ≤ depth h → 2 ^ k ≤ size h + 1
unfolding depth size
two_pow-le zero h l le = omega arith
two_pow-le (suc k) null l le = absurd (omega arith)
two_pow-le (suc k) (node x d l r) h le = rw pow-suc (
    omega (arith, two_pow-le k l h.2 (omega (arith, h.0)), two_pow-le k r h.3 (omega (arith, h.0))))

-- A leftist heap of depth `d` holds at least 2 ^ d - 1 timers.
pub two_pow-depth-le : (h : Heap) → IsLeftist h → 2 ^ depth h ≤ size h + 1
two_pow-depth-le h l = two_pow-le (depth h) h l (omega arith)

merge_within-deep_enough :
    (f g : ℕ) (a b : Heap)
    → IsLeftist a
    → IsLeftist b
    → depth a + depth b < f
    → depth a + depth b < g
    → merge_within f a b ≡ merge_within g a b
unfolding merge_within depth
merge_within-deep_enough zero g a b la lb p q = absurd (omega arith)
merge_within-deep_enough (suc f) zero a b la lb p q = absurd (omega arith)
merge_within-deep_enough (suc f) (suc g) null b la lb p q = refl
merge_within-deep_enough (suc f) (suc g) (node x d l r) null la lb p q = refl
merge_within-deep_enough (suc f) (suc g) (node x d l r) (node y e l' r') la lb p q = ground (
  arith,
  merge_within-deep_enough f g r' (node x d l r) lb.3 la (omega arith) (omega arith),
  merge_within-deep_enough f g r (node y e l' r') la.3 lb (omega arith) (omega arith),
)

-- On leftist heaps `Merge` calls itself no deeper than the sum of the depths of the two: with that
-- much fuel the result is that of `Merge`.
pub merge_within-depth :
    (a b : Heap)
    → IsLeftist a
    → IsLeftist b
    → merge_within (suc (depth a + depth b)) a b ≡ merge a b
unfolding merge
merge_within-depth a b la lb =
    merge_within-deep_enough _ (suc (depth a + depth b + (size a + size b))) a b la lb (omega arith)
      (omega arith)
    ∙ merge_within-enough _ (suc (size a + size b)) a b (omega arith) (omega arith)
