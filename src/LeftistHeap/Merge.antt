-- ===== src/LeftistHeap/Merge.antt =====
-- The fuel of `Merge` is enough: `merge` satisfies the equations of the source.
use cpp_concurrency.Base.{ℕ, zero, suc, ◌+◌, ◌<◌, ◌≡◌, refl, arith, ltb, if◌then◌else◌}
use cpp_concurrency.LeftistHeap.{Timer, Heap, null, node, size, link, merge_within, merge}

-- More fuel than there are timers changes nothing.
pub merge_within-enough :
    (f g : ℕ) (a b : Heap)
    → size a + size b < f
    → size a + size b < g
    → merge_within f a b ≡ merge_within g a b
unfolding merge_within size
merge_within-enough zero g a b p q = absurd (omega arith)
merge_within-enough (suc f) zero a b p q = absurd (omega arith)
merge_within-enough (suc f) (suc g) null b p q = refl
merge_within-enough (suc f) (suc g) (node x d l r) null p q = refl
merge_within-enough (suc f) (suc g) (node x d l r) (node y e l' r') p q = ground (
  arith,
  merge_within-enough f g r' (node x d l r) (omega arith) (omega arith),
  merge_within-enough f g r (node y e l' r') (omega arith) (omega arith),
)

pub merge-null : (a : Heap) → (merge null a ≡ a) × (merge a null ≡ a)
unfolding merge merge_within
merge-null null = (refl, refl)
merge-null (node x d l r) = (refl, refl)

-- On two nodes `Merge` satisfies the equation of its source: the root with the earlier deadline
-- stays, the left one on a tie, and its right child is merged with the other heap.
pub merge-node :
    (x y : Timer) (d e : ℕ) (l r l' r' : Heap)
    → merge (node x d l r) (node y e l' r') ≡ (
        if ltb y.deadline x.deadline
        then link y l' (merge r' (node x d l r))
        else link x l (merge r (node y e l' r')))
unfolding merge merge_within size
merge-node x y d e l r l' r' = ground (
  arith,
  merge_within-enough (suc (size l + size r) + suc (size l' + size r'))
      (suc (size r' + suc (size l + size r))) r' (node x d l r) (omega arith) (omega arith),
  merge_within-enough (suc (size l + size r) + suc (size l' + size r'))
      (suc (size r + suc (size l' + size r'))) r (node y e l' r') (omega arith) (omega arith),
)
