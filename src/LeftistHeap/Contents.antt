-- ===== src/LeftistHeap/Contents.antt =====
-- Which timers a heap of source/detail/intrusive_leftist_heap.hpp holds.
use cpp_concurrency.Base.{
  ℕ, zero, suc, ◌+◌, ◌<◌, ◌≡◌, refl, Bool, [], ◌∷◌, ◌++◌, none, some, arith, tally, tally-append,
  SameItems, length-SameItems, subst, All, ◌≤◌, bit, length, length-append,
}
use cpp_concurrency.LeftistHeap.{
  Timer, Heap, null, node, size, link, merge_within, merge, push, pop, to_list,
}

-- The count of timers that pass a test, over the tree itself.
pub count : (Timer → Bool) → Heap → ℕ
count p null = 0
count p (node item d prev next) = bit (p item) + (count p prev + count p next)

pub tally-to_list : (p : Timer → Bool) (h : Heap) → tally p (to_list h) ≡ count p h
unfolding to_list count
tally-to_list p null = refl
tally-to_list p (node x d l r) =
    omega (arith, tally-append p (to_list l) (to_list r), tally-to_list p l, tally-to_list p r)

pub size-length : (h : Heap) → length (to_list h) ≡ size h
unfolding to_list size
size-length null = refl
size-length (node x d l r) =
    omega (arith, length-append (to_list l) (to_list r), size-length l, size-length r)

count-link :
    (p : Timer → Bool) (x : Timer) (a b : Heap)
    → count p (link x a b) ≡ bit (p x) + (count p a + count p b)
unfolding count link
count-link p x a b = ground arith

count-merge_within :
    (p : Timer → Bool) (f : ℕ) (a b : Heap)
    → size a + size b < f
    → count p (merge_within f a b) ≡ count p a + count p b
unfolding merge_within count size
count-merge_within p zero a b h = absurd (omega arith)
count-merge_within p (suc f) null b h = omega arith
count-merge_within p (suc f) (node x d l r) null h = omega arith
count-merge_within p (suc f) (node x d l r) (node y e l' r') h = ground (
  arith,
  count-link p y l' (merge_within f r' (node x d l r)),
  count-link p x l (merge_within f r (node y e l' r')),
  count-merge_within p f r' (node x d l r) (omega arith),
  count-merge_within p f r (node y e l' r') (omega arith),
)

pub count-merge : (p : Timer → Bool) (a b : Heap) → count p (merge a b) ≡ count p a + count p b
unfolding merge
count-merge p a b = count-merge_within p (suc (size a + size b)) a b (omega arith)

-- Merging two heaps loses no timer and makes up none: the merge holds the timers of both, each as
-- often.
pub merge-SameItems : (a b : Heap) → SameItems (to_list (merge a b)) (to_list a ++ to_list b)
merge-SameItems a b p = omega (
  arith,
  tally-to_list p (merge a b),
  tally-to_list p a,
  tally-to_list p b,
  tally-append p (to_list a) (to_list b),
  count-merge p a b,
)

pub push-SameItems : (h : Heap) (x : Timer) → SameItems (to_list (push h x)) (x ∷ to_list h)
unfolding push to_list
push-SameItems h x p =
    omega (arith, merge-SameItems h (node x 1 null null) p, tally-append p (to_list h) (x ∷ []))

-- A heap holds the timer that `Pop` takes and the timers that it leaves, each as often.
pub pop-SameItems :
    (h : Heap) (x : Timer) (rest : Heap)
    → pop h ≡ some (x, rest)
    → SameItems (to_list h) (x ∷ to_list rest)
unfolding pop to_list
pop-SameItems null x rest e p = cc
pop-SameItems (node y d l r) x rest e p = ground (arith, merge-SameItems l r p)

pub size-merge : (a b : Heap) → size (merge a b) ≡ size a + size b
size-merge a b = omega (
  arith,
  size-length (merge a b),
  size-length a,
  size-length b,
  length-append (to_list a) (to_list b),
  length-SameItems (to_list (merge a b)) (to_list a ++ to_list b) (merge-SameItems a b),
)

pub pop-null : (h : Heap) → pop h ≡ none → h ≡ null
unfolding pop
pop-null null e = refl
pop-null (node y d l r) e = cc

pub size-pop :
    (h : Heap) (x : Timer) (rest : Heap) → pop h ≡ some (x, rest) → size h ≡ suc (size rest)
unfolding pop size
size-pop null x rest e = cc
size-pop (node y d l r) x rest e = ground (arith, size-merge l r)

pub pop-none : (h : Heap) → pop h ≡ none → to_list h ≡ []
unfolding pop to_list
pop-none null e = refl
pop-none (node y d l r) e = cc

-- A bound on all deadlines is one on the deadline that `Pop` gives.
pub pop-bound :
    (n : ℕ) (h : Heap) (x : Timer) (rest : Heap)
    → pop h ≡ some (x, rest)
    → All (λ t. n ≤ t.deadline) (to_list h)
    → n ≤ x.deadline
unfolding pop to_list
pop-bound n null x rest e a = cc
pop-bound n (node y d l r) x rest e a = subst (λ (z : Timer). n ≤ z.deadline) same a.0
  where
    same : y ≡ x
    same = cc
