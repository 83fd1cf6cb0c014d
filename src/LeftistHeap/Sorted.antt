-- ===== src/LeftistHeap/Sorted.antt =====
-- The heap of source/detail/intrusive_leftist_heap.hpp as a priority queue.
use cpp_concurrency.Base.{
  ℕ, zero, suc, ◌≤◌, ◌≡◌, refl, none, some, List, [], ◌∷◌, inl, inr, length, All, SameItems,
  Option-cases, tally-le-length, length-SameItems, All-imp, arith,
}
use cpp_concurrency.LeftistHeap.{Timer, Heap, null, size, push, pop, to_list}
use cpp_concurrency.LeftistHeap.Order.{IsOrdered, push-IsOrdered, pop-IsOrdered}
use cpp_concurrency.LeftistHeap.Contents.{
  push-SameItems, pop-SameItems, pop-none, pop-bound, size-pop, size-length,
}

-- Timers pushed one after the other, the last in the list first.
abbrev pub push_all : List Timer → Heap
push_all [] = null
push_all (t ∷ ts) = push (push_all ts) t

-- What at most `n` calls of `Pop` give, one after the other.
pub pop_all : ℕ → Heap → List Timer
pop_all zero h = []
pop_all (suc n) h = elim (pop h) [ none ↦ [] | some taken ↦ taken.0 ∷ pop_all n taken.1 ]

-- No timer is due before one that stands in front of it.
abbrev pub IsSorted : List Timer → Type 0
IsSorted [] = Unit
IsSorted (t ∷ ts) = All (λ u. t.deadline ≤ u.deadline) ts × IsSorted ts

push_all-IsOrdered : (ts : List Timer) → IsOrdered (push_all ts)
push_all-IsOrdered [] = tt
push_all-IsOrdered (t ∷ ts) = push-IsOrdered (push_all ts) t (push_all-IsOrdered ts)

push_all-SameItems : (ts : List Timer) → SameItems (to_list (push_all ts)) ts
unfolding to_list
push_all-SameItems [] p = refl
push_all-SameItems (t ∷ ts) p =
    omega (arith, push-SameItems (push_all ts) t p, push_all-SameItems ts p)

-- As many calls as there are timers take them all.
pop_all-SameItems : (n : ℕ) (h : Heap) → size h ≤ n → SameItems (pop_all n h) (to_list h)
unfolding pop_all
pop_all-SameItems zero h le p = omega (arith, size-length h, tally-le-length p (to_list h))
pop_all-SameItems (suc n) h le p = elim (Option-cases (pop h)) [
  | inl e ↦ rw (pop_all, e, pop-none h e) refl
  | inr e ↦
      let ((x, rest), at) = e in
      let smaller = size-pop h x rest at in
      let same = pop_all-SameItems n rest (omega (arith, smaller)) p in
      rw (pop_all, at) (omega (arith, same, pop-SameItems h x rest at p))
]

pop_all-All :
    (n m : ℕ) (h : Heap)
    → IsOrdered h
    → All (λ t. m ≤ t.deadline) (to_list h)
    → All (λ t. m ≤ t.deadline) (pop_all n h)
unfolding pop_all
pop_all-All zero m h o a = tt
pop_all-All (suc n) m h o a = elim (Option-cases (pop h)) [
  | inl e ↦ rw (pop_all, e) tt
  | inr e ↦
      let ((x, rest), at) = e in
      let first = pop-bound m h x rest at a in
      let left = pop-IsOrdered h x rest at o in
      let above =
        All-imp (λ t. x.deadline ≤ t.deadline) (λ t. m ≤ t.deadline) (to_list rest)
          (λ t le. omega (arith, first)) left.1 in
      rw (pop_all, at) (first, pop_all-All n m rest left.0 above)
]

pop_all-IsSorted : (n : ℕ) (h : Heap) → IsOrdered h → IsSorted (pop_all n h)
unfolding pop_all
pop_all-IsSorted zero h o = tt
pop_all-IsSorted (suc n) h o = elim (Option-cases (pop h)) [
  | inl e ↦ rw (pop_all, e) tt
  | inr e ↦
      let ((x, rest), at) = e in
      let left = pop-IsOrdered h x rest at o in
      rw (pop_all, at) (pop_all-All n x.deadline rest left.0 left.1, pop_all-IsSorted n rest left.0)
]

size-push_all : (ts : List Timer) → size (push_all ts) ≡ length ts
size-push_all ts = omega (
  arith,
  size-length (push_all ts),
  length-SameItems (to_list (push_all ts)) ts (push_all-SameItems ts),
)

-- Timers that are pushed to an empty heap in any order, and popped as often, come out in the order
-- of their deadlines, each as often as it was pushed.
pub pushed-IsSorted :
    (ts : List Timer)
    → IsSorted (pop_all (length ts) (push_all ts))
      × SameItems (pop_all (length ts) (push_all ts)) ts
pushed-IsSorted ts = (
  pop_all-IsSorted (length ts) (push_all ts) (push_all-IsOrdered ts),
  λ p. omega (
    arith,
    pop_all-SameItems (length ts) (push_all ts) (omega (arith, size-push_all ts)) p,
    push_all-SameItems ts p,
  ),
)
