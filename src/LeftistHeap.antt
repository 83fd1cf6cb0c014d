-- ===== src/LeftistHeap.antt =====
-- source/detail/intrusive_leftist_heap.hpp: the heap of timers that every timer queue stands on.
pub mod Merge
pub mod Contents
pub mod Order
pub mod Balance
pub mod Sorted
mod Tests
use cpp_concurrency.Base.{
  ℕ, zero, suc, ◌+◌, Bool, true, false, Option, none, some, List, [], ◌∷◌, ◌++◌, ltb, if◌then◌else◌,
}

-- A `TimerBase` without its links: the task that `Run` runs, and the deadline in microseconds.
pub record Timer : Type 0 where
  pub task : ℕ
  pub deadline : ℕ

-- A `TimerBase*`. The links stand for the subtrees that `prev` and `next` point to.
pub data Heap : Type 0 where
  null : Heap
  node : (item : Timer) (depth : ℕ) (prev next : Heap) → Heap

-- `Depth`
unfoldable pub depth : Heap → ℕ
depth null = 0
depth (node item d prev next) = d

-- The number of timers, by which the recursion of `Merge` is bounded.
unfoldable pub size : Heap → ℕ
size null = 0
size (node item d prev next) = suc (size prev + size next)

-- The timers of a heap, the root first.
pub to_list : Heap → List Timer
to_list null = []
to_list (node item d prev next) = item ∷ (to_list prev ++ to_list next)

-- The end of `Merge`, once `lhs->next` is merged: the deeper child goes to `prev`.
unfoldable pub link : Timer → Heap → Heap → Heap
unfolding depth
link item prev next =
    if ltb (depth prev) (depth next)
    then node item (depth prev + 1) next prev
    else node item (depth next + 1) prev next

-- `Merge` with fuel.
unfoldable pub merge_within : ℕ → Heap → Heap → Heap
merge_within zero lhs rhs = lhs
merge_within (suc f) null rhs = rhs
merge_within (suc f) (node x d l r) null = node x d l r
merge_within (suc f) (node x d l r) (node y e l' r') =
    let swapped = link y l' (merge_within f r' (node x d l r)) in
    let kept = link x l (merge_within f r (node y e l' r')) in
    if ltb y.deadline x.deadline then swapped else kept

-- `Merge`
unfoldable pub merge : Heap → Heap → Heap
merge lhs rhs = merge_within (suc (size lhs + size rhs)) lhs rhs

-- `Push`
unfoldable pub push : Heap → Timer → Heap
push top item = merge top (node item 1 null null)

-- `Top`
unfoldable pub top : Heap → Option Timer
top null = none
top (node item d prev next) = some item

-- `Pop`. On an empty heap the source reads through a null pointer: `none`.
unfoldable pub pop : Heap → Option (Timer × Heap)
pop null = none
pop (node item d prev next) = some (item, merge prev next)

-- `IsEmpty`
unfoldable pub is_empty : Heap → Bool
is_empty null = true
is_empty (node item d prev next) = false
