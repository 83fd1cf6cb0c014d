-- ===== src/LeftistHeap/Tests.antt =====
-- A heap of three timers, of source/detail/intrusive_leftist_heap.hpp.
use cpp_concurrency.Base.{◌≡◌, refl, some, List, [], ◌∷◌, SameItems, arith}
use cpp_concurrency.LeftistHeap.{
  Timer, Heap, null, node, depth, size, link, merge_within, merge, pop,
}
use cpp_concurrency.LeftistHeap.Sorted.{push_all, pop_all, IsSorted, pushed-IsSorted}
use cpp_concurrency.LeftistHeap.Balance.{IsLeftist, pop-IsLeftist}

abbrev early : Timer
early = record { task = 1; deadline = 5 }

abbrev late : Timer
late = record { task = 2; deadline = 9 }

abbrev other : Timer
other = record { task = 3; deadline = 9 }

abbrev two_timers : Heap
two_timers = node early 1 (node late 1 null null) null

abbrev one_timer : Heap
one_timer = node other 1 null null

abbrev three_timers : Heap
three_timers = node early 2 (node late 1 null null) (node other 1 null null)

-- The merge of the two, computed.
merged : merge two_timers one_timer ≡ three_timers
unfolding merge merge_within size link depth
merged = refl

popped : pop two_timers ≡ some (early, node late 1 null null)
unfolding pop merge merge_within size
popped = refl

one-IsLeftist : IsLeftist one_timer
unfolding depth
one-IsLeftist = (refl, omega arith, tt, tt)

late-IsLeftist : IsLeftist (node late 1 null null)
unfolding depth
late-IsLeftist = (refl, omega arith, tt, tt)

two-IsLeftist : IsLeftist two_timers
unfolding depth
two-IsLeftist = (refl, omega arith, (refl, omega arith, tt, tt), tt)

three-IsLeftist : IsLeftist three_timers
unfolding depth
three-IsLeftist = (refl, omega arith, (refl, omega arith, tt, tt), (refl, omega arith, tt, tt))

pop-IsLeftist_example : IsLeftist (node late 1 null null)
pop-IsLeftist_example = pop-IsLeftist two_timers early (node late 1 null null) popped two-IsLeftist

abbrev pushed : List Timer
pushed = late ∷ early ∷ other ∷ []

pushed-IsSorted_example :
    IsSorted (pop_all 3 (push_all pushed)) × SameItems (pop_all 3 (push_all pushed)) pushed
pushed-IsSorted_example = pushed-IsSorted pushed
