-- ===== src/Sandbox/Ready.antt =====
-- `PopReadyTimers` of source/runtime/sandbox/timer_queue.cpp.
use cpp_concurrency.Base.{
  ℕ, zero, suc, ◌≤◌, ◌<◌, ◌≡◌, refl, inl, inr, List, [], ◌∷◌, ◌++◌, arith, ltb, Bool-cases, ltb→lt,
  All-imp, Option-cases, All, SameItems,
}
use cpp_concurrency.LeftistHeap.{Timer, Heap, to_list, size, pop}
use cpp_concurrency.LeftistHeap.Contents.{pop-SameItems, pop-none, pop-bound, size-pop}
use cpp_concurrency.LeftistHeap.Order.{IsOrdered, pop-IsOrdered, pop-earliest}
use cpp_concurrency.LeftistHeap.Balance.{IsLeftist, pop-IsLeftist}
use cpp_concurrency.Sandbox.{pop_ready_within, pop_ready, TimerQueue}

-- Deadlines do not fall along the list, and are `from` at the least.
abbrev pub Sorted : ℕ → List Timer → Type 0
Sorted from [] = Unit
Sorted from (t ∷ ts) = (from ≤ t.deadline) × Sorted t.deadline ts

-- What the loop promises of its result.
pub record IsSplit (now from : ℕ) (h : Heap) (r : List Timer × Heap) : Type 0 where
  pub same : SameItems (to_list h) (r.0 ++ to_list r.1)
  pub due : All (λ t. t.deadline ≤ now) r.0
  pub sorted : Sorted from r.0
  pub later : All (λ t. now < t.deadline) (to_list r.1)
  pub ordered : IsOrdered r.1
  pub leftist : IsLeftist r.1

IsSplit-none :
    (now from : ℕ) (h : Heap)
    → All (λ t. now < t.deadline) (to_list h)
    → IsOrdered h
    → IsLeftist h
    → IsSplit now from h ([], h)
IsSplit-none now from h a o l = record {
  same = λ p. refl;
  due = tt;
  sorted = tt;
  later = a;
  ordered = o;
  leftist = l;
}

IsSplit-more :
    (now from : ℕ) (h : Heap) (t : Timer) (rest : Heap) (r : List Timer × Heap)
    → SameItems (to_list h) (t ∷ to_list rest)
    → from ≤ t.deadline
    → t.deadline ≤ now
    → IsSplit now t.deadline rest r
    → IsSplit now from h (t ∷ r.0, r.1)
IsSplit-more now from h t rest r e low due s = record {
  same = λ p. omega (arith, e p, s.same p);
  due = (due, s.due);
  sorted = (low, s.sorted);
  later = s.later;
  ordered = s.ordered;
  leftist = s.leftist;
}

pop_ready_within-IsSplit :
    (f now from : ℕ) (h : Heap)
    → size h < f
    → All (λ t. from ≤ t.deadline) (to_list h)
    → IsOrdered h
    → IsLeftist h
    → IsSplit now from h (pop_ready_within f now h)
unfolding pop_ready_within
pop_ready_within-IsSplit zero now from h lt a o l = absurd (omega arith)
pop_ready_within-IsSplit (suc f) now from h lt a o l = elim (Option-cases (pop h)) [
  | inl e ↦ rw (e, pop_ready_within) (IsSplit-none now from h (rw (pop-none h e) tt) o l)
  | inr ((t, rest), e) ↦
      rw (e, pop_ready_within)
        (elim (Bool-cases (ltb now t.deadline)) [
          | inl early ↦ rw early (
              IsSplit-none now from h
                (All-imp (λ z. t.deadline ≤ z.deadline) (λ z. now < z.deadline) (to_list h)
                  (λ z le. omega (arith, ltb→lt now t.deadline early)) (pop-earliest h t rest e o))
                o l)
          | inr due ↦ rw due (
              IsSplit-more now from h t rest (pop_ready_within f now rest)
                (pop-SameItems h t rest e) (pop-bound from h t rest e a) (ground arith)
                (pop_ready_within-IsSplit f now t.deadline rest (omega (arith, size-pop h t rest e))
                  (pop-IsOrdered h t rest e o).1 (pop-IsOrdered h t rest e o).0
                  (pop-IsLeftist h t rest e l)))
        ])
]

-- On an ordered leftist heap, `PopReadyTimers` takes exactly the timers that are due, in the order
-- of their deadlines, and leaves the others in an ordered leftist heap.
pub pop_ready-IsSplit :
    (q : TimerQueue)
    → IsOrdered q.timers
    → IsLeftist q.timers
    → IsSplit q.now 0 q.timers ((pop_ready q).0, (pop_ready q).1.timers)
unfolding pop_ready
pop_ready-IsSplit q o l =
    pop_ready_within-IsSplit (suc (size q.timers)) q.now 0 q.timers (omega arith)
      (All-true (to_list q.timers)) o l
  where
    All-true : (xs : List Timer) → All (λ t. 0 ≤ t.deadline) xs
    All-true [] = tt
    All-true (x ∷ xs) = (omega arith, All-true xs)

pub pop_ready-now : (q : TimerQueue) → (pop_ready q).1.now ≡ q.now
unfolding pop_ready
pop_ready-now q = refl
