-- ===== src/LeftistHeap/Order.antt =====
-- The heap order of source/detail/intrusive_leftist_heap.hpp: `Top` and `Pop` give an earliest timer.
use cpp_concurrency.Base.{
  ℕ, zero, suc, ◌+◌, ◌≤◌, ◌<◌, ◌≡◌, refl, ap, Option, none, some, subst, arith, false, leb, tally,
  All, All-append,
}
use cpp_concurrency.LeftistHeap.{
  Timer, Heap, null, node, size, link, merge_within, merge, push, pop, top, is_empty, to_list,
}

-- The root is due no earlier than `n`.
abbrev pub RootFrom : ℕ → Heap → Type 0
RootFrom n null = Unit
RootFrom n (node y d l r) = n ≤ y.deadline

-- No timer is due before its parent.
abbrev pub IsOrdered : Heap → Type 0
IsOrdered null = Unit
IsOrdered (node x d l r) = RootFrom x.deadline l × RootFrom x.deadline r × IsOrdered l × IsOrdered r

link-IsOrdered :
    (x : Timer) (a b : Heap)
    → RootFrom x.deadline a
    → RootFrom x.deadline b
    → IsOrdered a
    → IsOrdered b
    → IsOrdered (link x a b)
unfolding link
link-IsOrdered x a b ra rb oa ob = ground arith

link-RootFrom : (n : ℕ) (x : Timer) (a b : Heap) → n ≤ x.deadline → RootFrom n (link x a b)
unfolding link
link-RootFrom n x a b h = ground arith

merge_within-RootFrom :
    (n f : ℕ) (a b : Heap) → RootFrom n a → RootFrom n b → RootFrom n (merge_within f a b)
unfolding merge_within
merge_within-RootFrom n zero a b ra rb = ra
merge_within-RootFrom n (suc f) null b ra rb = rb
merge_within-RootFrom n (suc f) (node x d l r) null ra rb = ra
merge_within-RootFrom n (suc f) (node x d l r) (node y e l' r') ra rb = ground (
  arith,
  link-RootFrom n y l' (merge_within f r' (node x d l r)),
  link-RootFrom n x l (merge_within f r (node y e l' r')),
)

merge_within-IsOrdered :
    (f : ℕ) (a b : Heap) → IsOrdered a → IsOrdered b → IsOrdered (merge_within f a b)
unfolding merge_within
merge_within-IsOrdered zero a b oa ob = oa
merge_within-IsOrdered (suc f) null b oa ob = ob
merge_within-IsOrdered (suc f) (node x d l r) null oa ob = oa
merge_within-IsOrdered (suc f) (node x d l r) (node y e l' r') oa ob = ground (
  arith,
  link-IsOrdered y l' (merge_within f r' (node x d l r)),
  link-IsOrdered x l (merge_within f r (node y e l' r')),
  merge_within-RootFrom y.deadline f r' (node x d l r),
  merge_within-RootFrom x.deadline f r (node y e l' r'),
  merge_within-IsOrdered f r' (node x d l r) ob.3 oa,
  merge_within-IsOrdered f r (node y e l' r') oa.3 ob,
)

-- The merge of two ordered heaps is ordered.
pub merge-IsOrdered : (a b : Heap) → IsOrdered a → IsOrdered b → IsOrdered (merge a b)
unfolding merge
merge-IsOrdered a b oa ob = merge_within-IsOrdered _ a b oa ob

pub merge-RootFrom : (n : ℕ) (a b : Heap) → RootFrom n a → RootFrom n b → RootFrom n (merge a b)
unfolding merge
merge-RootFrom n a b ra rb = merge_within-RootFrom n (suc (size a + size b)) a b ra rb

pub push-IsOrdered : (h : Heap) (x : Timer) → IsOrdered h → IsOrdered (push h x)
unfolding push
push-IsOrdered h x o = merge-IsOrdered h (node x 1 null null) o (tt, tt, tt, tt)

pub RootFrom-mono : {m n : ℕ} (h : Heap) → n ≤ m → RootFrom m h → RootFrom n h
RootFrom-mono null le b = tt
RootFrom-mono (node y d l r) le b = omega arith

-- In an ordered heap the root's bound holds of every timer.
pub IsOrdered-All :
    (n : ℕ) (h : Heap) → RootFrom n h → IsOrdered h → All (λ t. n ≤ t.deadline) (to_list h)
unfolding to_list
IsOrdered-All n null b o = tt
IsOrdered-All n (node x d l r) b o = (
  b,
  All-append (λ t. n ≤ t.deadline) (to_list l) (to_list r)
      (IsOrdered-All n l (RootFrom-mono l b o.0) o.2)
      (IsOrdered-All n r (RootFrom-mono r b o.1) o.3),
)

-- `Pop` on an ordered heap leaves an ordered heap, where no timer is due before the one that it
-- took.
pub pop-IsOrdered :
    (h : Heap) (x : Timer) (rest : Heap)
    → pop h ≡ some (x, rest)
    → IsOrdered h
    → IsOrdered rest × All (λ t. x.deadline ≤ t.deadline) (to_list rest)
unfolding pop
pop-IsOrdered null x rest e o = cc
pop-IsOrdered (node y d l r) x rest e o =
    subst (λ (p : Timer × Heap). IsOrdered p.1 × All (λ t. p.0.deadline ≤ t.deadline) (to_list p.1))
      same (ordered, IsOrdered-All y.deadline (merge l r) from ordered)
  where
    same : ◌≡◌ {A = Timer × Heap} (y, merge l r) (x, rest)
    same = cc

    ordered : IsOrdered (merge l r)
    ordered = merge-IsOrdered l r o.2 o.3

    from : RootFrom y.deadline (merge l r)
    from = merge-RootFrom y.deadline l r o.0 o.1

-- What `Pop` takes from an ordered heap is due no later than any timer of the heap.
pub pop-earliest :
    (h : Heap) (x : Timer) (rest : Heap)
    → pop h ≡ some (x, rest)
    → IsOrdered h
    → All (λ t. x.deadline ≤ t.deadline) (to_list h)
unfolding pop
pop-earliest null x rest e o = cc
pop-earliest (node y d l r) x rest e o =
    subst (λ (z : Timer). All (λ t. z.deadline ≤ t.deadline) (to_list (node y d l r))) same
      (IsOrdered-All y.deadline (node y d l r) (omega arith) o)
  where
    same : y ≡ x
    same = cc

pub push-RootFrom :
    (n : ℕ) (h : Heap) (x : Timer) → RootFrom n h → n ≤ x.deadline → RootFrom n (push h x)
unfolding push
push-RootFrom n h x r le = merge-RootFrom n h (node x 1 null null) r le

pub All-RootFrom : (n : ℕ) (h : Heap) → All (λ t. n ≤ t.deadline) (to_list h) → RootFrom n h
unfolding to_list
All-RootFrom n null a = tt
All-RootFrom n (node x d l r) a = a.0

-- `Top` looks at the timer that `Pop` would give, and nothing earlier is in the heap.
pub top-RootFrom : (h : Heap) (t : Timer) → top h ≡ some t → RootFrom t.deadline h
unfolding top
top-RootFrom null t e = cc
top-RootFrom (node x d l r) t e = ground arith

pub RootFrom-top : (n : ℕ) (h : Heap) (t : Timer) → top h ≡ some t → RootFrom n h → n ≤ t.deadline
unfolding top
RootFrom-top n null t e r = cc
RootFrom-top n (node x d l r) t e b = ground arith

-- If a timer is set, one stands at the root, and it is counted among those due by its deadline.
pub top-some :
    (h : Heap)
    → is_empty h ≡ false
    → (t : Timer) × (top h ≡ some t) × (0 < tally (λ x. leb x.deadline t.deadline) (to_list h))
unfolding is_empty top to_list
top-some null e = cc
top-some (node x d l r) e = (x, refl, ground arith)

-- Where `Top` looks at a timer, `Pop` takes it.
pub top-pop : (h : Heap) (t : Timer) → top h ≡ some t → (rest : Heap) × (pop h ≡ some (t, rest))
unfolding top pop
top-pop null t e = cc
top-pop (node x d l r) t e =
    (merge l r, ap (λ (o : Option Timer). elim o [ none ↦ none | some u ↦ some (u, merge l r) ]) e)

-- There is a root, and it is due by `n`.
abbrev pub RootUntil : ℕ → Heap → Type 0
RootUntil n null = ⊥
RootUntil n (node y d l r) = y.deadline ≤ n

link-RootUntil : (n : ℕ) (x : Timer) (a b : Heap) → x.deadline ≤ n → RootUntil n (link x a b)
unfolding link
link-RootUntil n x a b h = ground arith

merge_within-RootUntil : (n f : ℕ) (a b : Heap) → RootUntil n a → RootUntil n (merge_within f a b)
unfolding merge_within
merge_within-RootUntil n zero a b h = h
merge_within-RootUntil n (suc f) null b h = absurd h
merge_within-RootUntil n (suc f) (node x d l r) null h = h
merge_within-RootUntil n (suc f) (node x d l r) (node y e l' r') h = ground (
  arith,
  link-RootUntil n y l' (merge_within f r' (node x d l r)),
  link-RootUntil n x l (merge_within f r (node y e l' r')),
)

-- A timer that comes in makes the root due no later.
pub push-RootUntil : (n : ℕ) (h : Heap) (x : Timer) → RootUntil n h → RootUntil n (push h x)
unfolding push merge
push-RootUntil n h x r = merge_within-RootUntil n _ h (node x 1 null null) r

-- `Top` and `Pop` of a heap with such a root.
pub pop-RootUntil :
    (n : ℕ) (h : Heap)
    → RootUntil n h
    → (t : Timer) × (rest : Heap) × (pop h ≡ some (t, rest)) × (t.deadline ≤ n)
unfolding pop
pop-RootUntil n null r = absurd r
pop-RootUntil n (node x d l r) le = (x, merge l r, refl, le)

pub top-RootUntil : (h : Heap) (t : Timer) → top h ≡ some t → RootUntil t.deadline h
unfolding top
top-RootUntil null t e = cc
top-RootUntil (node x d l r) t e =
    let same : x ≡ t = cc in ground (arith, ap (λ (y : Timer). y.deadline) same)
