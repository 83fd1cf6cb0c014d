-- ===== src/Ws/StealingQueue.antt =====
-- source/runtime/multi_thread/v2/ws/work_stealing_queue.hpp: the local queue of a worker. One thread
-- pushes; any number of threads, the owner among them, pop and grab. Each access to an atomic is a
-- step, and steps of all threads interleave in a total order. `Mod(num)` is `num % capacity`, which the
-- source computes by a mask where the capacity is a power of 2.
pub mod Invariant
pub mod Pushing
pub mod Safety
use cpp_concurrency.Base.{
  ℕ, suc, ◌+◌, ◌-◌, ◌%◌, ◌^◌, ◌≤◌, ◌<◌, ◌≡◌, ◌≢◌, ◌⊎◌, List, [], ◌∷◌, ◌++◌, ◌==◌, if◌then◌else◌,
}

-- `size_t`
abbrev pub u64 : ℕ → ℕ
u64 n = n % 2 ^ 64

abbrev pub update {ℓ} : {A : Type ℓ} → (ℕ → A) → ℕ → A → ℕ → A
update f i a j = if j == i then a else f j

-- The shared memory of `WorkStealingTaskQueue`, and two records of what has happened: the tasks that
-- were pushed, and those that were taken out, in order.
pub record Queue {ℓ} (A : Type ℓ) : Type ℓ where
  pub buffer : ℕ → A
  pub head : ℕ
  pub tail : ℕ
  pub pushed : List A
  pub taken : List A

-- Where the owner stands in `TryPush`, with its local variables.
pub data PushPc {ℓ} (A : Type ℓ) : Type ℓ where
  free : PushPc A
  has_tail : (task : A) (tail : ℕ) → PushPc A
  has_both : (task : A) (tail head : ℕ) → PushPc A
  stored : (task : A) (tail : ℕ) → PushPc A

-- Where a thread stands in `TryPop` or in `Grab` with room for `room` tasks. `got` is what `Grab` has
-- written to its buffer.
pub data TakePc {ℓ} (A : Type ℓ) : Type ℓ where
  resting : TakePc A
  pop_head : (head : ℕ) → TakePc A
  pop_both : (head tail : ℕ) → TakePc A
  pop_read : (head : ℕ) (task : A) → TakePc A
  grab_head : (room head : ℕ) → TakePc A
  grab_loop : (room head tail i : ℕ) (got : List A) → TakePc A

module _ {ℓ} {A : Type ℓ} (capacity : ℕ) where
  -- `TryPush`
  pub data Push (q : Queue A) : PushPc A → Queue A → PushPc A → Type ℓ where
    load_tail : (x : A) → Push q free q (has_tail x q.tail)
    load_head : {x : A} {t : ℕ} → Push q (has_tail x t) q (has_both x t q.head)
    full : {x : A} {t h : ℕ} → u64 (h + capacity) ≤ t → Push q (has_both x t h) q free
    store :
        {x : A} {t h : ℕ}
        → t < u64 (h + capacity)
        → Push q
            (has_both x t h)
            (record q { buffer = update q.buffer (t % capacity) x })
            (stored x t)
    publish :
        {x : A} {t : ℕ}
        → Push q (stored x t) (record q { tail = u64 (t + 1); pushed = q.pushed ++ x ∷ [] }) free

  -- `TryPop` and `Grab`. A compare-exchange may fail for no reason; the loop then starts again.
  pub data Take (q : Queue A) : TakePc A → Queue A → TakePc A → Type ℓ where
    pop_start : Take q resting q (pop_head q.head)
    pop_tail : {h : ℕ} → Take q (pop_head h) q (pop_both h q.tail)
    pop_empty : {h t : ℕ} → h ≡ t → Take q (pop_both h t) q resting
    pop_load : {h t : ℕ} → h ≢ t → Take q (pop_both h t) q (pop_read h (q.buffer (h % capacity)))
    pop_win :
        {h : ℕ} {x : A}
        → q.head ≡ h
        → Take q (pop_read h x) (record q { head = u64 (h + 1); taken = q.taken ++ x ∷ [] }) resting
    pop_lose : {h : ℕ} {x : A} → Take q (pop_read h x) q (pop_head q.head)
    grab_start : (n : ℕ) → Take q resting q (grab_head n q.head)
    grab_tail : {n h : ℕ} → Take q (grab_head n h) q (grab_loop n h q.tail h [])
    grab_load :
        {n h t i : ℕ} {got : List A}
        → i < t
        → i - h < n
        → Take q
            (grab_loop n h t i got)
            q
            (grab_loop n h t (u64 (i + 1)) (got ++ q.buffer (i % capacity) ∷ []))
    grab_win :
        {n h t i : ℕ} {got : List A}
        → (t ≤ i) ⊎ (n ≤ i - h)
        → q.head ≡ h
        → Take q (grab_loop n h t i got) (record q { head = i; taken = q.taken ++ got }) resting
    grab_lose :
        {n h t i : ℕ} {got : List A}
        → (t ≤ i) ⊎ (n ≤ i - h)
        → Take q (grab_loop n h t i got) q (grab_head n q.head)

-- The queue, its owner, and the threads that take from it, by index.
pub record System {ℓ} (A : Type ℓ) : Type ℓ where
  pub queue : Queue A
  pub owner : PushPc A
  pub takers : ℕ → TakePc A

module _ {ℓ} {A : Type ℓ} (capacity : ℕ) where
  pub data Step (s : System A) : System A → Type ℓ where
    owner_moves :
        {q : Queue A} {p : PushPc A}
        → Push capacity s.queue s.owner q p
        → Step s (record s { queue = q; owner = p })
    taker_moves :
        (j : ℕ) {q : Queue A} {p : TakePc A}
        → Take capacity s.queue (s.takers j) q p
        → Step s (record s { queue = q; takers = update s.takers j p })

-- Every slot holds a null pointer.
abbrev pub init {ℓ} : {A : Type ℓ} → A → System A
init null = record {
  queue = record { buffer = λ _. null; head = 0; tail = 0; pushed = []; taken = [] };
  owner = free;
  takers = λ _. resting;
}

-- What can be reached in a number of steps.
pub data Reach {ℓ} {A : Type ℓ} (capacity : ℕ) (null : A) : ℕ → System A → Type ℓ where
  start : Reach capacity null 0 (init null)
  later :
      {n : ℕ} {s t : System A}
      → Reach capacity null n s
      → Step capacity s t
      → Reach capacity null (suc n) t
