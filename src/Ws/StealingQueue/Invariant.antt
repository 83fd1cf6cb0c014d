-- ===== src/Ws/StealingQueue/Invariant.antt =====
-- What holds in every reachable state of the queue of
-- source/runtime/multi_thread/v2/ws/work_stealing_queue.hpp, as long as its counters have not wrapped.
use cpp_concurrency.Base.{
  ℕ, zero, suc, ◌+◌, ◌%◌, ◌^◌, ◌≤◌, ◌<◌, ◌≡◌, refl, sym, ◌∙◌, subst, some, List, [], ◌∷◌, ◌++◌,
  arith, length, length-append, get_elem?, append-nil,
}
use cpp_concurrency.Ws.StealingQueue.{
  u64, Queue, PushPc, free, has_tail, has_both, stored, TakePc, resting, pop_head, pop_both,
  pop_read, grab_head, grab_loop, Take, pop_start, pop_tail, pop_empty, pop_load, pop_win, pop_lose,
  grab_start, grab_tail, grab_load, grab_win, grab_lose,
}

module _ {ℓ} {A : Type ℓ} where
  -- The tasks `xs` were pushed one after the other, from the position `i` on.
  abbrev pub Slice : List A → ℕ → List A → Type ℓ
  Slice ps i [] = Unit
  Slice ps i (x ∷ xs) = (get_elem? ps i ≡ some x) × Slice ps (suc i) xs

  get_elem?-more :
      (ps qs : List A) (i : ℕ) (x : A) → get_elem? ps i ≡ some x → get_elem? (ps ++ qs) i ≡ some x
  get_elem?-more [] qs i x e = cc
  get_elem?-more (p ∷ ps) qs zero x e = e
  get_elem?-more (p ∷ ps) qs (suc i) x e = get_elem?-more ps qs i x e

  pub Slice-more : (ps qs : List A) (i : ℕ) (xs : List A) → Slice ps i xs → Slice (ps ++ qs) i xs
  Slice-more ps qs i [] s = tt
  Slice-more ps qs i (x ∷ xs) s = (get_elem?-more ps qs i x s.0, Slice-more ps qs (suc i) xs s.1)

  pub Slice-append :
      (ps : List A) (i j : ℕ) (xs ys : List A)
      → i + length xs ≡ j
      → Slice ps i xs
      → Slice ps j ys
      → Slice ps i (xs ++ ys)
  Slice-append ps i j [] ys e s t = subst (λ k. Slice ps k ys) (omega arith) t
  Slice-append ps i j (x ∷ xs) ys e s t = (s.0, Slice-append ps (suc i) j xs ys (omega arith) s.1 t)

  -- What a thread in the middle of `TryPop` or `Grab` may rely on: if nobody has moved the head since
  -- it was read, the tasks that were read are the oldest.
  abbrev pub TakeOk : Queue A → TakePc A → Type ℓ
  TakeOk q resting = Unit
  TakeOk q (pop_head h) = (h ≤ q.head) × Unit {ℓ}
  TakeOk q (pop_both h t) = (h ≤ q.head) × (h ≤ t) × (t ≤ q.tail) × Unit {ℓ}
  TakeOk q (pop_read h x) =
      (h ≤ q.head) × (h < q.tail) × (h ≡ q.head → get_elem? q.pushed h ≡ some x)
  TakeOk q (grab_head n h) = (h ≤ q.head) × Unit {ℓ}
  TakeOk q (grab_loop n h t i got) =
      (h ≤ q.head)
      × (t ≤ q.tail)
      × (h ≤ i)
      × (i ≤ t)
      × (h + length got ≡ i)
      × (h ≡ q.head → Slice q.pushed h got)

  abbrev pub PushOk : ℕ → Queue A → PushPc A → Type ℓ
  PushOk c q free = Unit
  PushOk c q (has_tail x t) = (t ≡ q.tail) × Unit {ℓ}
  PushOk c q (has_both x t h) = (t ≡ q.tail) × (h ≤ q.head) × Unit {ℓ}
  PushOk c q (stored x t) = (t ≡ q.tail) × (t < q.head + c) × (q.buffer (t % c) ≡ x)

  -- The shared memory: a ring that holds the tasks pushed and not yet taken.
  pub record Ring (c n : ℕ) (q : Queue A) : Type ℓ where
    pub some_room : 0 < c
    pub pushed_count : length q.pushed ≡ q.tail
    pub taken_count : length q.taken ≡ q.head
    pub in_order : Slice q.pushed 0 q.taken
    pub head_le : q.head ≤ q.tail
    pub tail_le : q.tail ≤ q.head + c
    pub small : q.tail ≤ n
    pub live : (i : ℕ) → q.head ≤ i → i < q.tail → get_elem? q.pushed i ≡ some (q.buffer (i % c))

  -- The head and the tail only move up, and tasks are only added.
  pub record Grows (q q' : Queue A) : Type ℓ where
    pub head_up : q.head ≤ q'.head
    pub tail_up : q.tail ≤ q'.tail
    pub more : List A
    pub pushed_more : q'.pushed ≡ q.pushed ++ more

  pub TakeOk-Grows : (q q' : Queue A) (p : TakePc A) → Grows q q' → TakeOk q p → TakeOk q' p
  TakeOk-Grows q q' resting g ok = tt
  TakeOk-Grows q q' (pop_head h) g ok = (omega (arith, g.head_up), tt)
  TakeOk-Grows q q' (pop_both h t) g ok =
      (omega (arith, g.head_up), ok.1, omega (arith, g.tail_up), tt)
  TakeOk-Grows q q' (pop_read h x) g ok = (
    omega (arith, g.head_up),
    omega (arith, g.tail_up),
    λ e. rw g.pushed_more (get_elem?-more q.pushed g.more h x (ok.2 (omega (arith, g.head_up)))),
  )
  TakeOk-Grows q q' (grab_head n h) g ok = (omega (arith, g.head_up), tt)
  TakeOk-Grows q q' (grab_loop n h t i got) g ok = (
    omega (arith, g.head_up),
    omega (arith, g.tail_up),
    ok.2,
    ok.3,
    ok.4,
    λ e. rw g.pushed_more (Slice-more q.pushed g.more h got (ok.5 (omega (arith, g.head_up)))),
  )

  pub Grows-refl : (q : Queue A) → Grows q q
  Grows-refl q = record {
    head_up = omega arith;
    tail_up = omega arith;
    more = [];
    pushed_more = sym (append-nil q.pushed);
  }

  pub Ring-later : {c n : ℕ} {q : Queue A} → Ring c n q → Ring c (suc n) q
  Ring-later r = record {
    some_room = r.some_room;
    pushed_count = r.pushed_count;
    taken_count = r.taken_count;
    in_order = r.in_order;
    head_le = r.head_le;
    tail_le = r.tail_le;
    small = omega (arith, r.small);
    live = r.live;
  }

  -- Taking the oldest tasks `xs` out leaves a ring.
  Ring-take :
      (c n : ℕ) (q : Queue A) (xs : List A)
      → Ring c n q
      → Slice q.pushed q.head xs
      → q.head + length xs ≤ q.tail
      → Ring c (suc n) (record q { head = q.head + length xs; taken = q.taken ++ xs })
  Ring-take c n q xs r s le = record {
    some_room = r.some_room;
    pushed_count = r.pushed_count;
    taken_count = length-append q.taken xs ∙ omega (arith, r.taken_count);
    in_order =
        Slice-append q.pushed 0 q.head q.taken xs (omega (arith, r.taken_count)) r.in_order s;
    head_le = le;
    tail_le = omega (arith, r.tail_le);
    small = omega (arith, r.small);
    live = λ i a b. r.live i (omega arith) b;
  }

  Grows-head :
      (q : Queue A) (h : ℕ) (ts : List A) → q.head ≤ h → Grows q (record q { head = h; taken = ts })
  Grows-head q h ts le = record {
    head_up = le;
    tail_up = omega arith;
    more = [];
    pushed_more = sym (append-nil q.pushed);
  }

  -- What a step of a taker does: it keeps the ring, and neither the tail nor the slots change.
  pub record Taken (c n : ℕ) (q q' : Queue A) (p' : TakePc A) : Type ℓ where
    pub ring : Ring c (suc n) q'
    pub grows : Grows q q'
    pub ok : TakeOk q' p'
    pub tail_same : q'.tail ≡ q.tail
    pub buffer_same : q'.buffer ≡ q.buffer

  Taken-same : (c n : ℕ) (q : Queue A) (p' : TakePc A) → Ring c n q → TakeOk q p' → Taken c n q q p'
  Taken-same c n q p' r ok = record {
    ring = Ring-later r;
    grows = Grows-refl q;
    ok = ok;
    tail_same = refl;
    buffer_same = refl;
  }

  Taken-Slice :
      (c n : ℕ) (q : Queue A) (xs : List A) (h : ℕ)
      → Ring c n q
      → Slice q.pushed q.head xs
      → q.head + length xs ≤ q.tail
      → h ≡ q.head + length xs
      → Taken c n q (record q { head = h; taken = q.taken ++ xs }) resting
  Taken-Slice c n q xs h r s le e =
      subst (λ k. Taken c n q (record q { head = k; taken = q.taken ++ xs }) resting) (sym e)
        (record {
          ring = Ring-take c n q xs r s le;
          grows = Grows-head q (q.head + length xs) (q.taken ++ xs) (omega arith);
          ok = tt;
          tail_same = refl;
          buffer_same = refl;
        })

  pub Take-Taken :
      (c n : ℕ) {q q' : Queue A} {p p' : TakePc A}
      → n + c < 2 ^ 64
      → Ring c n q
      → TakeOk q p
      → Take c q p q' p'
      → Taken c n q q' p'
  Take-Taken c n {q} fit r ok pop_start = Taken-same c n q _ r (omega arith, tt)
  Take-Taken c n {q} fit r ok (pop_tail {h = h}) =
      Taken-same c n q _ r (ok.0, omega (arith, r.head_le), omega arith, tt)
  Take-Taken c n {q} fit r ok (pop_empty e) = Taken-same c n q _ r tt
  Take-Taken c n {q} fit r ok (pop_load {h = h} {t = t} e) =
      Taken-same c n q _ r (ok.0, omega arith, λ at_head. r.live h (omega arith) (omega arith))
  Take-Taken c n {q} fit r ok (pop_win {h = h} {x = x} e) =
      Taken-Slice c n q (x ∷ []) (u64 (h + 1)) r
        (subst (λ k. Slice q.pushed k (x ∷ [])) (sym e) (ok.2 (sym e), tt)) (omega arith)
        (omega (arith, r.small))
  Take-Taken c n {q} fit r ok pop_lose = Taken-same c n q _ r (omega arith, tt)
  Take-Taken c n {q} fit r ok (grab_start m) = Taken-same c n q _ r (omega arith, tt)
  Take-Taken c n {q} fit r ok grab_tail =
      Taken-same c n q _ r
        (ok.0, omega arith, omega arith, omega (arith, r.head_le), omega arith, λ e. tt)
  Take-Taken c n {q} fit r ok (grab_load {h = h} {i = i} {got = got} lt room) =
      let next : u64 (i + 1) ≡ i + 1 = omega (arith, r.small) in
      let len : length (got ++ q.buffer (i % c) ∷ []) ≡ suc (length got) =
        length-append got (q.buffer (i % c) ∷ []) ∙ omega arith in
      Taken-same c n q _ r (
        ok.0,
        ok.1,
        omega (arith, next),
        omega (arith, next),
        omega (arith, next, len),
        λ e.
            Slice-append q.pushed h i got (q.buffer (i % c) ∷ []) (omega arith) (ok.5 e)
              (r.live i (omega arith) (omega arith), tt),
      )
  Take-Taken c n {q} fit r ok (grab_win {h = h} {i = i} {got = got} done e) =
      Taken-Slice c n q got i r (subst (λ k. Slice q.pushed k got) (sym e) (ok.5 (sym e)))
        (omega arith) (omega arith)
  Take-Taken c n {q} fit r ok (grab_lose done) = Taken-same c n q _ r (omega arith, tt)
