-- ===== src/Ws/StealingQueue/Safety.antt =====
-- Whatever the interleaving, no task of the queue of
-- source/runtime/multi_thread/v2/ws/work_stealing_queue.hpp is lost, duplicated or reordered.
use cpp_concurrency.Base.{
  ℕ, suc, ◌+◌, ◌%◌, ◌^◌, ◌≤◌, ◌<◌, ◌≡◌, refl, sym, subst, inl, inr, List, [], ◌∷◌, ◌++◌, arith,
  length, drop, length-drop, ==-cases, if◌then◌else◌,
}
use cpp_concurrency.Ws.StealingQueue.{
  update, Queue, PushPc, free, has_tail, has_both, stored, TakePc, System, Step, owner_moves,
  taker_moves, Reach, start, later,
}
use cpp_concurrency.Ws.StealingQueue.Invariant.{
  Slice, TakeOk, TakeOk-Grows, PushOk, Ring, Take-Taken,
}
use cpp_concurrency.Ws.StealingQueue.Pushing.{Push-Pushed}

module _ {ℓ} {A : Type ℓ} where
  record Sound (c n : ℕ) (s : System A) : Type ℓ where
    ring : Ring c n s.queue
    owner_ok : PushOk c s.queue s.owner
    takers_ok : (j : ℕ) → TakeOk s.queue (s.takers j)

  PushOk-Taken :
      (c : ℕ) (q q' : Queue A) (p : PushPc A)
      → q.head ≤ q'.head
      → q'.tail ≡ q.tail
      → q'.buffer ≡ q.buffer
      → PushOk c q p
      → PushOk c q' p
  PushOk-Taken c q q' free up t b ok = tt
  PushOk-Taken c q q' (has_tail x k) up t b ok = (omega arith, tt)
  PushOk-Taken c q q' (has_both x k h) up t b ok = (omega arith, omega arith, tt)
  PushOk-Taken c q q' (stored x k) up t b ok =
      (omega arith, omega arith, subst (λ f. f (k % c) ≡ x) (sym b) ok.2)

  TakeOk-update :
      (q : Queue A) (f : ℕ → TakePc A) (j : ℕ) (p : TakePc A) (i : ℕ)
      → TakeOk q p
      → TakeOk q (f i)
      → TakeOk q (update f j p i)
  TakeOk-update q f j p i ok old = elim (==-cases i j) [
    | inl e ↦ subst (λ b. TakeOk q (if b then p else f i)) (sym e.1) ok
    | inr e ↦ subst (λ b. TakeOk q (if b then p else f i)) (sym e.1) old
  ]

  Step-Sound :
      (c n : ℕ) {s t : System A} → n + c < 2 ^ 64 → Sound c n s → Step c s t → Sound c (suc n) t
  Step-Sound c n {s} fit i (owner_moves {q = q} {p = p} m) =
      let after = Push-Pushed c n fit i.ring i.owner_ok m in
      record {
        ring = after.ring;
        owner_ok = after.ok;
        takers_ok = λ j. TakeOk-Grows s.queue q (s.takers j) after.grows (i.takers_ok j);
      }
  Step-Sound c n {s} fit i (taker_moves j {q = q} {p = p} m) =
      let after = Take-Taken c n fit i.ring (i.takers_ok j) m in
      record {
        ring = after.ring;
        owner_ok =
            PushOk-Taken c s.queue q s.owner after.grows.head_up after.tail_same after.buffer_same
              i.owner_ok;
        takers_ok = λ k.
            TakeOk-update q s.takers j p k after.ok
              (TakeOk-Grows s.queue q (s.takers k) after.grows (i.takers_ok k));
      }

  Reach-Sound :
      (c : ℕ) (null : A) (n : ℕ) {s : System A}
      → 0 < c
      → n + c < 2 ^ 64
      → Reach c null n s
      → Sound c n s
  Reach-Sound c null n pos fit start = record {
    ring = record {
      some_room = pos;
      pushed_count = refl;
      taken_count = refl;
      in_order = tt;
      head_le = omega arith;
      tail_le = omega arith;
      small = omega arith;
      live = λ i a b. absurd (omega arith);
    };
    owner_ok = tt;
    takers_ok = λ j. tt;
  }
  Reach-Sound c null n pos fit (later {n = m} r step) =
      Step-Sound c m (omega arith) (Reach-Sound c null m pos (omega arith) r) step

  Slice-tail :
      (p : A) (ps : List A) (i : ℕ) (xs : List A) → Slice (p ∷ ps) (suc i) xs → Slice ps i xs
  Slice-tail p ps i [] s = tt
  Slice-tail p ps i (x ∷ xs) s = (s.0, Slice-tail p ps (suc i) xs s.1)

  Slice-prefix : (ps xs : List A) → Slice ps 0 xs → ps ≡ xs ++ drop (length xs) ps
  Slice-prefix ps [] s = refl
  Slice-prefix [] (x ∷ xs) s = cc
  Slice-prefix (p ∷ ps) (x ∷ xs) s =
      let same : p ≡ x = cc in
      let rest : ps ≡ xs ++ drop (length xs) ps = Slice-prefix ps xs (Slice-tail p ps 0 xs s.1) in
      cc

  -- The tasks that wait in the queue.
  abbrev pub waiting : Queue A → List A
  waiting q = drop q.head q.pushed

  -- In any state that `n` steps of the pushing thread and of any number of popping and grabbing
  -- threads lead to, for a capacity above 0 and `n` plus the capacity below 2 ^ 64: the tasks taken
  -- out so far, in the order of the exchanges that took them, are a prefix of the tasks pushed, so
  -- none is lost, taken twice or out of order, and at most the capacity wait.
  pub Reach-prefix :
      (c : ℕ) (null : A) (n : ℕ) {s : System A}
      → 0 < c
      → n + c < 2 ^ 64
      → Reach c null n s
      → (s.queue.pushed ≡ s.queue.taken ++ waiting s.queue) × (length (waiting s.queue) ≤ c)
  Reach-prefix c null n {s} pos fit r =
      let i = Reach-Sound c null n pos fit r in
      (
        subst (λ k. s.queue.pushed ≡ s.queue.taken ++ drop k s.queue.pushed) i.ring.taken_count
            (Slice-prefix s.queue.pushed s.queue.taken i.ring.in_order),
        omega (arith, length-drop s.queue.head s.queue.pushed, i.ring.pushed_count, i.ring.tail_le),
      )
