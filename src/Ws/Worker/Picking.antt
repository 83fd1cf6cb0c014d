-- ===== src/Ws/Worker/Picking.antt =====
-- When a worker of source/runtime/multi_thread/v2/ws/worker.cpp parks, and that no queue starves.
use cpp_concurrency.Base.{
  ℕ, zero, suc, ◌+◌, ◌-◌, ◌%◌, ◌^◌, ◌≤◌, ◌<◌, ◌≡◌, refl, sym, ◌∙◌, ap, subst, inl, inr, true, false,
  Option, none, some, List, ◌∷◌, arith, ltb, ◌==◌, ==_iff, Bool-cases,
}
use cpp_concurrency.Ws.GlobalQueue.{grab}
use cpp_concurrency.Ws.Coordinator.{remove_spinning}
use cpp_concurrency.Ws.Worker.{
  Pool, Picked, picked, stopped, parked, grab_amount, get_from_buffer, try_grab_global, pop_local,
  try_queues, end_chain, try_get_work, with_coordinator, leave, join_stopped, counted, pick_last,
  pick_then, pick_round, pick_global, pick_task,
}
use cpp_concurrency.Ws.Worker.Idle.{grab_amount-pos, IsIdle, try_get_work-none}

module _ {ℓ} {A : Type ℓ} where
  -- A worker that parks has nothing to do and has not been stopped.
  pub record IsParked (p : Pool A) : Type ℓ where
    pub idle : IsIdle none p
    pub running : p.self.has_stopped ≡ false

  module _ (capacity : ℕ) where
    pick_last-parked :
        (expected n : ℕ) (o : Option A) (p : Pool A) (slot : Option A)
        → (pick_last capacity expected o p).0 ≡ parked n
        → (o ≡ none → IsIdle slot p)
        → (o ≡ none)
          × (n ≡ expected)
          × IsIdle slot (pick_last capacity expected o p).1
          × ((pick_last capacity expected o p).1.self.has_stopped ≡ false)
    unfolding pick_last
    pick_last-parked expected n (some x) p slot e i = cc
    pick_last-parked expected n none p slot e i = elim (Bool-cases p.self.has_stopped) [
      | inl b ↦
          let run : pick_last capacity expected none p ≡ (stopped, leave capacity p) = rw b refl in
          cc (ap (λ r. r.0) (sym run) ∙ e)
      | inr b ↦
          let run : pick_last capacity expected none p
              ≡ (parked expected, with_coordinator capacity remove_spinning p) =
            rw b refl in
          let idle = i refl in
          (
            refl,
            cc (ap (λ r. r.0) (sym run) ∙ e),
            subst (λ (r : Picked A × Pool A). IsIdle slot r.1) (sym run)
                (record {
                  global_empty = idle.global_empty;
                  self_drained = idle.self_drained;
                  before_drained = idle.before_drained;
                  after_drained = idle.after_drained;
                  chain_ended = idle.chain_ended;
                  slot_is = idle.slot_is;
                }),
            ap (λ r. r.1.self.has_stopped) run ∙ b,
          )
    ]

    pick_then-parked :
        (n : ℕ) (o : Option A) (p : Pool A)
        → (o ≡ none → p.self.filo_chain ≡ 0)
        → (pick_then capacity o p).0 ≡ parked n
        → IsParked (pick_then capacity o p).1
    unfolding pick_then
    pick_then-parked n (some x) p c e = cc
    pick_then-parked n none p c e =
        let again = try_get_work capacity (join_stopped capacity p) in
        let (miss, at, idle, running) =
          pick_last-parked (p.coordinator.wakeups p.self.index) n again.0 again.1 p.self.lifo_slot e
            (λ m. (try_get_work-none capacity (join_stopped capacity p) m).0) in
        let no_lifo : p.self.lifo_slot ≡ none =
          (try_get_work-none capacity (join_stopped capacity p) miss).1 (omega (arith, c refl)) in
        record {
          idle =
              subst
                (λ slot.
                  IsIdle slot
                    (pick_last capacity (p.coordinator.wakeups p.self.index) again.0 again.1).1)
                no_lifo idle;
          running = running;
        }

    pub pick_round-parked :
        (n : ℕ) (p : Pool A)
        → (pick_round capacity p).0 ≡ parked n
        → IsParked (pick_round capacity p).1
    unfolding pick_round
    pick_round-parked n p e =
        pick_then-parked n (try_get_work capacity p).0 (try_get_work capacity p).1
          (λ m. (try_get_work-none capacity p m).0.chain_ended) e

    pick_global-parked :
        (n : ℕ) (o : Option A) (p : Pool A)
        → (pick_global capacity o p).0 ≡ parked n
        → IsParked (pick_global capacity o p).1
    unfolding pick_global
    pick_global-parked n (some x) p e = cc
    pick_global-parked n none p e = pick_round-parked n p e

    -- A worker that calls `PickTask`, while no other thread changes the pool, parks only when there
    -- is nothing for it and it has not been stopped: the global queue, its own queue and slot, and
    -- the local queue of every other worker are then empty.
    pub pick_task-parked :
        (n : ℕ) (p : Pool A)
        → (pick_task capacity p).0 ≡ parked n
        → IsParked (pick_task capacity p).1
    unfolding pick_task
    pick_task-parked n p e = elim (Bool-cases ((counted capacity p).self.iter % 61 == 0)) [
      | inl b ↦
          let o = try_grab_global capacity (counted capacity p) in
          let run : pick_task capacity p ≡ pick_global capacity o.0 o.1 = rw b refl in
          subst (λ (r : Picked A × Pool A). IsParked r.1) (sym run)
            (pick_global-parked n o.0 o.1 (ap (λ r. r.0) (sym run) ∙ e))
      | inr b ↦
          let run : pick_task capacity p ≡ pick_round capacity (counted capacity p) = rw b refl in
          subst (λ (r : Picked A × Pool A). IsParked r.1) (sym run)
            (pick_round-parked n (counted capacity p) (ap (λ r. r.0) (sym run) ∙ e))
    ]

    grab-head :
        (n : ℕ) (x : A) (xs : List A) → 0 < n → (grab n (x ∷ xs)).0 ≡ x ∷ (grab (n - 1) xs).0
    grab-head zero x xs h = absurd (omega arith)
    grab-head (suc n) x xs h = ap (λ k. x ∷ (grab k xs).0) (omega arith)

    try_grab_global-some :
        (p : Pool A) (x : A) (xs : List A)
        → p.global_queue ≡ x ∷ xs
        → (try_grab_global capacity p).0 ≡ some x
    unfolding try_grab_global get_from_buffer
    try_grab_global-some p x xs e =
        let n : ℕ = grab_amount capacity in
        let got : (grab n p.global_queue).0 ≡ x ∷ (grab (n - 1) xs).0 =
          ap (λ g. (grab n g).0) e ∙ grab-head n x xs (grab_amount-pos capacity) in
        ap
          (λ b.
            (get_from_buffer capacity b (record p { global_queue = (grab n p.global_queue).1 })).0)
          got

    -- On every 61st iteration, `PickTask` returns the oldest task of the global queue, if there is
    -- one, however many tasks the worker holds itself.
    pub pick_task-global :
        (p : Pool A) (x : A) (xs : List A)
        → (p.self.iter + 1) % 2 ^ 64 % 61 ≡ 0
        → p.global_queue ≡ x ∷ xs
        → (pick_task capacity p).0 ≡ picked x
    unfolding pick_task pick_global
    pick_task-global p x xs turn e =
        let o = try_grab_global capacity (counted capacity p) in
        let zero_turn : ((counted capacity p).self.iter % 61 == 0) ≡ true =
          (==_iff ((counted capacity p).self.iter % 61) 0).1 turn in
        let run : pick_task capacity p ≡ pick_global capacity o.0 o.1 = rw zero_turn refl in
        ap (λ r. r.0) run
        ∙ ap (λ k. (pick_global capacity k o.1).0)
            (try_grab_global-some (counted capacity p) x xs e)

    -- After a chain of 16 tasks from the LIFO slot, `TryGetWork` takes the oldest task of the local
    -- queue, if there is one; it leaves the slot as it is and ends the chain.
    pub try_get_work-fair :
        (p : Pool A) (x : A) (xs : List A)
        → 16 ≤ p.self.filo_chain
        → p.self.local_queue ≡ x ∷ xs
        → ((try_get_work capacity p).0 ≡ some x)
          × ((try_get_work capacity p).1.self.lifo_slot ≡ p.self.lifo_slot)
          × ((try_get_work capacity p).1.self.filo_chain ≡ 0)
    unfolding try_get_work try_queues pop_local
    try_get_work-fair p x xs long e =
        let over : ltb p.self.filo_chain 16 ≡ false = ground arith in
        let run : try_get_work capacity p ≡ pop_local capacity (x ∷ xs) (end_chain capacity p) =
          rw over (ap (λ q. pop_local capacity q (end_chain capacity p)) e) in
        (ap (λ r. r.0) run, ap (λ r. r.1.self.lifo_slot) run, ap (λ r. r.1.self.filo_chain) run)
