-- ===== src/Ws/Worker/Tasks.antt =====
-- That source/runtime/multi_thread/v2/ws/worker.cpp loses no task and runs none twice, whatever queue
-- it moves them to.
use cpp_concurrency.Base.{
  ℕ, ◌+◌, ◌%◌, ◌^◌, ◌≡◌, refl, ◌∙◌, inl, inr, Bool, true, false, Option, none, some, List, [], ◌∷◌,
  ◌++◌, arith, ltb, ◌==◌, tally, tally-append, SameItems, Bool-cases,
}
use cpp_concurrency.Ws.GlobalQueue.{grab}
use cpp_concurrency.Ws.Coordinator.{unlink}
use cpp_concurrency.Ws.Worker.{
  SchedulingHint, Worker, Pool, Picked, grab_amount, push, submit, try_grab_global, steal_from,
  steal, steal_behind, try_steal, first_of, try_others, pop_local, try_queues, end_chain, take_lifo,
  try_get_work, with_coordinator, join_stopped, counted, pick_last, pick_then, pick_round,
  pick_global, pick_task, resume,
}
use cpp_concurrency.Ws.Worker.Counting.{
  to_list, held, all_held, tasks, task_of, count, count-tasks, tally-grab, count-push_by, Gives,
  Gives-get_from_buffer, Gives-try_grab_global,
}

module _ {ℓ} {A : Type ℓ} where
  module _ (q : A → Bool) (capacity : ℕ) where
    tally-steal_from :
        (got left : List A) (w : Worker A) (ws : List (Worker A)) (rest : List A × List (Worker A))
        → tally q got + tally q left ≡ tally q w.local_queue
        → tally q rest.0 + tally q (all_held rest.1) ≡ tally q (all_held ws)
        → tally q (steal_from capacity got (record w { local_queue = left }) ws rest).0
            + tally q
                (all_held (steal_from capacity got (record w { local_queue = left }) ws rest).1)
          ≡ tally q (all_held (w ∷ ws))
    unfolding steal_from
    tally-steal_from [] left w ws rest e r = omega (
      arith,
      tally-append q left (to_list w.lifo_slot),
      tally-append q w.local_queue (to_list w.lifo_slot),
      tally-append q (held w) (all_held ws),
      tally-append q (left ++ to_list w.lifo_slot) (all_held rest.1),
    )
    tally-steal_from (x ∷ xs) left w ws rest e r = omega (
      arith,
      tally-append q left (to_list w.lifo_slot),
      tally-append q w.local_queue (to_list w.lifo_slot),
      tally-append q (held w) (all_held ws),
      tally-append q (left ++ to_list w.lifo_slot) (all_held ws),
    )

    tally-steal :
        (ws : List (Worker A))
        → tally q (steal capacity ws).0 + tally q (all_held (steal capacity ws).1)
          ≡ tally q (all_held ws)
    unfolding steal
    tally-steal [] = omega arith
    tally-steal (w ∷ ws) =
        let n : ℕ = grab_amount capacity in
        tally-steal_from (grab n w.local_queue).0 (grab n w.local_queue).1 w ws (steal capacity ws)
          (tally-grab q n w.local_queue) (tally-steal ws)

    Gives-steal_behind :
        (xs : List A) (p : Pool A)
        → Gives q capacity (steal_behind capacity xs p) (tally q xs + count q p)
    unfolding steal_behind
    Gives-steal_behind [] p =
        Gives-get_from_buffer q capacity (steal capacity p.after).0
          (record p { after = (steal capacity p.after).1 })
        ∙ omega (arith, tally-steal p.after)
    Gives-steal_behind (x ∷ xs) p = Gives-get_from_buffer q capacity (x ∷ xs) p

    Gives-try_steal : (p : Pool A) → Gives q capacity (try_steal capacity p) (count q p)
    unfolding try_steal
    Gives-try_steal p =
        Gives-steal_behind (steal capacity p.before).0
          (record p { before = (steal capacity p.before).1 })
        ∙ omega (arith, tally-steal p.before)

    Gives-first_of :
        (o : Option A) (p : Pool A) (rest : Pool A → Option A × Pool A) (n : ℕ)
        → Gives q capacity (o, p) n
        → ((p' : Pool A) → Gives q capacity (rest p') (count q p'))
        → Gives q capacity (first_of capacity o p rest) n
    unfolding first_of
    Gives-first_of none p rest n e r = omega (arith, r p)
    Gives-first_of (some x) p rest n e r = e

    Gives-try_others : (p : Pool A) → Gives q capacity (try_others capacity p) (count q p)
    unfolding try_others
    Gives-try_others p =
        Gives-first_of (try_grab_global capacity p).0 (try_grab_global capacity p).1
          (try_steal capacity) (count q p) (Gives-try_grab_global q capacity p) Gives-try_steal

    Gives-pop_local :
        (xs : List A) (p : Pool A)
        → tally q p.self.local_queue ≡ tally q xs
        → Gives q capacity (pop_local capacity xs p) (count q p)
    unfolding pop_local
    Gives-pop_local [] p e = Gives-try_others p
    Gives-pop_local (x ∷ xs) p e = omega arith

    Gives-try_queues : (p : Pool A) → Gives q capacity (try_queues capacity p) (count q p)
    unfolding try_queues
    Gives-try_queues p = Gives-pop_local p.self.local_queue (end_chain capacity p) refl

    Gives-take_lifo :
        (o : Option A) (p : Pool A)
        → tally q (to_list p.self.lifo_slot) ≡ tally q (to_list o)
        → Gives q capacity (take_lifo capacity o p) (count q p)
    unfolding take_lifo
    Gives-take_lifo none p e = Gives-try_queues p
    Gives-take_lifo (some x) p e = omega arith

    Gives-try_get_work : (p : Pool A) → Gives q capacity (try_get_work capacity p) (count q p)
    unfolding try_get_work
    Gives-try_get_work p = elim (Bool-cases (ltb p.self.filo_chain 16)) [
      | inl e ↦ rw e (Gives-take_lifo p.self.lifo_slot p refl)
      | inr e ↦ rw e (Gives-try_queues p)
    ]

    -- The same of a round of `PickTask`.
    abbrev Ends : Picked A × Pool A → ℕ → Type 0
    Ends r n = tally q (task_of r.0) + count q r.1 ≡ n

    Ends-pick_last :
        (expected n : ℕ) (o : Option A) (p : Pool A)
        → Gives q capacity (o, p) n
        → Ends (pick_last capacity expected o p) n
    unfolding pick_last
    Ends-pick_last expected n (some x) p e = e
    Ends-pick_last expected n none p e = elim (Bool-cases p.self.has_stopped) [
      | inl s ↦ rw s e
      | inr s ↦ rw s e
    ]

    Ends-pick_then :
        (n : ℕ) (o : Option A) (p : Pool A)
        → Gives q capacity (o, p) n
        → Ends (pick_then capacity o p) n
    unfolding pick_then
    Ends-pick_then n (some x) p e = e
    Ends-pick_then n none p e =
        Ends-pick_last (p.coordinator.wakeups p.self.index) n
          (try_get_work capacity (join_stopped capacity p)).0
          (try_get_work capacity (join_stopped capacity p)).1
          (omega (arith, Gives-try_get_work (join_stopped capacity p)))

    Ends-pick_round : (p : Pool A) → Ends (pick_round capacity p) (count q p)
    unfolding pick_round
    Ends-pick_round p =
        Ends-pick_then (count q p) (try_get_work capacity p).0 (try_get_work capacity p).1
          (Gives-try_get_work p)

    Ends-pick_global :
        (n : ℕ) (o : Option A) (p : Pool A)
        → Gives q capacity (o, p) n
        → Ends (pick_global capacity o p) n
    unfolding pick_global
    Ends-pick_global n (some x) p e = e
    Ends-pick_global n none p e = omega (arith, Ends-pick_round p)

    Ends-pick_task : (p : Pool A) → Ends (pick_task capacity p) (count q p)
    unfolding pick_task
    Ends-pick_task p = elim (Bool-cases ((p.self.iter + 1) % 2 ^ 64 % 61 == 0)) [
      | inl e ↦ rw e (
          Ends-pick_global (count q p) (try_grab_global capacity (counted capacity p)).0
            (try_grab_global capacity (counted capacity p)).1
            (Gives-try_grab_global q capacity (counted capacity p)))
      | inr e ↦ rw e (Ends-pick_round (counted capacity p))
    ]

  module _ (capacity : ℕ) where
    pub push-SameItems :
        (hint : SchedulingHint) (x : A) (p : Pool A)
        → SameItems (tasks (push capacity hint x p)) (x ∷ tasks p)
    unfolding push
    push-SameItems hint x p q = omega (
      arith,
      count-tasks q (push capacity hint x p),
      count-tasks q p,
      count-push_by q capacity hint x p,
    )

    -- `Submit`, from a worker of the pool or from another thread, whatever the hint and however
    -- full the local queue, adds its task to the tasks of the pool, loses none and makes up none.
    pub submit-SameItems :
        (here : Bool) (hint : SchedulingHint) (x : A) (p : Pool A)
        → SameItems (tasks (submit capacity here hint x p)) (x ∷ tasks p)
    unfolding submit
    submit-SameItems true hint x p q = push-SameItems hint x p q
    submit-SameItems false hint x p q = omega (
      arith,
      count-tasks q (submit capacity false hint x p),
      count-tasks q p,
      tally-append q p.global_queue (x ∷ []),
    )

    -- `PickTask`, while no other thread changes the pool, loses no task and makes up none, whatever
    -- it moves between the queues: the task that it returns, if any, and the tasks of the pool that
    -- it leaves are those of the pool before, each as often.
    pub pick_task-SameItems :
        (p : Pool A)
        → SameItems (task_of (pick_task capacity p).0 ++ tasks (pick_task capacity p).1) (tasks p)
    pick_task-SameItems p q = omega (
      arith,
      tally-append q (task_of (pick_task capacity p).0) (tasks (pick_task capacity p).1),
      count-tasks q (pick_task capacity p).1,
      count-tasks q p,
      Ends-pick_task q capacity p,
    )

    pub resume-SameItems :
        (p : Pool A)
        → SameItems (task_of (resume capacity p).0 ++ tasks (resume capacity p).1) (tasks p)
    unfolding resume
    resume-SameItems p q = omega (
      arith,
      tally-append q (task_of (resume capacity p).0) (tasks (resume capacity p).1),
      count-tasks q (resume capacity p).1,
      count-tasks q p,
      Ends-pick_round q capacity (with_coordinator capacity (unlink p.self.index) p),
    )
