-- ===== src/Ws/Worker/Counting.antt =====
-- The tasks of a pool of source/runtime/multi_thread/v2/ws/worker.cpp, counted through each call.
use cpp_concurrency.Base.{
  ℕ, zero, suc, ◌+◌, ◌-◌, ◌≡◌, ◌∙◌, ap, inl, inr, Bool, Option, none, some, List, [], ◌∷◌, ◌++◌,
  arith, leb, length, bit, tally, tally-append, Bool-cases, Option-cases,
}
use cpp_concurrency.Ws.GlobalQueue.{push_many, grab, push_many-append}
use cpp_concurrency.Ws.Worker.{
  SchedulingHint, up_to_you, next, yield, Worker, Pool, Picked, picked, stopped, parked,
  grab_amount, offload, push_to_local, push_to_lifo, push_by, push_all, get_from_buffer,
  try_grab_global,
}

module _ {ℓ} {A : Type ℓ} where
  abbrev pub to_list : Option A → List A
  to_list none = []
  to_list (some a) = a ∷ []

  -- The tasks of a worker, of some workers, and of a pool.
  abbrev pub held : Worker A → List A
  held w = w.local_queue ++ to_list w.lifo_slot

  abbrev pub all_held : List (Worker A) → List A
  all_held [] = []
  all_held (w ∷ ws) = held w ++ all_held ws

  abbrev pub tasks : Pool A → List A
  tasks p = p.global_queue ++ (all_held p.before ++ (held p.self ++ all_held p.after))

  -- The task that a round ended with.
  abbrev pub task_of : Picked A → List A
  task_of (picked t) = t ∷ []
  task_of stopped = []
  task_of (parked expected) = []

  module _ (q : A → Bool) where
    -- How many tasks of a pool pass a test.
    abbrev pub count : Pool A → ℕ
    count p =
        tally q p.global_queue
        + tally q (all_held p.before)
        + tally q p.self.local_queue
        + tally q (to_list p.self.lifo_slot)
        + tally q (all_held p.after)

    pub count-tasks : (p : Pool A) → tally q (tasks p) ≡ count p
    count-tasks p = omega (
      arith,
      tally-append q p.global_queue (all_held p.before ++ (held p.self ++ all_held p.after)),
      tally-append q (all_held p.before) (held p.self ++ all_held p.after),
      tally-append q (held p.self) (all_held p.after),
      tally-append q p.self.local_queue (to_list p.self.lifo_slot),
    )

    pub tally-grab :
        (n : ℕ) (xs : List A) → tally q (grab n xs).0 + tally q (grab n xs).1 ≡ tally q xs
    tally-grab zero xs = omega arith
    tally-grab (suc n) [] = omega arith
    tally-grab (suc n) (x ∷ xs) = omega (arith, tally-grab n xs)

    tally-push_many : (xs ys : List A) → tally q (push_many xs ys) ≡ tally q ys + tally q xs
    tally-push_many xs ys = ap (tally q) (push_many-append xs ys) ∙ tally-append q ys xs

    module _ (capacity : ℕ) where
      count-offload : (x : A) (p : Pool A) → count (offload capacity x p) ≡ bit (q x) + count p
      unfolding offload
      count-offload x p =
          let n : ℕ = grab_amount capacity - 1 in
          let got : List A = (grab n p.self.local_queue).0 in
          omega (
            arith,
            tally-push_many (got ++ x ∷ []) p.global_queue,
            tally-append q got (x ∷ []),
            tally-grab n p.self.local_queue,
          )

      count-push_to_local :
          (x : A) (p : Pool A) → count (push_to_local capacity x p) ≡ bit (q x) + count p
      unfolding push_to_local
      count-push_to_local x p = elim (Bool-cases (leb capacity (length p.self.local_queue))) [
        | inl e ↦ rw e (count-offload x p)
        | inr e ↦ rw e (omega (arith, tally-append q p.self.local_queue (x ∷ [])))
      ]

      count-push_to_lifo :
          (x : A) (p : Pool A) → count (push_to_lifo capacity x p) ≡ bit (q x) + count p
      unfolding push_to_lifo
      count-push_to_lifo x p = elim (Option-cases p.self.lifo_slot) [
        | inl e ↦ rw e (omega arith)
        | inr (old, e) ↦ rw e (
            omega (
              arith,
              count-push_to_local old (record p { self = record p.self { lifo_slot = some x } }),
            ))
      ]

      pub count-push_by :
          (hint : SchedulingHint) (x : A) (p : Pool A)
          → count (push_by capacity hint x p) ≡ bit (q x) + count p
      unfolding push_by
      count-push_by up_to_you x p = count-push_to_local x p
      count-push_by next x p = count-push_to_lifo x p
      count-push_by yield x p = omega (arith, tally-append q p.global_queue (x ∷ []))

      count-push_all :
          (xs : List A) (p : Pool A) → count (push_all capacity xs p) ≡ tally q xs + count p
      unfolding push_all
      count-push_all [] p = omega arith
      count-push_all (x ∷ xs) p =
          omega (arith, count-push_all xs (push_to_local capacity x p), count-push_to_local x p)

      -- A call that gives a task out of the pool, or none.
      abbrev pub Gives : Option A × Pool A → ℕ → Type 0
      Gives r n = tally q (to_list r.0) + count r.1 ≡ n

      pub Gives-get_from_buffer :
          (xs : List A) (p : Pool A) → Gives (get_from_buffer capacity xs p) (tally q xs + count p)
      unfolding get_from_buffer
      Gives-get_from_buffer [] p = omega arith
      Gives-get_from_buffer (x ∷ xs) p = omega (arith, count-push_all xs p)

      pub Gives-try_grab_global : (p : Pool A) → Gives (try_grab_global capacity p) (count p)
      unfolding try_grab_global
      Gives-try_grab_global p =
          let n : ℕ = grab_amount capacity in
          Gives-get_from_buffer (grab n p.global_queue).0
            (record p { global_queue = (grab n p.global_queue).1 })
          ∙ omega (arith, tally-grab n p.global_queue)
