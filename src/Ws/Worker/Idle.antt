-- ===== src/Ws/Worker/Idle.antt =====
-- What `TryGetWork` of source/runtime/multi_thread/v2/ws/worker.cpp has looked at when it finds nothing.
use cpp_concurrency.Base.{
  ℕ, zero, suc, ◌<◌, ◌≡◌, refl, sym, ◌∙◌, ap, subst, inl, inr, Option, none, some, List, [], ◌∷◌,
  arith, ltb, Bool-cases, All,
}
use cpp_concurrency.Ws.GlobalQueue.{grab}
use cpp_concurrency.Ws.Worker.{
  Worker, Pool, grab_amount, get_from_buffer, try_grab_global, steal_from, steal, steal_behind,
  try_steal, first_of, try_others, pop_local, try_queues, end_chain, take_lifo, try_get_work,
}

pub grab_amount-pos : (capacity : ℕ) → 0 < grab_amount capacity
grab_amount-pos capacity = ground arith

module _ {ℓ} {A : Type ℓ} where
  -- The local queue of a worker is empty.
  abbrev pub IsDrained : Worker A → Type ℓ
  IsDrained w = w.local_queue ≡ []

  -- Neither the global queue nor any local queue holds a task, a chain of LIFO tasks has ended, and
  -- the LIFO slot holds `slot`.
  pub record IsIdle (slot : Option A) (p : Pool A) : Type ℓ where
    pub global_empty : p.global_queue ≡ []
    pub self_drained : IsDrained p.self
    pub before_drained : All IsDrained p.before
    pub after_drained : All IsDrained p.after
    pub chain_ended : p.self.filo_chain ≡ 0
    pub slot_is : p.self.lifo_slot ≡ slot

  grab-nil : (n : ℕ) (xs : List A) → 0 < n → (grab n xs).0 ≡ [] → (grab n xs).1 ≡ []
  grab-nil zero xs h e = absurd (omega arith)
  grab-nil (suc n) [] h e = refl
  grab-nil (suc n) (x ∷ xs) h e = cc

  module _ (capacity : ℕ) where
    get_from_buffer-none :
        (xs : List A) (p : Pool A)
        → (get_from_buffer capacity xs p).0 ≡ none
        → (xs ≡ []) × ((get_from_buffer capacity xs p).1 ≡ p)
    unfolding get_from_buffer
    get_from_buffer-none [] p e = (refl, refl)
    get_from_buffer-none (x ∷ xs) p e = cc

    steal_from-none :
        (got : List A) (w : Worker A) (ws : List (Worker A)) (rest : List A × List (Worker A))
        → (got ≡ [] → IsDrained w)
        → (rest.0 ≡ [] → All IsDrained rest.1)
        → (steal_from capacity got w ws rest).0 ≡ []
        → All IsDrained (steal_from capacity got w ws rest).1
    unfolding steal_from
    steal_from-none [] w ws rest h r e = (h refl, r e)
    steal_from-none (x ∷ xs) w ws rest h r e = cc

    steal-none :
        (ws : List (Worker A)) → (steal capacity ws).0 ≡ [] → All IsDrained (steal capacity ws).1
    unfolding steal
    steal-none [] e = tt
    steal-none (w ∷ ws) e =
        let n : ℕ = grab_amount capacity in
        steal_from-none (grab n w.local_queue).0
          (record w { local_queue = (grab n w.local_queue).1 }) ws (steal capacity ws)
          (grab-nil n w.local_queue (grab_amount-pos capacity)) (steal-none ws) e

    -- What is known of a pool before and after a call that finds nothing: only queues were emptied.
    steal_behind-none :
        (xs : List A) (p : Pool A) (slot : Option A)
        → p.global_queue ≡ []
        → IsDrained p.self
        → (xs ≡ [] → All IsDrained p.before)
        → p.self.filo_chain ≡ 0
        → p.self.lifo_slot ≡ slot
        → (steal_behind capacity xs p).0 ≡ none
        → IsIdle slot (steal_behind capacity xs p).1
    unfolding steal_behind
    steal_behind-none [] p slot g s b c l e =
        let (nil, same) =
          get_from_buffer-none (steal capacity p.after).0
            (record p { after = (steal capacity p.after).1 }) e in
        subst (IsIdle slot) (sym same) (record {
          global_empty = g;
          self_drained = s;
          before_drained = b refl;
          after_drained = steal-none p.after nil;
          chain_ended = c;
          slot_is = l;
        })
    steal_behind-none (x ∷ xs) p slot g s b c l e =
        let (nil, same) = get_from_buffer-none (x ∷ xs) p e in cc nil

    try_steal-none :
        (p : Pool A) (slot : Option A)
        → p.global_queue ≡ []
        → IsDrained p.self
        → p.self.filo_chain ≡ 0
        → p.self.lifo_slot ≡ slot
        → (try_steal capacity p).0 ≡ none
        → IsIdle slot (try_steal capacity p).1
    unfolding try_steal
    try_steal-none p slot g s c l e =
        steal_behind-none (steal capacity p.before).0
          (record p { before = (steal capacity p.before).1 }) slot g s (steal-none p.before) c l e

    first_of-none :
        (o : Option A) (p : Pool A) (rest : Pool A → Option A × Pool A)
        → (first_of capacity o p rest).0 ≡ none
        → (o ≡ none) × ((rest p).0 ≡ none) × (first_of capacity o p rest ≡ rest p)
    unfolding first_of
    first_of-none none p rest e = (refl, e, refl)
    first_of-none (some x) p rest e = cc

    try_grab_global-none :
        (p : Pool A)
        → (try_grab_global capacity p).0 ≡ none
        → (try_grab_global capacity p).1 ≡ record p { global_queue = [] }
    unfolding try_grab_global
    try_grab_global-none p e =
        let n : ℕ = grab_amount capacity in
        let (nil, same) =
          get_from_buffer-none (grab n p.global_queue).0
            (record p { global_queue = (grab n p.global_queue).1 }) e in
        same
        ∙ ap (λ g. record p { global_queue = g })
            (grab-nil n p.global_queue (grab_amount-pos capacity) nil)

    try_others-none :
        (p : Pool A) (slot : Option A)
        → IsDrained p.self
        → p.self.filo_chain ≡ 0
        → p.self.lifo_slot ≡ slot
        → (try_others capacity p).0 ≡ none
        → IsIdle slot (try_others capacity p).1
    unfolding try_others
    try_others-none p slot s c l e =
        let (miss, end, same) =
          first_of-none (try_grab_global capacity p).0 (try_grab_global capacity p).1
            (try_steal capacity) e in
        let emptied = try_grab_global-none p miss in
        let found : (try_steal capacity (record p { global_queue = [] })).0 ≡ none =
          ap (λ k. (try_steal capacity k).0) (sym emptied) ∙ end in
        subst (λ r. IsIdle slot r)
          (sym (ap (λ r. r.1) same ∙ ap (λ k. (try_steal capacity k).1) emptied))
          (try_steal-none (record p { global_queue = [] }) slot refl s c l found)

    pop_local-none :
        (xs : List A) (p : Pool A) (slot : Option A)
        → p.self.local_queue ≡ xs
        → p.self.filo_chain ≡ 0
        → p.self.lifo_slot ≡ slot
        → (pop_local capacity xs p).0 ≡ none
        → IsIdle slot (pop_local capacity xs p).1
    unfolding pop_local
    pop_local-none [] p slot s c l e = try_others-none p slot s c l e
    pop_local-none (x ∷ xs) p slot s c l e = cc

    try_queues-none :
        (p : Pool A)
        → (try_queues capacity p).0 ≡ none
        → IsIdle p.self.lifo_slot (try_queues capacity p).1
    unfolding try_queues
    try_queues-none p e =
        pop_local-none p.self.local_queue (end_chain capacity p) p.self.lifo_slot refl refl refl e

    take_lifo-none :
        (o : Option A) (p : Pool A)
        → p.self.lifo_slot ≡ o
        → (take_lifo capacity o p).0 ≡ none
        → (p.self.lifo_slot ≡ none) × IsIdle p.self.lifo_slot (take_lifo capacity o p).1
    unfolding take_lifo
    take_lifo-none none p l e = (l, try_queues-none p e)
    take_lifo-none (some x) p l e = cc

    pub try_get_work-none :
        (p : Pool A)
        → (try_get_work capacity p).0 ≡ none
        → IsIdle p.self.lifo_slot (try_get_work capacity p).1
          × (p.self.filo_chain < 16 → p.self.lifo_slot ≡ none)
    unfolding try_get_work
    try_get_work-none p e = elim (Bool-cases (ltb p.self.filo_chain 16)) [
      | inl b ↦
          let run : try_get_work capacity p ≡ take_lifo capacity p.self.lifo_slot p = rw b refl in
          let (no_lifo, idle) =
            take_lifo-none p.self.lifo_slot p refl (ap (λ r. r.0) (sym run) ∙ e) in
          (
            subst (λ (r : Option A × Pool A). IsIdle p.self.lifo_slot r.1) (sym run) idle,
            λ _. no_lifo,
          )
      | inr b ↦
          let run : try_get_work capacity p ≡ try_queues capacity p = rw b refl in
          (
            subst (λ (r : Option A × Pool A). IsIdle p.self.lifo_slot r.1) (sym run)
                (try_queues-none p (ap (λ r. r.0) (sym run) ∙ e)),
            λ small. absurd (ground arith),
          )
    ]
