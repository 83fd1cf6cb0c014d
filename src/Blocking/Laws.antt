-- ===== src/Blocking/Laws.antt =====
-- No value is lost, none waits while a thread sleeps, in source/detail/queue.hpp.
use cpp_concurrency.Base.{
  append-nil, ◌⊎◌, suc, ◌+◌, ◌-◌, ◌≤◌, ◌<◌, ◌≡◌, refl, sym, ap, ◌∙◌, subst, inl, inr, Bool, true,
  false, not, ◌&&◌, List, [], ◌∷◌, ◌++◌, arith, ltb, is_empty, if◌then◌else◌, length, length-append,
  append_assoc, Bool-cases, List-cases,
}
use cpp_concurrency.Blocking.{
  Queue, Popped, waits, nothing, popped, init, notify_one, push, take_front, try_pop, test, pop,
  resume, close,
}

-- A step of some thread. `resumes` is one of the notified threads, and `wakes` wakes a blocked one for
-- no reason; they do nothing where there is none.
pub data Move {ℓ} (A : Type ℓ) : Type ℓ where
  pushes : (value : A) → Move A
  pops resumes wakes tries closes : Move A

-- The queue, and the values pushed and taken so far, in order.
pub record Trace {ℓ} (A : Type ℓ) : Type ℓ where
  pub queue : Queue A
  pub pushed : List A
  pub taken : List A

module _ {ℓ} {A : Type ℓ} where
  abbrev pub with_popped : Popped A → List A → List A
  with_popped waits vs = vs
  with_popped nothing vs = vs
  with_popped (popped v) vs = vs ++ v ∷ []

  abbrev pub took : Trace A → Popped A × Queue A → Trace A
  took t r = record t { queue = r.1; taken = with_popped r.0 t.taken }

  abbrev pub move : Move A → Trace A → Trace A
  move (pushes v) t = record t { queue = push v t.queue; pushed = t.pushed ++ v ∷ [] }
  move pops t = took t (pop t.queue)
  move resumes t = if ltb 0 t.queue.notified then took t (resume t.queue) else t
  move wakes t = record t { queue = notify_one t.queue }
  move tries t = took t (try_pop t.queue)
  move closes t = record t { queue = close t.queue }

  abbrev pub moves : List (Move A) → Trace A → Trace A
  moves [] t = t
  moves (m ∷ ms) t = moves ms (move m t)

  abbrev pub start : Trace A
  start = record { queue = init; pushed = []; taken = [] }

  -- The values left are those pushed and not taken, in order; `waiting_` counts the threads inside
  -- `Pop`; and a thread is blocked only while the queue is open and there are as many notified threads
  -- as values.
  pub record IsFair (t : Trace A) : Type ℓ where
    pub in_order : t.taken ++ t.queue.buffer ≡ t.pushed
    pub counted : t.queue.waiting ≡ t.queue.blocked + t.queue.notified
    pub served :
        0 < t.queue.blocked
        → (t.queue.is_closed ≡ false) × (length t.queue.buffer ≤ t.queue.notified)

  pub start-IsFair : IsFair start
  start-IsFair = record { in_order = refl; counted = refl; served = λ h. absurd (omega arith) }

  -- A front value that is taken.
  take_front-IsFair :
      (vs : List A) (t : Trace A) (q : Queue A)
      → q.buffer ≡ vs
      → t.taken ++ vs ≡ t.pushed
      → q.waiting ≡ q.blocked + q.notified
      → (0 < q.blocked → (q.is_closed ≡ false) × (length vs - 1 ≤ q.notified))
      → IsFair (took t (take_front vs q))
  take_front-IsFair [] t q e o c s = record {
    in_order = ap (λ vs. t.taken ++ vs) e ∙ o;
    counted = c;
    served = λ h. ((s h).0, subst (λ vs. length vs ≤ q.notified) (sym e) (omega arith));
  }
  take_front-IsFair (v ∷ vs) t q e o c s = record {
    in_order = append_assoc t.taken (v ∷ []) vs ∙ o;
    counted = c;
    served = λ h. ((s h).0, omega (arith, (s h).1));
  }

  test-IsFair :
      (t : Trace A) (q : Queue A)
      → q.buffer ≡ t.queue.buffer
      → t.taken ++ t.queue.buffer ≡ t.pushed
      → q.waiting ≡ suc (q.blocked + q.notified)
      → (0 < q.blocked → (q.is_closed ≡ false) × (length t.queue.buffer - 1 ≤ q.notified))
      → IsFair (took t (test q))
  test-IsFair t q e o c s = elim (Bool-cases (not q.is_closed && is_empty q.buffer)) [
    | inl stuck ↦ rw stuck (record {
      in_order = ap (λ vs. t.taken ++ vs) e ∙ o;
      counted = omega arith;
      served = λ h. (
        is_open q.is_closed (is_empty q.buffer) stuck,
        none_left q.buffer (is_open_empty q.is_closed (is_empty q.buffer) stuck),
      );
    })
    | inr go ↦ rw go (
        take_front-IsFair q.buffer t (record q { waiting = q.waiting - 1 }) refl
          (ap (λ vs. t.taken ++ vs) e ∙ o) (omega arith)
          (λ h. ((s h).0, subst (λ vs. length vs - 1 ≤ q.notified) (sym e) (s h).1)))
  ]
    where
      is_open : (b d : Bool) → (not b && d) ≡ true → b ≡ false
      is_open false d h = refl
      is_open true d h = cc h

      is_open_empty : (b d : Bool) → (not b && d) ≡ true → d ≡ true
      is_open_empty false d h = h
      is_open_empty true d h = cc h

      none_left : (vs : List A) → is_empty vs ≡ true → length vs ≤ q.notified
      none_left [] h = omega arith
      none_left (v ∷ vs) h = cc h

  notify_one-IsFair : (t : Trace A) → IsFair t → IsFair (record t { queue = notify_one t.queue })
  notify_one-IsFair t i = elim (Bool-cases (ltb 0 t.queue.blocked)) [
    | inl e ↦ rw e (record {
      in_order = i.in_order;
      counted = ground (arith, i.counted);
      served = λ h. ((i.served (omega arith)).0, omega (arith, (i.served (omega arith)).1));
    })
    | inr e ↦ rw e (record { in_order = i.in_order; counted = i.counted; served = i.served })
  ]

  -- A push that finds a thread blocked.
  push-IsFair : (v : A) (t : Trace A) → IsFair t → IsFair (move (pushes v) t)
  push-IsFair v t i = elim (Bool-cases (ltb 0 t.queue.waiting)) [
    | inl e ↦ elim (Bool-cases (ltb 0 t.queue.blocked)) [
      | inl f ↦
          rw (e, f)
            (record {
              in_order = grown;
              counted = ground (arith, i.counted);
              served = λ h. (
                (i.served (omega arith)).0,
                omega (arith, length-append t.queue.buffer (v ∷ []), (i.served (omega arith)).1),
              );
            })
      | inr f ↦
          rw (e, f)
            (record { in_order = grown; counted = i.counted; served = λ h. absurd (ground arith) })
    ]
    | inr e ↦ rw e (record {
      in_order = grown;
      counted = i.counted;
      served = λ h. absurd (ground (arith, i.counted));
    })
  ]
    where
      grown : t.taken ++ (t.queue.buffer ++ v ∷ []) ≡ t.pushed ++ v ∷ []
      grown =
          sym (append_assoc t.taken t.queue.buffer (v ∷ [])) ∙ ap (λ vs. vs ++ v ∷ []) i.in_order

  pub move-IsFair : (m : Move A) (t : Trace A) → IsFair t → IsFair (move m t)
  move-IsFair (pushes v) t i = push-IsFair v t i
  move-IsFair pops t i =
      test-IsFair t (record t.queue { waiting = t.queue.waiting + 1 }) refl i.in_order
        (omega (arith, i.counted)) (λ h. ((i.served h).0, omega (arith, (i.served h).1)))
  move-IsFair resumes t i = elim (Bool-cases (ltb 0 t.queue.notified)) [
    | inl e ↦ rw e (
        test-IsFair t (record t.queue { notified = t.queue.notified - 1 }) refl i.in_order
          (ground (arith, i.counted)) (λ h. ((i.served h).0, omega (arith, (i.served h).1))))
    | inr e ↦ rw e i
  ]
  move-IsFair wakes t i = notify_one-IsFair t i
  move-IsFair tries t i =
      take_front-IsFair t.queue.buffer t t.queue refl i.in_order i.counted
        (λ h. ((i.served h).0, omega (arith, (i.served h).1)))
  move-IsFair closes t i = elim (Bool-cases (ltb 0 t.queue.waiting)) [
    | inl e ↦ rw e (record {
      in_order = i.in_order;
      counted = omega (arith, i.counted);
      served = λ h. absurd (omega arith);
    })
    | inr e ↦ rw e (record {
      in_order = i.in_order;
      counted = i.counted;
      served = λ h. absurd (ground (arith, i.counted));
    })
  ]

  moves-from : (ms : List (Move A)) (t : Trace A) → IsFair t → IsFair (moves ms t)
  moves-from [] t i = i
  moves-from (m ∷ ms) t i = moves-from ms (move m t) (move-IsFair m t i)

  -- However pushes, pops, spurious wake-ups and the close of a blocking queue interleave: the
  -- values come out in the order of the pushes, none is lost, and while a thread is blocked the
  -- queue is open and there is a notified thread for each value in it.
  pub moves-IsFair : (ms : List (Move A)) → IsFair (moves ms start)
  moves-IsFair ms = moves-from ms start start-IsFair

  test-nothing : (q : Queue A) → (test q).0 ≡ nothing → (q.is_closed ≡ true) × (q.buffer ≡ [])
  test-nothing q e = elim (Bool-cases q.is_closed) [
    | inl c ↦ elim (List-cases q.buffer) [
      | inl nil ↦ (c, nil)
      | inr s ↦ let run : (test q).0 ≡ popped s.head = rw (c, s.split) refl in cc (sym e ∙ run)
    ]
    | inr c ↦ elim (List-cases q.buffer) [
      | inl nil ↦ let run : (test q).0 ≡ waits = rw (c, nil) refl in cc (sym e ∙ run)
      | inr s ↦ let run : (test q).0 ≡ popped s.head = rw (c, s.split) refl in cc (sym e ∙ run)
    ]
  ]

  -- `Pop` returns nothing, at once or when its wait ends, only if the queue is closed and empty.
  pub pop-nothing :
      (q : Queue A)
      → ((pop q).0 ≡ nothing → (q.is_closed ≡ true) × (q.buffer ≡ []))
        × ((resume q).0 ≡ nothing → (q.is_closed ≡ true) × (q.buffer ≡ []))
  pop-nothing q = (
    test-nothing (record q { waiting = q.waiting + 1 }),
    test-nothing (record q { notified = q.notified - 1 }),
  )

  -- However pushes, pops, spurious wake-ups and the close of a blocking queue interleave: when
  -- `Pop` then returns nothing, at once or when its wait ends, every value that was pushed has been
  -- taken, in the order of the pushes.
  pub pop-drained :
      (ms : List (Move A))
      → ((pop (moves ms start).queue).0 ≡ nothing) ⊎ ((resume (moves ms start).queue).0 ≡ nothing)
      → (moves ms start).taken ≡ (moves ms start).pushed
  pop-drained ms o =
      let q = (moves ms start).queue in
      let empty : q.buffer ≡ [] = elim o [
        | inl e ↦ ((pop-nothing q).0 e).1
        | inr e ↦ ((pop-nothing q).1 e).1
      ] in
      sym (append-nil (moves ms start).taken)
      ∙ ap (λ vs. (moves ms start).taken ++ vs) (sym empty)
      ∙ (moves-IsFair ms).in_order
