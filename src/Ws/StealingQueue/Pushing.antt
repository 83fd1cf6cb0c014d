-- ===== src/Ws/StealingQueue/Pushing.antt =====
-- What each step of `TryPush` keeps, in
-- source/runtime/multi_thread/v2/ws/work_stealing_queue.hpp.
use cpp_concurrency.Base.{
  ℕ, suc, ◌+◌, ◌-◌, ◌%◌, ◌^◌, ◌<◌, ◌≡◌, ◌≢◌, refl, sym, ap, ◌∙◌, subst, inl, inr, some, [], ◌∷◌,
  ◌++◌, arith, length-append, get_elem?, get_elem?-append_left, get_elem?-append_length, ==-cases,
  if◌then◌else◌, mod-apart, append-nil,
}
use cpp_concurrency.Ws.StealingQueue.{
  u64, update, Queue, PushPc, free, stored, Push, load_tail, load_head, full, store, publish,
}
use cpp_concurrency.Ws.StealingQueue.Invariant.{
  PushOk, Ring, Grows, Grows-refl, Ring-later, Slice-more,
}

module _ {ℓ} {A : Type ℓ} where
  -- What a step of the owner does: it keeps the ring and does not move the head.
  pub record Pushed (c n : ℕ) (q q' : Queue A) (p' : PushPc A) : Type ℓ where
    pub ring : Ring c (suc n) q'
    pub grows : Grows q q'
    pub ok : PushOk c q' p'

  Pushed-same :
      (c n : ℕ) (q : Queue A) (p' : PushPc A) → Ring c n q → PushOk c q p' → Pushed c n q q p'
  Pushed-same c n q p' r ok = record { ring = Ring-later r; grows = Grows-refl q; ok = ok }

  update-here : (f : ℕ → A) (i : ℕ) (a : A) → update f i a i ≡ a
  update-here f i a = elim (==-cases i i) [
    | inl e ↦ ap (λ b. if b then a else f i) e.1
    | inr e ↦ absurd (e.0 refl)
  ]

  update-apart : (f : ℕ → A) (i j : ℕ) (a : A) → j ≢ i → update f i a j ≡ f j
  update-apart f i j a ne = elim (==-cases j i) [
    | inl e ↦ absurd (ne e.0)
    | inr e ↦ ap (λ b. if b then a else f j) e.1
  ]

  Ring-store :
      (c n : ℕ) (q : Queue A) (x : A)
      → Ring c n q
      → q.tail < q.head + c
      → Ring c (suc n) (record q { buffer = update q.buffer (q.tail % c) x })
  Ring-store c n q x r room = record {
    some_room = r.some_room;
    pushed_count = r.pushed_count;
    taken_count = r.taken_count;
    in_order = r.in_order;
    head_le = r.head_le;
    tail_le = r.tail_le;
    small = omega (arith, r.small);
    live = λ i a b.
        let apart : i % c ≢ q.tail % c = λ e.
          mod-apart c i (q.tail - i) (omega arith) (omega arith)
            (ap (λ k. k % c) {x = i + (q.tail - i)} {y = q.tail} (omega arith) ∙ sym e) in
        r.live i a b ∙ ap some (sym (update-apart q.buffer (q.tail % c) (i % c) x apart));
  }

  Ring-publish :
      (c n : ℕ) (q : Queue A) (x : A)
      → Ring c n q
      → q.tail < q.head + c
      → q.buffer (q.tail % c) ≡ x
      → Ring c (suc n) (record q { tail = q.tail + 1; pushed = q.pushed ++ x ∷ [] })
  Ring-publish c n q x r room e = record {
    some_room = r.some_room;
    pushed_count = length-append q.pushed (x ∷ []) ∙ omega (arith, r.pushed_count);
    taken_count = r.taken_count;
    in_order = Slice-more q.pushed (x ∷ []) 0 q.taken r.in_order;
    head_le = omega (arith, r.head_le);
    tail_le = omega arith;
    small = omega (arith, r.small);
    live = λ i a b. elim (==-cases i q.tail) [
      | inl at ↦
          subst (λ k. get_elem? (q.pushed ++ x ∷ []) k ≡ some (q.buffer (k % c))) (sym at.0)
            (subst (λ k. get_elem? (q.pushed ++ x ∷ []) k ≡ some (q.buffer (q.tail % c)))
              r.pushed_count (get_elem?-append_length q.pushed x ∙ ap some (sym e)))
      | inr off ↦
          get_elem?-append_left q.pushed (x ∷ []) i (omega (arith, r.pushed_count, off.0))
          ∙ r.live i a (omega (arith, off.0))
    ];
  }

  pub Push-Pushed :
      (c n : ℕ) {q q' : Queue A} {p p' : PushPc A}
      → n + c < 2 ^ 64
      → Ring c n q
      → PushOk c q p
      → Push c q p q' p'
      → Pushed c n q q' p'
  Push-Pushed c n {q} fit r ok (load_tail x) = Pushed-same c n q _ r (refl, tt)
  Push-Pushed c n {q} fit r ok load_head = Pushed-same c n q _ r (ok.0, omega arith, tt)
  Push-Pushed c n {q} fit r ok (full f) = Pushed-same c n q _ r tt
  Push-Pushed c n {q} fit r ok (store {x = x} {t = t} {h = h} room) =
      let wide : q.tail < q.head + c = omega (arith, r.head_le, r.small, ok.0, ok.1) in
      subst (λ k. Pushed c n q (record q { buffer = update q.buffer (k % c) x }) (stored x k))
        (sym ok.0)
        (record {
          ring = Ring-store c n q x r wide;
          grows = record {
            head_up = omega arith;
            tail_up = omega arith;
            more = [];
            pushed_more = sym (append-nil q.pushed);
          };
          ok = (refl, wide, update-here q.buffer (q.tail % c) x);
        })
  Push-Pushed c n {q} fit r ok (publish {x = x} {t = t}) =
      let next : u64 (t + 1) ≡ q.tail + 1 = omega (arith, r.small, ok.0) in
      subst (λ k. Pushed c n q (record q { tail = k; pushed = q.pushed ++ x ∷ [] }) free) (sym next)
        (record {
          ring =
              Ring-publish c n q x r (omega (arith, ok.0, ok.1))
                (subst (λ k. q.buffer (k % c) ≡ x) ok.0 ok.2);
          grows = record {
            head_up = omega arith;
            tail_up = omega arith;
            more = x ∷ [];
            pushed_more = refl;
          };
          ok = tt;
        })
