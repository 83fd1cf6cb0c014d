-- ===== src/Chan/CircularBuffer/Laws.antt =====
-- The buffer of source/fiber/chan/detail/circular_buffer.hpp is a bounded queue.
use cpp_concurrency.Base.{
  ℕ, suc, ◌+◌, ◌-◌, ◌*◌, ◌%◌, ◌^◌, ◌<◌, ◌≡◌, ◌≢◌, refl, ap, sym, ◌∙◌, subst, inl, inr, true, false,
  Option, none, some, List, [], ◌∷◌, ◌++◌, arith, ltb, ◌==◌, ==_iff, Bool-cases, length,
  length-append, get_elem?, get_elem?-append_length, get_elem?-append_ne, get_elem?-above, wrap,
  wrap-injective,
}
use native.Mathlib.Nat.{mod-eq_of_lt, mod-add-mod, mod-lt}
use cpp_concurrency.Chan.CircularBuffer.{
  CircularBuffer, make, size, max_size, is_full, is_empty, emplace, pop, update, allocated,
}

module _ {ℓ} {A : Type ℓ} where
  -- The buffer holds the items `xs`, the oldest first, and no object outside them.
  pub record Holds (b : CircularBuffer A) (xs : List A) : Type ℓ where
    pub room : length xs < b.capacity
    pub fits : b.capacity < 2 ^ 64
    pub head_in : b.head < b.capacity
    pub tail_at : b.tail ≡ (b.head + length xs) % b.capacity
    pub items : (k : ℕ) → k < b.capacity → b.slots ((b.head + k) % b.capacity) ≡ get_elem? xs k

module _ {ℓ} {A : Type ℓ} where
  pub make-Holds : (n : ℕ) → n + 1 < 2 ^ 64 → Holds (make {A = A} n) []
  unfolding make
  make-Holds n small = record {
    room = omega arith;
    fits = omega arith;
    head_in = omega arith;
    tail_at = omega arith;
    items = λ k h. refl;
  }

  pub size-length : (b : CircularBuffer A) (xs : List A) → Holds b xs → size b ≡ length xs
  unfolding size
  size-length b xs h = ground (
    arith,
    h.tail_at,
    h.room,
    h.fits,
    h.head_in,
    wrap b.capacity (b.head + length xs) (omega (arith, h.room, h.head_in)),
  )

  pub is_full-Holds :
      (b : CircularBuffer A) (xs : List A) → Holds b xs → is_full b ≡ (length xs == b.capacity - 1)
  unfolding is_full max_size
  is_full-Holds b xs h =
      let top : (b.capacity + 2 ^ 64 - 1) % 2 ^ 64 ≡ b.capacity - 1 =
        omega (arith, h.room, h.fits) in
      rw (size-length b xs h, top)

  pub is_empty-Holds :
      (b : CircularBuffer A) (xs : List A) → Holds b xs → is_empty b ≡ (length xs == 0)
  unfolding is_empty
  is_empty-Holds b xs h = rw (size-length b xs h)

  update_self : (f : ℕ → Option A) (i j : ℕ) (v : Option A) → j ≡ i → update f i v j ≡ v
  update_self f i j v e = ground arith

  update-ne : (f : ℕ → Option A) (i j : ℕ) (v : Option A) → j ≢ i → update f i v j ≡ f j
  update-ne f i j v e = ground arith

  emplace-items :
      (v : A) (b : CircularBuffer A) (xs : List A)
      → Holds b xs
      → (k : ℕ) → k < b.capacity
      → update b.slots b.tail (some v) ((b.head + k) % b.capacity) ≡ get_elem? (xs ++ v ∷ []) k
  emplace-items v b xs h k lt = elim (Bool-cases (k == length xs)) [
    | inl last ↦
        let at : k ≡ length xs = (==_iff k (length xs)).0 last in
        update_self b.slots b.tail _ (some v) (rw (h.tail_at, at))
        ∙ sym (rw at (get_elem?-append_length xs v))
    | inr other ↦
        let apart : k ≢ length xs = λ e. cc ((==_iff k (length xs)).1 e) in
        update-ne b.slots b.tail _ (some v) (λ e.
          apart
            (wrap-injective b.capacity b.head k (length xs) h.head_in lt h.room (e ∙ h.tail_at)))
        ∙ h.items k lt
        ∙ sym (get_elem?-append_ne xs v k apart)
  ]

  pub at_head : (b : CircularBuffer A) → b.head < b.capacity → (b.head + 0) % b.capacity ≡ b.head
  at_head b lt = ap (λ n. n % b.capacity) (omega arith) ∙ mod-eq_of_lt lt

  pub front :
      (b : CircularBuffer A) (x : A) (xs : List A) → Holds b (x ∷ xs) → b.slots b.head ≡ some x
  front b x xs h =
      subst (λ p. b.slots p ≡ some x) (at_head b h.head_in) (h.items 0 (omega (arith, h.head_in)))

  pop-items :
      (b : CircularBuffer A) (x : A) (xs : List A)
      → Holds b (x ∷ xs)
      → (k : ℕ) → k < b.capacity
      → update b.slots b.head none (((b.head + 1) % b.capacity + k) % b.capacity) ≡ get_elem? xs k
  pop-items b x xs h k lt =
      let shift : b.head + 1 + k ≡ b.head + suc k = omega arith in
      rw (mod-add-mod (b.head + 1) b.capacity k, shift)
        (elim (Bool-cases (ltb (suc k) b.capacity)) [
          | inl inside ↦
              update-ne b.slots b.head _ none (λ e. absurd (
                omega (
                  arith,
                  wrap-injective b.capacity b.head (suc k) 0 h.head_in (ground arith)
                      (omega (arith, h.head_in)) (e ∙ sym (at_head b h.head_in)),
                )))
              ∙ h.items (suc k) (ground arith)
          | inr last ↦
              update_self b.slots b.head _ none (
                ground
                  (arith, h.head_in, wrap b.capacity (b.head + suc k) (omega (arith, h.head_in))))
              ∙ sym (get_elem?-above xs k (ground (arith, h.room)))
        ])

  -- `Emplace` on a buffer that is not full does not fail: it puts the item behind the others, in a
  -- slot that held no object, and keeps the capacity.
  pub emplace-Holds :
      (v : A) (b : CircularBuffer A) (xs : List A)
      → Holds b xs
      → length xs < b.capacity - 1
      → (b' : CircularBuffer A) × (emplace v b ≡ some b')
        × (b'.capacity ≡ b.capacity)
        × (b.slots b.tail ≡ none)
        × Holds b' (xs ++ v ∷ [])
  unfolding emplace
  emplace-Holds v b xs h room = (
    record b { tail = (b.tail + 1) % b.capacity; slots = update b.slots b.tail (some v) },
    rw (is_full-Holds b xs h) (ground arith),
    refl,
    rw h.tail_at (h.items (length xs) h.room ∙ get_elem?-above xs (length xs) (omega arith)),
    record {
      room = omega (arith, length-append xs (v ∷ []));
      fits = h.fits;
      head_in = h.head_in;
      tail_at =
          rw (h.tail_at, length-append xs (v ∷ []))
            (mod-add-mod (b.head + length xs) b.capacity 1
              ∙ ap (λ n. n % b.capacity) (omega arith));
      items = emplace-items v b xs h;
    },
  )

  pub emplace-full :
      (v : A) (b : CircularBuffer A) (xs : List A)
      → Holds b xs
      → length xs ≡ b.capacity - 1
      → emplace v b ≡ none
  unfolding emplace
  emplace-full v b xs h full = rw (is_full-Holds b xs h) (ground arith)

  -- The oldest item is taken out of its slot.
  pub popped-Holds :
      (b : CircularBuffer A) (x : A) (xs : List A)
      → Holds b (x ∷ xs)
      → Holds (record b { head = (b.head + 1) % b.capacity; slots = update b.slots b.head none }) xs
  popped-Holds b x xs h = record {
    room = omega (arith, h.room);
    fits = h.fits;
    head_in = mod-lt (b.head + 1) (omega (arith, h.room));
    tail_at = rw h.tail_at (
        ap (λ n. n % b.capacity) (omega arith)
        ∙ sym (mod-add-mod (b.head + 1) b.capacity (length xs)));
    items = pop-items b x xs h;
  }

  -- `Pop` on a buffer that is not empty does not fail: it takes the oldest item, leaves its slot
  -- without an object, and keeps the others and the capacity.
  pub pop-Holds :
      (b : CircularBuffer A) (x : A) (xs : List A)
      → Holds b (x ∷ xs)
      → (b' : CircularBuffer A) × (pop b ≡ some (x, b'))
        × (b'.capacity ≡ b.capacity)
        × (b'.slots b.head ≡ none)
        × Holds b' xs
  unfolding pop
  pop-Holds b x xs h = (
    record b { head = (b.head + 1) % b.capacity; slots = update b.slots b.head none },
    rw (is_empty-Holds b (x ∷ xs) h, front b x xs h, pop) (ground arith),
    refl,
    ground arith,
    popped-Holds b x xs h,
  )

  pub pop-empty : (b : CircularBuffer A) → Holds b [] → pop b ≡ none
  unfolding pop
  pop-empty b h = rw (is_empty-Holds b [] h)

  pub is_full-true :
      (b : CircularBuffer A) (xs : List A)
      → Holds b xs
      → length xs ≡ b.capacity - 1
      → is_full b ≡ true
  is_full-true b xs h e = is_full-Holds b xs h ∙ ground arith

  pub is_full-false :
      (b : CircularBuffer A) (xs : List A)
      → Holds b xs
      → length xs < b.capacity - 1
      → is_full b ≡ false
  is_full-false b xs h e = is_full-Holds b xs h ∙ ground arith

  pub is_empty-true : (b : CircularBuffer A) → Holds b [] → is_empty b ≡ true
  is_empty-true b h = is_empty-Holds b [] h

  pub is_empty-false :
      (b : CircularBuffer A) (x : A) (xs : List A) → Holds b (x ∷ xs) → is_empty b ≡ false
  is_empty-false b x xs h = is_empty-Holds b (x ∷ xs) h ∙ ground arith

pub make-capacity {ℓ} : (A : Type ℓ) (n : ℕ) → n + 1 < 2 ^ 64 → (make {A = A} n).capacity ≡ n + 1
unfolding make
make-capacity A n small = omega arith

-- The storage has room for every slot if the bytes of all can be counted.
pub allocated-fits {ℓ} :
    (A : Type ℓ) (n size_of : ℕ)
    → (n + 1) * size_of < 2 ^ 64
    → n + 1 < 2 ^ 64
    → allocated size_of (make {A = A} n) ≡ (n + 1) * size_of
unfolding allocated make
allocated-fits A n size_of few small =
    ap (λ c. (c * size_of) % 2 ^ 64) (make-capacity A n small) ∙ mod-eq_of_lt few
