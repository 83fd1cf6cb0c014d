-- ===== src/Chan/CircularBuffer/Destroy.antt =====
-- The destructor of source/fiber/chan/detail/circular_buffer.hpp.
use cpp_concurrency.Base.{
  ℕ, zero, suc, ◌+◌, ◌-◌, ◌%◌, ◌<◌, ◌≡◌, sym, ◌∙◌, subst, inl, inr, true, false, Option, none, some,
  List, [], ◌∷◌, arith, ltb, ◌==◌, ==_iff, Bool-cases, length, wrap, wrap-injective,
}
use cpp_concurrency.Chan.CircularBuffer.{CircularBuffer, destroy_from, destroy, update}
use cpp_concurrency.Chan.CircularBuffer.Laws.{Holds, at_head, front, popped-Holds}

module _ {ℓ} {A : Type ℓ} where
  -- Without items there is no object.
  no_object : (b : CircularBuffer A) → Holds b [] → (j : ℕ) → j < b.capacity → b.slots j ≡ none
  no_object b h j lt = elim (Bool-cases (ltb j b.head)) [
    | inl before ↦
        let k = j + b.capacity - b.head in
        let at : (b.head + k) % b.capacity ≡ j =
          ground (arith, h.head_in, wrap b.capacity (b.head + k) (ground (arith, h.head_in))) in
        subst (λ p. b.slots p ≡ none) at (h.items k (ground (arith, h.head_in)))
    | inr behind ↦
        let k = j - b.head in
        let at : (b.head + k) % b.capacity ≡ j =
          ground (arith, h.head_in, wrap b.capacity (b.head + k) (ground (arith, h.head_in))) in
        subst (λ p. b.slots p ≡ none) at (h.items k (ground (arith, h.head_in)))
  ]

  at_tail : (b : CircularBuffer A) → Holds b [] → (b.head == b.tail) ≡ true
  at_tail b h = (==_iff b.head b.tail).1 (sym (h.tail_at ∙ at_head b h.head_in))

  before_tail :
      (b : CircularBuffer A) (x : A) (xs : List A) → Holds b (x ∷ xs) → (b.head == b.tail) ≡ false
  before_tail b x xs h = elim (Bool-cases (b.head == b.tail)) [
    | inr e ↦ e
    | inl e ↦
        let same : b.head ≡ b.tail = ground arith in
        absurd (
          omega (
            arith,
            wrap-injective b.capacity b.head (length (x ∷ xs)) 0 h.head_in h.room
                (omega (arith, h.room)) (sym h.tail_at ∙ sym same ∙ sym (at_head b h.head_in)),
          ))
  ]

  destroys_from :
      (fuel : ℕ) (b : CircularBuffer A) (xs : List A)
      → Holds b xs
      → length xs < fuel
      → (slots : ℕ → Option A) × (destroy_from fuel b.capacity b.tail b.head b.slots ≡ some slots)
        × ((j : ℕ) → j < b.capacity → slots j ≡ none)
  unfolding destroy_from
  destroys_from zero b xs h lt = absurd (omega arith)
  destroys_from (suc fuel) b [] h lt = (b.slots, rw (at_tail b h), no_object b h)
  destroys_from (suc fuel) b (x ∷ xs) h lt =
      let after : CircularBuffer A = record b {
        head = (b.head + 1) % b.capacity;
        slots = update b.slots b.head none;
      } in
      let (slots, e, free) = destroys_from fuel after xs (popped-Holds b x xs h) (omega arith) in
      (slots, rw (before_tail b x xs h, front b x xs h) e, free)

  -- The destructor of a buffer that holds any items, wherever they stand, ends, destroys no slot
  -- without an object, and leaves none with an object.
  pub destroy-frees :
      (b : CircularBuffer A) (xs : List A)
      → Holds b xs
      → (slots : ℕ → Option A) × (destroy b ≡ some slots)
        × ((j : ℕ) → j < b.capacity → slots j ≡ none)
  unfolding destroy
  destroy-frees b xs h = destroys_from b.capacity b xs h h.room
