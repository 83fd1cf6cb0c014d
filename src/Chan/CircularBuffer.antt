-- ===== src/Chan/CircularBuffer.antt =====
-- source/fiber/chan/detail/circular_buffer.hpp: the storage of a buffered channel. Positions stay
-- below `capacity_`, so that the next one fits `size_t`; where a sum or a product can wrap, it does.
pub mod Laws
pub mod Destroy
use cpp_concurrency.Base.{
  ℕ, zero, suc, ◌+◌, ◌-◌, ◌*◌, ◌%◌, ◌^◌, Bool, true, false, Option, none, some, ltb, ◌==◌,
  if◌then◌else◌,
}

module _ {ℓ} {A : Type ℓ} where
  -- A slot of raw storage: `none` is memory without an object.
  abbrev pub update : (ℕ → Option A) → ℕ → Option A → ℕ → Option A
  update f i v j = if j == i then v else f j

pub record CircularBuffer {ℓ} (A : Type ℓ) : Type ℓ where
  pub capacity : ℕ
  pub tail : ℕ
  pub head : ℕ
  pub slots : ℕ → Option A

module _ {ℓ} {A : Type ℓ} where
  -- `CircularBuffer(size_t capacity)`
  pub make : ℕ → CircularBuffer A
  make n = record { capacity = (n + 1) % 2 ^ 64; tail = 0; head = 0; slots = λ _. none }

  -- The bytes that `CircularBuffer(size_t capacity)` asks `operator new` for, with `sizeof(T)`.
  pub allocated : ℕ → CircularBuffer A → ℕ
  allocated size_of b = (b.capacity * size_of) % 2 ^ 64

  -- `Size`
  pub size : CircularBuffer A → ℕ
  size b =
      if ltb b.tail b.head
      then ((b.tail + b.capacity) % 2 ^ 64 + 2 ^ 64 - b.head) % 2 ^ 64
      else b.tail - b.head

  -- `Capacity`
  pub max_size : CircularBuffer A → ℕ
  max_size b = (b.capacity + 2 ^ 64 - 1) % 2 ^ 64

  -- `IsFull`
  pub is_full : CircularBuffer A → Bool
  unfolding size max_size
  is_full b = size b == max_size b

  -- `IsEmpty`
  pub is_empty : CircularBuffer A → Bool
  unfolding size
  is_empty b = size b == 0

  -- `Emplace`, with `PostIncrement`. `none` is the failed assertion.
  pub emplace : A → CircularBuffer A → Option (CircularBuffer A)
  unfolding is_full
  emplace v b =
      if is_full b
      then none
      else some
          (record b { tail = (b.tail + 1) % b.capacity; slots = update b.slots b.tail (some v) })

  -- `Pop`. `none` is the failed assertion, or a read of a slot without an object.
  pub pop : CircularBuffer A → Option (A × CircularBuffer A)
  unfolding is_empty
  pop b = if is_empty b then none else (elim (b.slots b.head) [
    | none ↦ none
    | some v ↦
        some (v, record b { head = (b.head + 1) % b.capacity; slots = update b.slots b.head none })
  ])

  -- The loop of `~CircularBuffer` from the position `i`: the slots as it leaves them, `none` if it destroys
  -- where there is no object, or has not ended within the fuel.
  pub destroy_from : (fuel capacity tail i : ℕ) → (ℕ → Option A) → Option (ℕ → Option A)
  destroy_from zero capacity tail i slots = none
  destroy_from (suc fuel) capacity tail i slots =
      if i == tail then some slots else (elim (slots i) [
        | none ↦ none
        | some v ↦ destroy_from fuel capacity tail ((i + 1) % capacity) (update slots i none)
      ])

  -- `~CircularBuffer`
  pub destroy : CircularBuffer A → Option (ℕ → Option A)
  unfolding destroy_from
  destroy b = destroy_from b.capacity b.capacity b.tail b.head b.slots
