-- ===== src/Chan/Spec.antt =====
-- What a channel promises, whatever its buffer: values go to receivers, first in, first out. The two
-- channels implement it.
use cpp_concurrency.Base.{ℕ, ◌≡◌, Option, none, some, List, [], ◌∷◌, ◌++◌}

-- The values that are on their way, and the fibers that wait for one; both oldest first.
pub record Pipe {ℓ} (A : Type ℓ) : Type ℓ where
  pub values : List A
  pub waiting : List ℕ

module _ {ℓ} {A : Type ℓ} where
  -- A delivery names the fiber that gets a value.
  abbrev pub spec_send : A → Pipe A → Option (ℕ × A) × Pipe A
  spec_send v p = elim p.waiting [
    | [] ↦ (none, record p { values = p.values ++ v ∷ [] })
    | r ∷ rs ↦ (some (r, v), record p { waiting = rs })
  ]

  abbrev pub spec_receive : ℕ → Pipe A → Option (ℕ × A) × Pipe A
  spec_receive f p = elim p.values [
    | [] ↦ (none, record p { waiting = p.waiting ++ f ∷ [] })
    | v ∷ vs ↦ (some (f, v), record p { values = vs })
  ]

-- The outcome of a call, reduced to what it delivers.
abbrev pub deliver {ℓ} :
    {R A C : Type ℓ} → (R → Option (ℕ × A)) → Option (R × C) → Option (Option (ℕ × A) × C)
deliver to none = none
deliver to (some (r, c)) = some (to r, c)

-- A channel of type `C` that behaves as a pipe does.
pub record IsChannel {ℓ} {A C : Type ℓ} (send : ℕ → A → C → Option (Option (ℕ × A) × C))
    (receive : ℕ → C → Option (Option (ℕ × A) × C)) (Shows : C → Pipe A → Type ℓ) : Type ℓ where
  pub sends :
      (f : ℕ) (v : A) (c : C) (p : Pipe A)
      → Shows c p
      → (c' : C) × (send f v c ≡ some ((spec_send v p).0, c')) × Shows c' (spec_send v p).1
  pub receives :
      (f : ℕ) (c : C) (p : Pipe A)
      → Shows c p
      → (c' : C) × (receive f c ≡ some ((spec_receive f p).0, c')) × Shows c' (spec_receive f p).1
