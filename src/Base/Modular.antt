-- ===== src/Base/Modular.antt =====
-- Positions in a ring.
use Prim.Native.Nat.{ℕ, ◌+◌, ◌-◌, ◌%◌, ◌≤◌, ◌<◌}
use mathlib.Core.Path.{◌≡◌, ◌∙◌}
use mathlib.Core.Logic.{◌≢◌, ◌⊎◌, inl, inr}
use native.Mathlib.Nat.{mod-eq_of_lt, mod-eq-sub-mod, mod-add-mod, mod-lt}
use native.Mathlib.Omega.{arith}
use cpp_concurrency.Base.Tests.{ltb, Bool-cases}

-- A position at most one turn ahead.
pub wrap : (c n : ℕ) → n < c + c → ((n < c) × (n % c ≡ n)) ⊎ ((c ≤ n) × (n % c ≡ n - c))
wrap c n h = elim (Bool-cases (ltb n c)) [
  | inl below ↦ inl (ground arith, mod-eq_of_lt (ground arith))
  | inr above ↦
      inr
        (ground arith, mod-eq-sub-mod {n = n} {m = c} (ground arith) ∙ mod-eq_of_lt (ground arith))
]

pub wrap-injective : (c h j k : ℕ) → h < c → j < c → k < c → (h + j) % c ≡ (h + k) % c → j ≡ k
wrap-injective c h j k lh lj lk e =
    omega (arith, wrap c (h + j) (omega arith), wrap c (h + k) (omega arith))

-- Two positions less than a turn apart differ.
pub mod-apart : (c i d : ℕ) → 0 < d → d < c → (i + d) % c ≢ i % c
mod-apart c i d pos small e =
    let r : i % c < c = mod-lt i (omega arith) in
    absurd (omega (arith, wrap c (i % c + d) (omega arith), mod-add-mod i c d ∙ e))
