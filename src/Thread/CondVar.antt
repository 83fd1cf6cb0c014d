-- ===== src/Thread/CondVar.antt =====
-- source/thread/condvar.hpp: a condition variable that counts notifications. A thread that waits sleeps on
-- the futex until the count is above the one that it read before it gave the mutex back.
use cpp_concurrency.Base.{
  ℕ, zero, suc, ◌+◌, ◌%◌, ◌^◌, ◌≤◌, ◌<◌, ◌≡◌, sym, ap, ◌∙◌, inl, inr, Bool, false, arith, ltb,
  Bool-cases, lt→ltb,
}
use native.Mathlib.Nat.{mod-add-mod}

-- `CondVar`: `atom_`, a `uint32_t`.
pub record CondVar : Type 0 where
  pub atom : ℕ

-- The count that `Wait` reads first.
abbrev pub my_order : CondVar → ℕ
my_order c = c.atom

-- The test of the loop of `Wait`: whether the thread may go on.
abbrev pub passes : ℕ → CondVar → Bool
passes order c = ltb order c.atom

-- `NotifyOne` and `NotifyAll`, on the count.
abbrev pub notify : CondVar → CondVar
notify c = record { atom = (c.atom + 1) % 2 ^ 32 }

abbrev pub notified : ℕ → CondVar → CondVar
notified zero c = c
notified (suc k) c = notified k (notify c)

notified_lem : (k : ℕ) (c : CondVar) → (notified k c).atom % 2 ^ 32 ≡ (c.atom + k) % 2 ^ 32
notified_lem zero c = ap (λ n. n % 2 ^ 32) (omega arith)
notified_lem (suc k) c =
    notified_lem k (notify c)
    ∙ mod-add-mod (c.atom + 1) (2 ^ 32) k
    ∙ ap (λ n. n % 2 ^ 32) (omega arith)

notified-small : (k : ℕ) (c : CondVar) → c.atom < 2 ^ 32 → (notified k c).atom < 2 ^ 32
notified-small zero c h = h
notified-small (suc k) c h = notified-small k (notify c) (omega arith)

ltb-false : (a b : ℕ) → b ≤ a → ltb a b ≡ false
ltb-false a b h = ground arith

-- After `k` notifications, with `k` above 0 and below 2 ^ 32, a thread that waits for the condition
-- variable may go on exactly if the count that it read plus `k` is below 2 ^ 32: once the count has
-- wrapped, the notifications are missed.
pub passes-notified :
    (k : ℕ) (c : CondVar)
    → c.atom < 2 ^ 32
    → 0 < k
    → k < 2 ^ 32
    → passes (my_order c) (notified k c) ≡ ltb (c.atom + k) (2 ^ 32)
passes-notified k c small some few = elim (Bool-cases (ltb (c.atom + k) (2 ^ 32))) [
  | inl e ↦
      lt→ltb c.atom (notified k c).atom (ground (arith, notified_lem k c, notified-small k c small))
      ∙ sym e
  | inr e ↦
      ltb-false c.atom (notified k c).atom
        (ground (arith, notified_lem k c, notified-small k c small))
      ∙ sym e
]
