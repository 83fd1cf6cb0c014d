-- ===== src/Thread/SpinLock/Safety.antt =====
-- Mutual exclusion in source/thread/spinlock.hpp.
use cpp_concurrency.Base.{
  ℕ, ◌≤◌, ◌≡◌, ◌≢◌, sym, ◌∙◌, subst, inl, inr, arith, ==-cases, if◌then◌else◌, set_at, set_at-cases,
}
use cpp_concurrency.Thread.SpinLock.{
  System, Pc, outside, exchanging, loading, inside, Step, enters, exchanges, loads, tries, unlocks,
  Reach, start, later,
}

-- The flag is 0 or 1, it is 0 only while nobody is inside, and at most one thread is.
record IsSound (s : System) : Type 0 where
  flag : s.locked ≤ 1
  free : s.locked ≡ 0 → (j : ℕ) → s.pcs j ≢ inside
  alone : (j k : ℕ) → s.pcs j ≡ inside → s.pcs k ≡ inside → j ≡ k

-- Who is inside after a move elsewhere was so before.
was_inside :
    (f : ℕ → Pc) (j : ℕ) (pc : Pc) (k : ℕ)
    → pc ≢ inside
    → set_at f j pc k ≡ inside
    → (k ≢ j) × (f k ≡ inside)
was_inside f j pc k off e = elim (set_at-cases f j pc k) [
  | inl a ↦ absurd (off (sym a.1 ∙ e))
  | inr a ↦ (a.0, sym a.1 ∙ e)
]

-- A move to a place that is not inside; the flag stays, or becomes 1.
moves :
    (s : System) (v j : ℕ) (pc : Pc)
    → IsSound s
    → pc ≢ inside
    → v ≤ 1
    → (v ≡ 0 → s.locked ≡ 0)
    → IsSound (record { locked = v; pcs = set_at s.pcs j pc })
moves s v j pc i off small back = record {
  flag = small;
  free = λ e k f. i.free (back e) k (was_inside s.pcs j pc k off f).1;
  alone =
      λ k l e f. i.alone k l (was_inside s.pcs j pc k off e).1 (was_inside s.pcs j pc l off f).1;
}

takes :
    (s : System) (j : ℕ)
    → IsSound s
    → s.locked ≡ 0
    → IsSound (record { locked = 1; pcs = set_at s.pcs j inside })
takes s j i vacant = record {
  flag = omega arith;
  free = λ e. absurd (omega arith);
  alone = λ k l e f. elim (set_at-cases s.pcs j inside k) [
    | inl a ↦ elim (set_at-cases s.pcs j inside l) [
      | inl b ↦ a.0 ∙ sym b.0
      | inr b ↦ absurd (i.free vacant l (sym b.1 ∙ f))
    ]
    | inr a ↦ absurd (i.free vacant k (sym a.1 ∙ e))
  ];
}

leaves :
    (s : System) (j : ℕ)
    → IsSound s
    → s.pcs j ≡ inside
    → IsSound (record { locked = 0; pcs = set_at s.pcs j outside })
leaves s j i at = record {
  flag = omega arith;
  free = λ e k f. nobody k f;
  alone = λ k l e f. absurd (nobody k e);
}
  where
    nobody : (k : ℕ) → set_at s.pcs j outside k ≢ inside
    nobody k f = let (ne, e) = was_inside s.pcs j outside k (λ g. cc g) f in ne (i.alone k j e at)

Step-IsSound : {s t : System} → IsSound s → Step s t → IsSound t
Step-IsSound {s} i (enters j e) = moves s s.locked j exchanging i (λ g. cc g) i.flag (λ z. z)
Step-IsSound {s} i (exchanges j e) = elim (==-cases s.locked 1) [
  | inl a ↦
      subst
        (λ b. IsSound (record { locked = 1; pcs = set_at s.pcs j (if b then loading else inside) }))
        (sym a.1) (moves s 1 j loading i (λ g. cc g) (omega arith) (λ z. absurd (omega arith)))
  | inr a ↦
      subst
        (λ b. IsSound (record { locked = 1; pcs = set_at s.pcs j (if b then loading else inside) }))
        (sym a.1) (takes s j i (omega (arith, i.flag, a.0)))
]
Step-IsSound {s} i (loads j e) = elim (==-cases s.locked 1) [
  | inl a ↦
      subst (λ b. IsSound (record s { pcs = set_at s.pcs j (if b then loading else exchanging) }))
        (sym a.1) (moves s s.locked j loading i (λ g. cc g) i.flag (λ z. z))
  | inr a ↦
      subst (λ b. IsSound (record s { pcs = set_at s.pcs j (if b then loading else exchanging) }))
        (sym a.1) (moves s s.locked j exchanging i (λ g. cc g) i.flag (λ z. z))
]
Step-IsSound {s} i (tries j e) = elim (==-cases s.locked 0) [
  | inl a ↦
      subst
        (λ b. IsSound (record { locked = 1; pcs = set_at s.pcs j (if b then inside else outside) }))
        (sym a.1) (takes s j i a.0)
  | inr a ↦
      subst
        (λ b. IsSound (record { locked = 1; pcs = set_at s.pcs j (if b then inside else outside) }))
        (sym a.1) (moves s 1 j outside i (λ g. cc g) (omega arith) (λ z. absurd (omega arith)))
]
Step-IsSound {s} i (unlocks j e) = leaves s j i e

Reach-IsSound : {s : System} → Reach s → IsSound s
Reach-IsSound start = record { flag = omega arith; free = λ e j f. cc f; alone = λ j k e f. cc e }
Reach-IsSound (later r step) = Step-IsSound (Reach-IsSound r) step

-- However the accesses of any number of threads to the flag of the spin lock interleave, at most
-- one thread has the lock.
pub Reach-sole : (s : System) (j k : ℕ) → Reach s → s.pcs j ≡ inside → s.pcs k ≡ inside → j ≡ k
Reach-sole s j k r e f = (Reach-IsSound r).alone j k e f
