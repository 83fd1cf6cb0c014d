-- ===== src/Thread/Mutex/Safety.antt =====
-- Mutual exclusion, and that no wake-up is lost, in source/thread/mutex.hpp.
use cpp_concurrency.Base.{
  ℕ, ◌≡◌, ◌≢◌, refl, sym, ◌∙◌, subst, ◌⊎◌, inl, inr, arith, set_at-cases, ◌==◌, if◌then◌else◌,
  ==-cases,
}
use cpp_concurrency.Thread.Mutex.{
  System, Pc, outside, swapping, checking, sleeping, inside, waking, go, Step, locks, misses, swaps,
  swaps_in_vain, sleeps, returns, wakes_up, unlocks, wakes, wakes_none, Reach, start, later,
}
use cpp_concurrency.Thread.Mutex.Invariant.{
  Someone, Helped, IsSound, init-IsSound, go-here, Someone-go, before_go, moves, takes, leaves,
}

-- Help stays where a thread moves that is neither before its exchange nor about to wake another.
stays :
    (s : System) (v j : ℕ) (pc : Pc)
    → (s.is_vacant ≡ 2 → Helped (go s v j pc))
    → s.pcs j ≢ swapping
    → s.pcs j ≢ waking
    → Helped s
    → Helped (go s v j pc)
stays s v j pc two a b (inl e) = two e
stays s v j pc two a b (inr (inl w)) = inr (inl (Someone-go s v j pc swapping a w))
stays s v j pc two a b (inr (inr w)) = inr (inr (Someone-go s v j pc waking b w))

helps : (s : System) (v j : ℕ) → Helped (go s v j swapping)
helps s v j = inr (inl (record { who = j; at = go-here s v j swapping }))

unlocks-IsSound :
    (s : System) (j : ℕ)
    → IsSound s
    → s.pcs j ≡ inside
    → IsSound (go s 0 j (if s.is_vacant == 2 then waking else outside))
unlocks-IsSound s j i e = elim (==-cases s.is_vacant 2) [
  | inl two ↦
      subst (λ b. IsSound (go s 0 j (if b then waking else outside))) (sym two.1)
        (leaves s j waking i e (λ f. cc f)
          (λ k f. inr (inr (record { who = j; at = go-here s 0 j waking }))))
  | inr other ↦
      subst (λ b. IsSound (go s 0 j (if b then waking else outside))) (sym other.1)
        (leaves s j outside i e (λ f. cc f)
          (λ k f.
            stays s 0 j outside (λ t. absurd (other.0 t)) (λ g. cc (sym e ∙ g))
              (λ g. cc (sym e ∙ g))
              (i.helped k (before_go s 0 j outside sleeping k (λ g. cc g) f).1)))
]

wakes-IsSound :
    (s : System) (j k : ℕ)
    → IsSound s
    → s.pcs j ≡ waking
    → s.pcs k ≡ sleeping
    → IsSound (go (go s s.is_vacant k swapping) s.is_vacant j outside)
wakes-IsSound s j k i e f =
    moves woken s.is_vacant j outside
      (moves s s.is_vacant k swapping i (λ g. cc (sym f ∙ g)) (λ g. cc g) (λ a. a) (λ a. a)
        (λ l g. helps s s.is_vacant k))
      (λ g. cc (sym still ∙ g)) (λ g. cc g) (λ a. a) (λ a. a)
      (λ l g. inr (
        inl (
          Someone-go woken s.is_vacant j outside swapping (λ h. cc (sym still ∙ h))
            (record { who = k; at = go-here s s.is_vacant k swapping }))))
  where
    woken : System
    woken = go s s.is_vacant k swapping

    still : woken.pcs j ≡ waking
    still = elim (set_at-cases s.pcs k swapping j) [
      | inl a ↦ absurd (cc (sym e ∙ subst (λ n. s.pcs n ≡ sleeping) (sym a.0) f))
      | inr a ↦ a.1 ∙ e
    ]

Step-IsSound : {s t : System} → IsSound s → Step s t → IsSound t
Step-IsSound {s} i (locks j e z) =
    takes s 1 j i z (λ f. absurd (omega arith))
      (λ k f.
        stays s 1 j inside (λ t. absurd (omega arith)) (λ g. cc (sym e ∙ g)) (λ g. cc (sym e ∙ g))
          (i.helped k (before_go s 1 j inside sleeping k (λ g. cc g) f).1))
Step-IsSound {s} i (misses j e z) =
    moves s s.is_vacant j swapping i (λ f. cc (sym e ∙ f)) (λ f. cc f) (λ a. a) (λ a. a)
      (λ k f. helps s s.is_vacant j)
Step-IsSound {s} i (swaps j e z) = takes s 2 j i z (λ f. absurd (omega arith)) (λ k f. inl refl)
Step-IsSound {s} i (swaps_in_vain j e z) =
    moves s 2 j checking i (λ f. cc (sym e ∙ f)) (λ f. cc f) (λ a. absurd (omega arith)) (λ a. z)
      (λ k f. inl refl)
Step-IsSound {s} i (sleeps j e z) =
    moves s s.is_vacant j sleeping i (λ f. cc (sym e ∙ f)) (λ f. cc f) (λ a. a) (λ a. a)
      (λ k f. inl z)
Step-IsSound {s} i (returns j e z) =
    moves s s.is_vacant j swapping i (λ f. cc (sym e ∙ f)) (λ f. cc f) (λ a. a) (λ a. a)
      (λ k f. helps s s.is_vacant j)
Step-IsSound {s} i (wakes_up j e) =
    moves s s.is_vacant j swapping i (λ f. cc (sym e ∙ f)) (λ f. cc f) (λ a. a) (λ a. a)
      (λ k f. helps s s.is_vacant j)
Step-IsSound {s} i (unlocks j e) = unlocks-IsSound s j i e
Step-IsSound {s} i (wakes j k e f) = wakes-IsSound s j k i e f
Step-IsSound {s} i (wakes_none j e none) =
    moves s s.is_vacant j outside i (λ f. cc (sym e ∙ f)) (λ f. cc f) (λ a. a) (λ a. a)
      (λ k f. absurd (none k (before_go s s.is_vacant j outside sleeping k (λ g. cc g) f).1))

Reach-IsSound : {s : System} → Reach s → IsSound s
Reach-IsSound start = init-IsSound
Reach-IsSound (later r step) = Step-IsSound (Reach-IsSound r) step

-- However the accesses of any number of threads to the word of the mutex of threads interleave, at
-- most one thread has the mutex.
pub Reach-alone : (s : System) (j k : ℕ) → Reach s → s.pcs j ≡ inside → s.pcs k ≡ inside → j ≡ k
Reach-alone s j k r e f = (Reach-IsSound r).alone j k e f

-- However the accesses of any number of threads to the word of the mutex of threads interleave,
-- while a thread sleeps in `Lock`, another has the mutex, is about to exchange the word in `Lock`,
-- or is about to wake a thread: no wake-up is lost.
pub Reach-helped :
    (s : System) (j : ℕ)
    → Reach s
    → s.pcs j ≡ sleeping
    → Someone s inside ⊎ (Someone s swapping ⊎ Someone s waking)
Reach-helped s j r e = elim ((Reach-IsSound r).helped j e) [
  | inl two ↦ inl ((Reach-IsSound r).held (λ zero. absurd (omega arith)))
  | inr w ↦ inr w
]
