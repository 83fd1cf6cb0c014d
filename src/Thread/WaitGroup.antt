-- ===== src/Thread/WaitGroup.antt =====
-- source/thread/wait_group.hpp: a counter under a mutex. A thread that waits for the condition variable
-- is blocked, or notified and on its way to test the counter again.
use cpp_concurrency.Base.{
  ℕ, ◌+◌, ◌-◌, ◌%◌, ◌^◌, ◌<◌, ◌≡◌, refl, inl, inr, Bool, true, false, ltb, ◌==◌, Bool-cases,
  if◌then◌else◌, arith,
}

-- `WaitGroup`, with the threads at its condition variable.
pub record WaitGroup : Type 0 where
  pub waiting : ℕ
  pub count : ℕ
  pub blocked : ℕ
  pub notified : ℕ

abbrev pub init : WaitGroup
init = record { waiting = 0; count = 0; blocked = 0; notified = 0 }

-- `Add`
unfoldable pub add : ℕ → WaitGroup → WaitGroup
add n g = record g { count = (g.count + n) % 2 ^ 64 }

-- `notify_all` of the condition variable.
abbrev notify_all : WaitGroup → WaitGroup
notify_all g = record g { blocked = 0; notified = g.notified + g.blocked }

-- `Done`
unfoldable pub done : WaitGroup → WaitGroup
done g =
    let g : WaitGroup = record g { count = (g.count + 2 ^ 64 - 1) % 2 ^ 64 } in
    if ltb 0 g.waiting then notify_all g else g

-- The loop of `Wait`, until the thread waits or is through, which the Boolean tells.
unfoldable pub test : WaitGroup → Bool × WaitGroup
test g =
    if g.count == 0
    then (true, record g { waiting = g.waiting - 1 })
    else (false, record g { blocked = g.blocked + 1 })

-- `Wait`, and how it goes on when it is notified.
unfoldable pub wait : WaitGroup → Bool × WaitGroup
unfolding test
wait g = test (record g { waiting = g.waiting + 1 })

unfoldable pub resume : WaitGroup → Bool × WaitGroup
unfolding test
resume g = test (record g { notified = g.notified - 1 })

-- Calls of any number of threads, each under the mutex. The counter is not to overflow, and `Done` is called
-- once for each that was added.
pub data Step (g : WaitGroup) : WaitGroup → Type 0 where
  adds : (n : ℕ) → g.count + n < 2 ^ 64 → Step g (add n g)
  is_done : 0 < g.count → Step g (done g)
  waits : Step g (wait g).1
  resumes : 0 < g.notified → Step g (resume g).1
  wakes_for_no_reason :
      0 < g.blocked → Step g (record g { blocked = g.blocked - 1; notified = g.notified + 1 })

pub data Reach (g : WaitGroup) : WaitGroup → Type 0 where
  here : Reach g g
  later : {h i : WaitGroup} → Reach g h → Step h i → Reach g i

-- All that wait are counted, and none is blocked at zero.
record IsSound (g : WaitGroup) : Type 0 where
  small : g.count < 2 ^ 64
  counted : g.blocked + g.notified ≡ g.waiting
  awake : g.count ≡ 0 → g.blocked ≡ 0

test-IsSound :
    (g : WaitGroup)
    → g.count < 2 ^ 64
    → g.blocked + g.notified + 1 ≡ g.waiting
    → (g.count ≡ 0 → g.blocked ≡ 0)
    → IsSound (test g).1
unfolding test
test-IsSound g small one awake = elim (Bool-cases (g.count == 0)) [
  | inl e ↦ rw e (record { small = small; counted = omega arith; awake = awake })
  | inr e ↦
      rw e (record { small = small; counted = omega arith; awake = λ z. absurd (ground arith) })
]

Step-IsSound : {g h : WaitGroup} → IsSound g → Step g h → IsSound h
unfolding wait resume add done
Step-IsSound {g} i (adds n fits) = record {
  small = ground arith;
  counted = i.counted;
  awake = λ z. i.awake (ground arith);
}
Step-IsSound {g} i (is_done pos) =
    let below : (g.count + 2 ^ 64 - 1) % 2 ^ 64 < 2 ^ 64 = omega arith in
    elim (Bool-cases (ltb 0 g.waiting)) [
      | inl e ↦
          rw e (record { small = below; counted = omega (arith, i.counted); awake = λ z. refl })
      | inr e ↦
          rw e
            (record { small = below; counted = i.counted; awake = λ z. ground (arith, i.counted) })
    ]
Step-IsSound {g} i waits =
    test-IsSound (record g { waiting = g.waiting + 1 }) i.small (omega (arith, i.counted)) i.awake
Step-IsSound {g} i (resumes pos) =
    test-IsSound (record g { notified = g.notified - 1 }) i.small (omega (arith, i.counted)) i.awake
Step-IsSound {g} i (wakes_for_no_reason pos) = record {
  small = i.small;
  counted = omega (arith, i.counted);
  awake = λ z. absurd (omega (arith, i.awake z));
}

Reach-IsSound : {g : WaitGroup} → Reach init g → IsSound g
Reach-IsSound here = record { small = omega arith; counted = refl; awake = λ z. refl }
Reach-IsSound (later r st) = Step-IsSound (Reach-IsSound r) st

-- In any state that calls of a wait group by any number of threads lead to, with `Done` at most
-- once for each that was added and no overflow: if the counter is zero, all threads that wait have
-- been notified, and a thread that calls `Wait`, or goes on with it, is through.
pub zero-releases :
    (g : WaitGroup)
    → Reach init g
    → g.count ≡ 0
    → (g.notified ≡ g.waiting) × ((wait g).0 ≡ true) × ((resume g).0 ≡ true)
unfolding wait resume test
zero-releases g r z =
    let i = Reach-IsSound r in (omega (arith, i.counted, i.awake z), rw z refl, rw z refl)
